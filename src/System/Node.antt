-- ===== src/System/Node.antt =====
-- The whole way of a node's indications into the metric store: from the channel of its subscription, by
-- the goroutine `sendIndicationOnStream` of pkg/southbound/e2/manager.go, through the stream of
-- pkg/broker/stream.go, to the goroutine of pkg/monitoring/monitor.go.
pub mod Laws
use onos_mho.Base.{Text, List, [], ◌∷◌, ◌++◌}
use onos_mho.Broker.Stream.{BufferedWriter, send, accepted}
use onos_mho.Memory.{Memory}
use onos_mho.Monitor.{Indication}
use onos_mho.Monitor.Loop.{Event}
use onos_mho.Southbound.Forwarding.{Forwarder, forwarding, ended, Pipe, offer}
use onos_mho.System.Pipeline as Pipeline
use onos_mho.System.Pipeline.{
  Pipeline, Happening, closes, drains, receives, receives_done, monitors,
}
use onos_mho.Utils.Ies.{Ies}

pub record Node (U I C : Type 0) : Type 0 where
  pub forwarder : Forwarder
  pub pipeline : Pipeline U I C

-- What happens to the pipeline other than a call of `Send`, which only the forwarding goroutine makes.
pub data Own : Type 0 where
  closing draining receiving giving_up : Own
  monitoring : Event → Own

abbrev pub as_happening : Own → Happening
as_happening closing = closes
as_happening draining = drains
as_happening receiving = receives
as_happening giving_up = receives_done
as_happening (monitoring e) = monitors e

-- The node sends an indication on its subscription, or something else happens.
pub data NodeEvent : Type 0 where
  offers : Indication → NodeEvent
  happens : Own → NodeEvent

-- After `OpenReader`, with the goroutines of `createSubscription` started.
unfoldable pub start : {U I C : Type 0} → Memory U I C → Node U I C
unfolding Pipeline.start
start m = record { forwarder = forwarding; pipeline = Pipeline.start m }

-- What the stream accepts of an indication that is offered.
unfoldable pub taken : Forwarder → Indication → BufferedWriter Indication → List Indication
unfolding send
taken forwarding ind w = accepted ind (send ind w).1
taken ended ind w = []

module _ (ies : Ies) (node_id : Text) {I C : Type 0} where
  unfoldable pub offer_node : Indication → Node ies.Ueid I C → Node ies.Ueid I C
  unfolding offer
  offer_node ind n =
      let pipe =
        offer n.forwarder ind (record { writer = n.pipeline.writer; forwarder = n.forwarder }) in
      record { forwarder = pipe.forwarder; pipeline = record n.pipeline { writer = pipe.writer } }

  -- The next state, the indication that was offered, and the one that the stream accepted.
  unfoldable pub step :
      NodeEvent → Node ies.Ueid I C → Node ies.Ueid I C × List Indication × List Indication
  unfolding offer_node taken Pipeline.step
  step (offers ind) n = (offer_node ind n, ind ∷ [], taken n.forwarder ind n.pipeline.writer)
  step (happens o) n =
      (record n { pipeline = (Pipeline.step ies node_id (as_happening o) n.pipeline).0 }, [], [])

  unfoldable pub run :
      List NodeEvent → Node ies.Ueid I C → Node ies.Ueid I C × List Indication × List Indication
  run [] n = (n, [], [])
  run (e ∷ es) n =
      let (n', offered, sent) = step e n in
      let (n'', offereds, sents) = run es n' in (n'', offered ++ offereds, sent ++ sents)
