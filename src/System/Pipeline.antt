-- ===== src/System/Pipeline.antt =====
-- An E2 node's indications on their way to the metric store: the stream of pkg/broker/stream.go between
-- the goroutine of pkg/southbound/e2/manager.go that sends to it and the goroutine of
-- pkg/monitoring/monitor.go, `Start`, whose `Recv` reads from it.
pub mod Laws
pub mod Progress
pub mod Complete
use onos_mho.Base.{Text, List, [], ◌∷◌, ◌++◌, Option, none, some}
use onos_mho.Base.Result.{Result, ok, err, panic, canceled}
use onos_mho.Broker.Stream.{
  BufferedWriter, new_buffered_writer, send, close, drain, recv, recv_done, accepted, given,
}
use onos_mho.Memory.{Memory}
use onos_mho.Monitor.{Indication}
use onos_mho.Monitor.Loop.{
  Reader, receiving, recv_failed, process_failed, panicked, Loop, Event, handover, cancel, receive,
  step as loop_step, start as start_loop,
}
use onos_mho.Utils.Ies.{Ies}

-- The stream's shared part, and the monitor with its goroutine.
pub record Pipeline (U I C : Type 0) : Type 0 where
  pub writer : BufferedWriter Indication
  pub monitor : Loop U I C

-- What can happen, in any order: a call of `Send` or of `Close`, a step of the stream's goroutine, a
-- `Recv` of the monitor on the channel or on its context, and a step of the monitor that is no `Recv`.
pub data Happening : Type 0 where
  sends : Indication → Happening
  closes drains receives receives_done : Happening
  monitors : Event → Happening

unfoldable pub start : {U I C : Type 0} → Memory U I C → Pipeline U I C
unfolding new_buffered_writer start_loop
start m = record { writer = new_buffered_writer; monitor = start_loop m }

module _ (ies : Ies) (node_id : Text) {I C : Type 0} where
  -- The monitor with what its `Recv` has returned, if it has.
  unfoldable pub take_answer :
      BufferedWriter Indication × Option (Result Indication)
      → Loop ies.Ueid I C
      → Pipeline ies.Ueid I C
  unfolding receive
  take_answer (w, none) l = record { writer = w; monitor = l }
  take_answer (w, some r) l = record { writer = w; monitor = receive ies node_id receiving r l }

  -- Only the two events of the monitor that are not an answer of `Recv`.
  unfoldable pub own_step : Event → Loop ies.Ueid I C → Loop ies.Ueid I C
  unfolding loop_step
  own_step handover l = loop_step ies node_id handover l
  own_step cancel l = loop_step ies node_id cancel l
  own_step _ l = l

  -- A `Recv` where the goroutine stands: only at the top of its loop does it call `Recv`.
  unfoldable pub recv_where :
      Reader
      → BufferedWriter Indication × Option (Result Indication)
      → Pipeline ies.Ueid I C
      → Pipeline ies.Ueid I C × List Indication
  unfolding take_answer
  recv_where receiving answer p = (take_answer answer p.monitor, given answer.1)
  recv_where _ answer p = (p, [])

  -- The next state, the indication that the stream accepted, and the one that the monitor was given.
  unfoldable pub step :
      Happening → Pipeline ies.Ueid I C → Pipeline ies.Ueid I C × List Indication × List Indication
  unfolding send close drain recv recv_done recv_where own_step
  step (sends ind) p =
      let (w, r) = send ind p.writer in (record p { writer = w }, accepted ind r, [])
  step closes p = (record p { writer = (close p.writer).0 }, [], [])
  step drains p = (record p { writer = drain p.writer }, [], [])
  step receives p = let (p', got) = recv_where p.monitor.reader (recv p.writer) p in (p', [], got)
  step receives_done p =
      let (p', got) = recv_where p.monitor.reader (recv_done p.writer) p in (p', [], got)
  step (monitors e) p = (record p { monitor = own_step e p.monitor }, [], [])

  unfoldable pub run :
      List Happening
      → Pipeline ies.Ueid I C
      → Pipeline ies.Ueid I C × List Indication × List Indication
  run [] p = (p, [], [])
  run (h ∷ hs) p =
      let (p', sent, got) = step h p in
      let (p'', sents, gots) = run hs p' in (p'', sent ++ sents, got ++ gots)
