-- ===== src/Broker/Registry/Reach.antt =====
-- pkg/broker/broker.go: whatever calls come to a broker, in whichever order.
pub mod Numbered
pub mod Laws
use onos_mho.Base.{Text, List, [], ◌∷◌}
use onos_mho.Base.Result.{Result}
use onos_mho.Broker.Registry.{StreamBroker, open_stream, open_reader, close_stream, close}

-- A call that changes the broker. `registers` is the second part of an `OpenReader` whose first part
-- found no stream: other calls may have come in between.
pub data Call (N S : Type 0) : Type 0 where
  opens registers : N → Text → Text → S → Call N S
  closes_stream : (N → Text → Result (Unit {0})) → Text → Call N S
  closes : Call N S

module _ {D N S : Type 0} where
  unfoldable pub step : Call N S → StreamBroker D N S → StreamBroker D N S
  unfolding open_reader open_stream close_stream close
  step (opens node sub_name channel_id sub_spec) b =
      (open_reader node sub_name channel_id sub_spec b).0
  step (registers node sub_name channel_id sub_spec) b =
      (open_stream node sub_name channel_id sub_spec b).0
  step (closes_stream unsubscribe id) b = (close_stream unsubscribe id b).0
  step closes b = (close b).0

  unfoldable pub run : List (Call N S) → StreamBroker D N S → StreamBroker D N S
  run [] b = b
  run (c ∷ cs) b = run cs (step c b)
