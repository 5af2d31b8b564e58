-- ===== src/System/Invariant/Safety.antt =====
-- What the invariant says to the outside: which control messages are sent, and which states occur.
use onos_mho.Base.{◌≡◌, Text, All, ℕ}
use onos_mho.Base.Result.{ok}
use onos_mho.Store.Types.{MetricValue, Event, Entry}
use onos_mho.Store.{get}
use onos_mho.Memory.{events}
use onos_mho.Utils.Ies.{Ies, PduBuilder}
use onos_mho.Monitor.{Report}
use onos_mho.System.{System, Reach}
use onos_mho.System.Invariant.{IsLive, Owned, FromReport}
use onos_mho.System.Invariant.Reach.{Reach-Inv, Owned-of_get}

module _ (ies : Ies) (pdu : PduBuilder ies) (Received : Report ies.Ueid → Text → Type 0)
    {I C : Type 0} {s : System ies.Ueid I C} (reach : Reach ies pdu Received s) where
  -- However the steps of the monitors, the controller and the nodes' watchers are interleaved, and
  -- whichever events reach them, each control message that is ever sent is the one of a report that
  -- was received, and goes to the node that the report was received from.
  pub calls_from_reports : All (FromReport ies pdu Received) s.calls
  calls_from_reports = (Reach-Inv ies pdu Received reach).calls

  -- However the steps of the monitors, the controller and the nodes' watchers are interleaved, no value
  -- that was allocated, and no event that was sent, ever has the state `Waiting` or `Denied`.
  states_live :
      All (λ (nv : MetricValue ies.Ueid). IsLive nv.state) s.memory.metrics
      × All (λ (e : Event ℕ). IsLive e.event_mho_state) (events s.memory)
  states_live = let v = Reach-Inv ies pdu Received reach in (v.values, v.sent)

  -- However the steps of the monitors, the controller and the nodes' watchers are interleaved, an entry
  -- that `Get` finds under a key leads to a value that was made from a report received for this very
  -- key, from the node that the value names, and whose state is neither `Waiting` nor `Denied`.
  pub entries-Owned :
      (key : Text) {v : Entry ℕ}
      → get key s.memory.store ≡ ok v
      → Owned ies Received s.memory key v.value
  entries-Owned key g = Owned-of_get ies pdu Received key s (Reach-Inv ies pdu Received reach) g
