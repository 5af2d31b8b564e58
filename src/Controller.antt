-- ===== src/Controller.antt =====
-- pkg/controller/mho.go: the controller approves each handover that an event reports.
pub mod Laws
use onos_mho.Base.{ℕ, Text, Bool, true, false, ◌||◌, is_yes, if◌then◌else◌, Option, none, some}
use onos_mho.Base.Result.{Result, ok, err, panic}
use onos_mho.Store.Types.{
  Event, EventType, EventType-discrete, created, updated, MhoState, MhoState-discrete,
  state_created, denied, approved,
}
use onos_mho.Store.{get}
use onos_mho.Memory.{Memory, put_metric, set_state}

module _ {U I C : Type 0} where
  -- The test of the event's type, the one of its state, and the `Get` between them: the pointer of the
  -- value to approve, if the event asks for it. After a failed `Get` the code reads through nil.
  unfoldable pub plan_approval : Event ℕ → Memory U I C → Result (Option ℕ)
  plan_approval e m =
      let looked_up : Result (Option ℕ) = elim (get e.key m.store) [
        | ok v ↦ ok (
            if is_yes (MhoState-discrete e.event_mho_state state_created)
              || is_yes (MhoState-discrete e.event_mho_state denied)
            then some v.value
            else none)
        | err _ ↦ panic
        | panic ↦ panic
      ] in
      if is_yes (EventType-discrete e.type created) || is_yes (EventType-discrete e.type updated)
      then looked_up
      else ok none

  -- `nv.State = store.Approved` and the `Put`, whose error is only logged.
  unfoldable pub approve : Text → ℕ → Memory U I C → Memory U I C
  approve key p m = (put_metric key p approved (set_state p approved m)).0

  -- One round of the loop of `controlHandover`, with no other call in between.
  unfoldable pub control_handover : Event ℕ → Memory U I C → Memory U I C × Result (Unit {0})
  unfolding plan_approval approve
  control_handover e m = elim (plan_approval e m) [
    | ok (some p) ↦ (approve e.key p m, ok tt)
    | ok none ↦ (m, ok tt)
    | err x ↦ (m, err x)
    | panic ↦ (m, panic)
  ]
