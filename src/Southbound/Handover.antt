-- ===== src/Southbound/Handover.antt =====
-- pkg/southbound/e2/manager.go, `watchMHOChanges`: an approved handover becomes a control message to
-- the node that reported it, and is then done.
pub mod Laws
use onos_mho.Base.{
  ℕ, Text, Text-discrete, Bool, ◌&&◌, is_yes, if◌then◌else◌, List, [], ◌∷◌, ◌++◌, Option, none,
  some,
}
use onos_mho.Base.Result.{Result, ok, err, panic, ◌>>=◌}
use onos_mho.Store.Types.{
  MetricValue, Event, EventType, EventType-discrete, updated, MhoState, MhoState-discrete, approved,
  done,
}
use onos_mho.Store.{get}
use onos_mho.Memory.{Memory, put_metric, set_state, deref}
use onos_mho.Utils.Ies.{Ies, PduBuilder}
use onos_mho.Utils.Control.{create_rc_control_header, create_rc_control_message}

-- What `node.Control` is called with.
pub record ControlCall : Type 0 where
  pub node_id : Text
  pub header : Text
  pub payload : Text
  pub call_process_id : Text

module _ {U I C : Type 0} where
  -- The tests of an event and of the value under its key: the pointer and the value to hand over, if
  -- the event asks this node for it. After a failed `Get` the code reads through nil.
  unfoldable pub plan_control : Text → Event ℕ → Memory U I C → Result (Option (ℕ × MetricValue U))
  plan_control node_id e m =
      let looked_up : Result (Option (ℕ × MetricValue U)) = elim (get e.key m.store) [
        | ok v ↦ elim (deref v.value m) [
          | ok nv ↦ ok (
              if is_yes (MhoState-discrete e.event_mho_state approved)
                && is_yes (Text-discrete nv.e2_node_id node_id)
              then some (v.value, nv)
              else none)
          | err _ ↦ panic
          | panic ↦ panic
        ]
        | err _ ↦ panic
        | panic ↦ panic
      ] in
      if is_yes (EventType-discrete e.type updated) then looked_up else ok none

  -- `nv.State = store.Done` and the `Put`, whose error is only logged.
  unfoldable pub finish : Text → ℕ → Memory U I C → Memory U I C
  finish key p m = (put_metric key p done (set_state p done m)).0

-- An error of a builder is only logged: the bytes are nil then.
abbrev pub bytes_or_nil : Result Text → Result Text
bytes_or_nil (ok b) = ok b
bytes_or_nil (err _) = ok []
bytes_or_nil panic = panic

module _ (ies : Ies) (pdu : PduBuilder ies) where
  -- The control message of a value, for the node that is watched.
  unfoldable pub control_call : Text → MetricValue ies.Ueid → Result ControlCall
  control_call node_id nv = do
    header ← bytes_or_nil (create_rc_control_header ies pdu nv.raw_ue_id)
    payload ← bytes_or_nil (create_rc_control_message ies pdu nv.tgt_cell_id)
    ok (record {
      node_id = node_id;
      header = header;
      payload = payload;
      call_process_id = nv.call_process_id;
    })

  -- One round of the loop, with no other call in between: the calls of `node.Control` that it makes
  -- stand beside the state. An error of `node.Control` is only logged, so its answer is not read.
  unfoldable pub watch_mho_change :
      {I C : Type 0}
      → Text
      → Event ℕ
      → Memory ies.Ueid I C
      → Memory ies.Ueid I C × List ControlCall × Result (Unit {0})
  unfolding plan_control finish control_call
  watch_mho_change node_id e m = elim (plan_control node_id e m) [
    | ok (some (p, nv)) ↦ elim (control_call node_id nv) [
      | ok call ↦ (finish e.key p m, call ∷ [], ok tt)
      | err x ↦ (m, [], err x)
      | panic ↦ (m, [], panic)
    ]
    | ok none ↦ (m, [], ok tt)
    | err x ↦ (m, [], err x)
    | panic ↦ (m, [], panic)
  ]
