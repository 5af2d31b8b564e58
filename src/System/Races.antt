-- ===== src/System/Races.antt =====
-- Events that reach a handler late: what the handlers do when the entry has changed since.
use onos_mho.Base.{ℕ, ◌≡◌, refl, ◌≢◌, Text, length, [], ◌∷◌, inl, inr}
use onos_mho.Base.Result.{ok}
use onos_mho.Store.Types.{MetricValue, Entry, updated, state_created, approved, done}
use onos_mho.Memory.{Memory, At}
use onos_mho.Utils.Ies.{Ies, PduBuilder}
use onos_mho.Monitor.{Report, metric_value, process_report}
use onos_mho.Monitor.Laws.{process_report_known}
use onos_mho.Controller.{control_handover}
use onos_mho.Controller.Laws.{control_handover_lem}
use onos_mho.Southbound.Handover.{ControlCall, control_call, watch_mho_change}
use onos_mho.Southbound.Handover.Laws.{watch_mho_change_lem}
use onos_mho.System.Lifecycle.{event_of}

module _ (ies : Ies) (pdu : PduBuilder ies) {I C : Type 0} (r : Report ies.Ueid) (node_id : Text)
    (m : Memory ies.Ueid I C) (call : ControlCall) (p : ℕ) {nv : MetricValue ies.Ueid} where
  -- A report with another target cell replaces the value of a UE, and only then the watcher of the
  -- reporting node takes an `Approved` event of that UE, one that was sent before the report. It sends
  -- the control message of the new report, which the controller has not seen, and the new value is
  -- `Done`. The controller, on the event of the report, then approves it, and on that approval the
  -- watcher sends the very same control message once more.
  pub stale_approval_repeats :
      (first second third : Entry ℕ)
      → At m r.key p nv
      → nv.tgt_cell_id ≢ r.tgt_cell_id
      → control_call ies pdu node_id (metric_value r node_id) ≡ ok call
      → let m1 = (process_report r node_id m).0 in
        let (m2, calls, _) =
          watch_mho_change ies pdu node_id (event_of r.key first updated approved) m1 in
        let m3 = (control_handover (event_of r.key second updated state_created) m2).0 in
        let (m4, calls', _) =
          watch_mho_change ies pdu node_id (event_of r.key third updated approved) m3 in
        (calls ≡ call ∷ [])
        × At m2 r.key (length m.metrics) (record (metric_value r node_id) { state = done })
        × At m3 r.key (length m.metrics) (record (metric_value r node_id) { state = approved })
        × (calls' ≡ call ∷ [])
        × At m4 r.key (length m.metrics) (record (metric_value r node_id) { state = done })
  unfolding metric_value control_call
  stale_approval_repeats first second third held other built =
      let q = length m.metrics in
      let m1 = (process_report r node_id m).0 in
      let e1 = event_of r.key first updated approved in
      let m2 = (watch_mho_change ies pdu node_id e1 m1).0 in
      let e2 = event_of r.key second updated state_created in
      let m3 = (control_handover e2 m2).0 in
      let e3 = event_of r.key third updated approved in
      let v1 = metric_value r node_id in
      let v3 = record v1 { state = approved } in
      let (_, replaced, _) = process_report_known r node_id m p held in
      let (at1, _) = replaced other in
      let (_, asked, _) = watch_mho_change_lem ies pdu node_id e1 m1 q v1 call at1 built in
      let (calls, at2, _) = asked (refl, refl, refl) in
      let (_, reported, _) = control_handover_lem e2 m2 q at2 in
      let (at3, _) = reported (inr refl, inl refl) in
      let (_, asked', _) = watch_mho_change_lem ies pdu node_id e3 m3 q v3 call at3 built in
      let (calls', at4, _) = asked' (refl, refl, refl) in (calls, at2, at3, calls', at4)
