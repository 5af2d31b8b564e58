-- ===== src/System/Lifecycle.antt =====
-- What happens when a report comes between the controller's reading of an entry and its writing.
use onos_mho.Base.{◌≡◌, ◌≢◌, ℕ, Text, length, some}
use onos_mho.Base.Result.{ok}
use onos_mho.Store.Types.{MetricValue, MhoState, EventType, Entry, Event, approved}
use onos_mho.Memory.{Memory, At}
use onos_mho.Monitor.{Report, metric_value, process_report}
use onos_mho.Monitor.Laws.{process_report_known, process_report_keeps}
use onos_mho.Controller.{plan_approval, approve}
use onos_mho.Controller.Laws.{IsReport, plan_of_report, approve-At}

-- An event about a key.
abbrev pub event_of : Text → Entry ℕ → EventType → MhoState → Event ℕ
event_of key entry type state = record {
  key = key;
  value = entry;
  type = type;
  event_mho_state = state;
}

-- The controller has read the entry of a key for an event; before it writes, a report with another
-- target cell replaces the entry. The controller's write then puts the old value back: afterwards the
-- key leads to the old target cell again, as an approved handover, and the report is lost.
pub approval_overwrites_report :
    {U I C : Type 0} (r : Report U) (node_id : Text) (m : Memory U I C) (p : ℕ) (entry : Entry ℕ)
    (type : EventType) (state : MhoState) {nv : MetricValue U}
    → At m r.key p nv
    → IsReport (event_of r.key entry type state)
    → nv.tgt_cell_id ≢ r.tgt_cell_id
    → let m1 = (process_report r node_id m).0 in
      (plan_approval (event_of r.key entry type state) m ≡ ok (some p))
      × At m1 r.key (length m.metrics) (metric_value r node_id)
      × At (approve r.key p m1) r.key p (record nv { state = approved })
approval_overwrites_report r node_id m p entry type state h report other =
    let (_, replaced, _) = process_report_known r node_id m p h in
    (
      plan_of_report (event_of r.key entry type state) m p h report,
      (replaced other).0,
      approve-At r.key p (process_report r node_id m).0 (process_report_keeps r node_id m p h.1),
    )
