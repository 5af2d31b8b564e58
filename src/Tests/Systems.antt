-- ===== src/Tests/Systems.antt =====
-- A run of the whole system: a report, the approval of it and its control message.
use mathlib.Core.List.{Memᴰ}
use onos_mho.Base.{
  ℕ, zero, codes, ◌≡◌, refl, ◌≢◌, Text, List, [], ◌∷◌, All, Text-discrete, inl, arith,
}
use onos_mho.Base.Dict.{lookup, insert as insert_key}
use onos_mho.Base.Result.{ok}
use onos_mho.Store.Types.{
  MetricValue, Event, Entry, MhoState, state_created, approved, created, updated, MhoState-discrete,
  EventType-discrete,
}
use onos_mho.Store.{new_store, get, put, has_entry}
use onos_mho.Store.Watching.{new_watchers, send}
use onos_mho.Memory.{Memory, put_metric, put_new, deref, set_state, At}
use onos_mho.Utils.Control.{create_rc_control_header, create_rc_control_message}
use onos_mho.Monitor.{Report, insert, plan, commit, metric_value, process_report}
use onos_mho.Controller.{plan_approval, approve}
use onos_mho.Southbound.Handover.{ControlCall, plan_control, control_call}
use onos_mho.System.{
  System, Task, Step, Reach, start, perform, control_step, report, approval, control, work, here,
  next, reporting, approving, publishing, controlling,
}
use onos_mho.System.Evolution.{Evolves, Run, ends, then, Run-Evolves}
use onos_mho.System.Invariant.{Owned, FromReport}
use onos_mho.System.Invariant.Safety.{calls_from_reports, entries-Owned}
use onos_mho.System.Lifecycle.{approval_overwrites_report}
use onos_mho.Tests.{toy_ies, toy_pdu, cell_a, cell_b, ue_1, node_1}

abbrev first_report : Report ℕ
first_report = record { key = ue_1; ue_id = 3; tgt_cell_id = cell_a; call_process_id = codes "7" }

abbrev second_report : Report ℕ
second_report = record { key = ue_1; ue_id = 3; tgt_cell_id = cell_b; call_process_id = codes "8" }

abbrev pub Heard : Report ℕ → Text → Type 0
Heard r n = (r ≡ first_report) × (n ≡ node_1)

abbrev first_value : MetricValue ℕ
first_value = record {
  raw_ue_id = 3;
  tgt_cell_id = cell_a;
  state = state_created;
  call_process_id = codes "7";
  e2_node_id = node_1;
}

abbrev entry_1 : Entry ℕ
entry_1 = record { key = ue_1; value = 0 }

abbrev event_created : Event ℕ
event_created = record {
  key = ue_1;
  value = entry_1;
  type = created;
  event_mho_state = state_created;
}

abbrev pub event_approved : Event ℕ
event_approved = record { key = ue_1; value = entry_1; type = updated; event_mho_state = approved }

abbrev memory_with : MhoState → List (Event ℕ) → Memory ℕ ℕ ℕ
memory_with state sent = record {
  metrics = record first_value { state = state } ∷ [];
  store = record {
    records = (ue_1, entry_1) ∷ [];
    watchers = record { watchers = []; senders = sent };
    closed = [];
  };
}

abbrev call_1 : ControlCall
call_1 = record {
  node_id = node_1;
  header = 3 ∷ 3 ∷ 1 ∷ [];
  payload = codes "message";
  call_process_id = codes "7";
}

abbrev sent_1 : List (Event ℕ)
sent_1 = event_created ∷ []

abbrev sent_2 : List (Event ℕ)
sent_2 = event_created ∷ event_approved ∷ []

abbrev state_of : Memory ℕ ℕ ℕ → List (Task ℕ) → List ControlCall → System ℕ ℕ ℕ
state_of m ts cs = record { memory = m; tasks = ts; calls = cs }

abbrev Steps : System ℕ ℕ ℕ → System ℕ ℕ ℕ → Type 0
Steps = Step toy_ies toy_pdu Heard

abbrev empty : Memory ℕ ℕ ℕ
empty = record {
  metrics = [];
  store = record { records = []; watchers = record { watchers = []; senders = [] }; closed = [] };
}

step_report : Steps start (state_of empty (reporting first_report node_1 insert ∷ []) [])
unfolding start new_store new_watchers plan has_entry lookup
step_report = report first_report node_1 insert (refl, refl) refl

step_commit :
    Steps
      (state_of empty (reporting first_report node_1 insert ∷ []) [])
      (state_of (memory_with state_created sent_1) [] [])
unfolding perform commit put_new put_metric put lookup insert_key send metric_value
step_commit = work zero (reporting first_report node_1 insert) refl refl

step_approval :
    Steps
      (state_of (memory_with state_created sent_1) [] [])
      (state_of (memory_with state_created sent_1) (approving ue_1 0 ∷ []) [])
unfolding plan_approval get lookup Text-discrete EventType-discrete MhoState-discrete
step_approval = approval event_created 0 (Memᴰ.head refl) refl

step_approve :
    Steps
      (state_of (memory_with state_created sent_1) (approving ue_1 0 ∷ []) [])
      (state_of (memory_with approved sent_1) (publishing ue_1 0 approved ∷ []) [])
unfolding perform set_state
step_approve = work zero (approving ue_1 0) refl refl

step_publish :
    Steps
      (state_of (memory_with approved sent_1) (publishing ue_1 0 approved ∷ []) [])
      (state_of (memory_with approved sent_2) [] [])
unfolding perform put_metric put lookup insert_key send Text-discrete
step_publish = work zero (publishing ue_1 0 approved) refl refl

abbrev control_task : Task ℕ
control_task = controlling node_1 ue_1 0 (record first_value { state = approved })

step_control :
    Steps
      (state_of (memory_with approved sent_2) [] [])
      (state_of (memory_with approved sent_2) (control_task ∷ []) [])
unfolding plan_control get lookup Text-discrete EventType-discrete MhoState-discrete deref
step_control =
    control node_1 event_approved 0 (record first_value { state = approved })
      (Memᴰ.tail (Memᴰ.head refl)) refl

abbrev pub last_state : System ℕ ℕ ℕ
last_state = state_of (memory_with approved sent_2) (Task.finishing ue_1 0 ∷ []) (call_1 ∷ [])

step_call : Steps (state_of (memory_with approved sent_2) (control_task ∷ []) []) last_state
unfolding perform control_step control_call create_rc_control_header create_rc_control_message
step_call = work zero control_task refl refl

pub reached : Reach toy_ies toy_pdu Heard last_state
reached =
    next
      (next
        (next (next (next (next (next here step_report) step_commit) step_approval) step_approve)
          step_publish)
        step_control)
      step_call

Run-to_call :
    Run toy_ies toy_pdu Heard (state_of (memory_with state_created sent_1) [] []) last_state
Run-to_call =
    then (then (then (then (then ends step_approval) step_approve) step_publish) step_control)
      step_call

Run-Evolves_example : Evolves (memory_with state_created sent_1) last_state.memory
Run-Evolves_example = Run-Evolves toy_ies toy_pdu Heard Run-to_call

calls_from_reports_example : All (FromReport toy_ies toy_pdu Heard) (call_1 ∷ [])
calls_from_reports_example = calls_from_reports toy_ies toy_pdu Heard reached

found_1 : get ue_1 last_state.memory.store ≡ ok entry_1
unfolding get lookup Text-discrete
found_1 = refl

entries-Owned_example : Owned toy_ies Heard last_state.memory ue_1 0
entries-Owned_example = entries-Owned toy_ies toy_pdu Heard reached ue_1 found_1

held_1 : At (memory_with state_created sent_1) ue_1 0 first_value
unfolding get lookup Text-discrete
held_1 = (refl, refl)

other_cell : cell_a ≢ cell_b
other_cell e = ground arith

approval_overwrites_report_example :
    At
      (approve ue_1 0 (process_report second_report node_1 (memory_with state_created sent_1)).0)
      ue_1
      0
      (record first_value { state = approved })
approval_overwrites_report_example =
    (approval_overwrites_report second_report node_1 (memory_with state_created sent_1) 0 entry_1
      created state_created held_1 (inl refl, inl refl) other_cell).2
