-- ===== src/Tests/Handlers.antt =====
-- The handlers of a report, an event of the controller and an event of a node's watcher.
use onos_mho.Base.{ℕ, ◌≡◌, refl, Text, Text-discrete, codes, [], ◌∷◌}
use onos_mho.Base.Dict.{lookup}
use onos_mho.Base.Result.{ok}
use onos_mho.Store.Types.{
  MetricValue, Event, MhoState, EventType, state_created, approved, done, created, updated,
}
use onos_mho.Store.{get}
use onos_mho.Memory.{Memory, At}
use onos_mho.Utils.Control.{create_rc_control_header, create_rc_control_message}
use onos_mho.Monitor.{Report, process_report}
use onos_mho.Monitor.Laws.{process_report_known}
use onos_mho.Controller.{control_handover}
use onos_mho.Controller.Laws.{control_handover_lem}
use onos_mho.Southbound.Handover.{ControlCall, control_call, watch_mho_change}
use onos_mho.Southbound.Handover.Laws.{watch_mho_change_lem}
use onos_mho.Tests.{toy_ies, toy_pdu, cell_a, cell_b, ue_1, node_1}

abbrev value_in : MhoState → MetricValue ℕ
value_in state = record {
  raw_ue_id = 3;
  tgt_cell_id = cell_a;
  state = state;
  call_process_id = codes "7";
  e2_node_id = node_1;
}

-- UE 1 is in the store, and UE 2 is not.
abbrev with_ue_1 : MhoState → Memory ℕ ℕ ℕ
with_ue_1 state = record {
  metrics = value_in state ∷ [];
  store = record {
    records = (ue_1, record { key = ue_1; value = 0 }) ∷ [];
    watchers = record { watchers = []; senders = [] };
    closed = [];
  };
}

abbrev of_ue : Text → Text → Report ℕ
of_ue key cell = record { key = key; ue_id = 3; tgt_cell_id = cell; call_process_id = codes "8" }

abbrev event_in : Text → EventType → MhoState → Event ℕ
event_in key type state = record {
  key = key;
  value = record { key = key; value = 0 };
  type = type;
  event_mho_state = state;
}

ue_1_found : (state : MhoState) → At (with_ue_1 state) ue_1 0 (value_in state)
unfolding get lookup Text-discrete
ue_1_found state = (refl, refl)

process_report_known_example :
    (process_report (of_ue ue_1 cell_b) node_1 (with_ue_1 done)).1 ≡ ok tt
process_report_known_example =
    (process_report_known (of_ue ue_1 cell_b) node_1 (with_ue_1 done) 0 (ue_1_found done)).0

control_handover_lem_example :
    (control_handover (event_in ue_1 created state_created) (with_ue_1 state_created)).1 ≡ ok tt
control_handover_lem_example =
    (control_handover_lem (event_in ue_1 created state_created) (with_ue_1 state_created) 0
      (ue_1_found state_created)).0

abbrev call_1 : ControlCall
call_1 = record {
  node_id = node_1;
  header = 3 ∷ 3 ∷ 1 ∷ [];
  payload = codes "message";
  call_process_id = codes "7";
}

built : control_call toy_ies toy_pdu node_1 (value_in approved) ≡ ok call_1
unfolding control_call create_rc_control_header create_rc_control_message
built = refl

watch_mho_change_lem_example :
    (watch_mho_change toy_ies toy_pdu node_1
      (event_in ue_1 updated approved)
      (with_ue_1 approved)).2
    ≡ ok tt
watch_mho_change_lem_example =
    (watch_mho_change_lem toy_ies toy_pdu node_1 (event_in ue_1 updated approved)
      (with_ue_1 approved) 0 (value_in approved) call_1 (ue_1_found approved) built).0
