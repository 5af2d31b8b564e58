-- ===== src/Tests/Races.antt =====
-- Late events, events that nobody watches, and the pipeline of a node, on concrete values.
use onos_mho.Base.{
  All, ℕ_discrete, inl, ℕ, ◌≡◌, refl, ◌≢◌, Text, Text-discrete, codes, List, [], ◌∷◌, ◌++◌, true,
  false, arith,
}
use onos_mho.Base.Dict.{lookup, insert as insert_key}
use onos_mho.Base.Result.{Result, ok, err, panic, not_supported}
use onos_mho.Store.Types.{
  MetricValue, Entry, Event, approved, updated, EventType-discrete, MhoState-discrete,
}
use onos_mho.Store.{get, put, has_entry, watch}
use onos_mho.Memory.{Memory, At, put_new, put_metric, set_state, deref, events}
use onos_mho.Utils.Id.{generate_gnb_ue_id_string}
use onos_mho.Store.Watching.{deliveries, add_watcher, send}
use onos_mho.Utils.Control.{create_rc_control_header, create_rc_control_message}
use onos_mho.Broker.Stream.Fifo.{pending}
use onos_mho.Monitor.{
  Indication, Report, metric_value, process_report, process_indication, read_indication,
  tgt_cell_id, plan, commit, plan_stored, compare_metric,
}
use onos_mho.Monitor.Loop.{zero_indication, selecting, cancel}
use onos_mho.Controller.{control_handover, plan_approval, approve}
use onos_mho.Southbound.Handover.{ControlCall, control_call, watch_mho_change}
use onos_mho.System.Lifecycle.{event_of}
use onos_mho.System.Races.{stale_approval_repeats}
use onos_mho.System.Sending.{
  Sending, Move, reports, registers, sends as sends_at, controls, after, run_sender, take_control,
  move, run_moves,
}
use onos_mho.System.Sending.Laws.{Elsewhere, Repeats}
use onos_mho.System.Sending.Unwatched.{Allocated, unwatched_report_stays}
use onos_mho.Southbound.Forwarding.{forwarding}
use onos_mho.System.Node as Node
use onos_mho.System.Node.{NodeEvent, offers, happens, draining, receiving, monitoring}
use onos_mho.System.Node.Laws.{run-offered}
use onos_mho.System.Pipeline.{sends, drains, receives, run, start}
use onos_mho.System.Pipeline.Laws.{handle_all}
use onos_mho.System.Pipeline.Progress.{ready, rounds, run-rounds}
use onos_mho.System.Pipeline.Complete.{Serves, indication_completes}
use onos_mho.Utils.Ies.{Ies}
use onos_mho.Tests.{toy_ies, toy_pdu, cell_a, cell_b, ue_1, node_1}

abbrev report_to : Text → Report ℕ
report_to cell = record { key = ue_1; ue_id = 3; tgt_cell_id = cell; call_process_id = codes "7" }

abbrev empty : Memory ℕ ℕ ℕ
empty = record {
  metrics = [];
  store = record { records = []; watchers = record { watchers = []; senders = [] }; closed = [] };
}

abbrev entry_1 : Entry ℕ
entry_1 = record { key = ue_1; value = 0 }

abbrev approved_a : MetricValue ℕ
approved_a = record {
  raw_ue_id = 3;
  tgt_cell_id = cell_a;
  state = approved;
  call_process_id = codes "7";
  e2_node_id = node_1;
}

abbrev with_approved : Memory ℕ ℕ ℕ
with_approved = record {
  metrics = approved_a ∷ [];
  store = record {
    records = (ue_1, entry_1) ∷ [];
    watchers = record { watchers = []; senders = [] };
    closed = [];
  };
}

held_a : At with_approved ue_1 0 approved_a
unfolding get lookup Text-discrete
held_a = (refl, refl)

other_cell : cell_a ≢ cell_b
other_cell e = ground arith

abbrev call_1 : ControlCall
call_1 = record {
  node_id = node_1;
  header = 3 ∷ 3 ∷ 1 ∷ [];
  payload = codes "message";
  call_process_id = codes "7";
}

built_b : control_call toy_ies toy_pdu node_1 (metric_value (report_to cell_b) node_1) ≡ ok call_1
unfolding control_call create_rc_control_header create_rc_control_message metric_value
built_b = refl

stale_approval_repeats_example :
    (watch_mho_change toy_ies toy_pdu node_1
      (event_of ue_1 entry_1 updated approved)
      (process_report (report_to cell_b) node_1 with_approved).0).1
    ≡ call_1 ∷ []
stale_approval_repeats_example =
    (stale_approval_repeats toy_ies toy_pdu (report_to cell_b) node_1 with_approved call_1 0 entry_1
      entry_1 entry_1 held_a other_cell built_b).0

nothing_stored : has_entry ue_1 empty.store ≡ false
unfolding has_entry lookup
nothing_stored = refl

nothing-Allocated : Allocated empty
unfolding get lookup
nothing-Allocated j v e = cc

abbrev idle : Sending ℕ ℕ ℕ
idle = record { memory = empty; inbox = [] }

-- A watcher registers; the report is repeated, another UE is reported, and that one is told of.
abbrev later_moves : List (Move ℕ ℕ ℕ)
later_moves =
    registers 1 10
    ∷ reports (report_to cell_a) node_1
    ∷ reports (record (report_to cell_b) { key = codes "other" }) node_1
    ∷ sends_at 0
    ∷ controls 0
    ∷ []

abbrev all_moves : List (Move ℕ ℕ ℕ)
all_moves = reports (report_to cell_a) node_1 ∷ sends_at 0 ∷ later_moves

abbrev moved : Sending ℕ ℕ ℕ
moved = elim (run_moves toy_ies toy_pdu ℕ_discrete all_moves idle) [
  | ok s ↦ s
  | err _ ↦ idle
  | panic ↦ idle
]

all_moves_end : run_moves toy_ies toy_pdu ℕ_discrete all_moves idle ≡ ok moved
unfolding run_moves move after process_report plan plan_stored compare_metric deref commit put_new
    put_metric put has_entry get lookup insert_key send watch add_watcher run_sender deliveries
    take_control control_handover plan_approval approve set_state metric_value Text-discrete
    EventType-discrete MhoState-discrete
all_moves_end = refl

same_cell : All (Repeats ue_1 cell_a) later_moves
same_cell = (tt, (λ e. refl, (λ e. ground arith, (tt, (tt, tt)))))

unwatched_report_stays_example :
    At moved.memory ue_1 0 (metric_value (report_to cell_a) node_1)
    × All (λ (e : Event ℕ). e.key ≢ ue_1) (events moved.memory)
    × All (Elsewhere ue_1) moved.inbox
unwatched_report_stays_example =
    unwatched_report_stays toy_ies toy_pdu ℕ_discrete (report_to cell_a) node_1 idle refl
      nothing_stored nothing-Allocated tt tt later_moves same_cell all_moves_end

abbrev indication_1 : Indication
indication_1 = record { header = codes "h"; payload = cell_a; call_process_id = codes "7" }

-- Like `toy_ies`, but a header without bytes names a UE that is not a gNB's.
abbrev strict_header : Text → Result ℕ
strict_header [] = ok 0
strict_header (x ∷ xs) = ok 3

abbrev strict_ies : Ies
strict_ies = record toy_ies { unmarshal_header = strict_header }

zero_refused : read_indication strict_ies zero_indication ≡ err not_supported
unfolding read_indication
zero_refused = refl

abbrev node_events : List NodeEvent
node_events =
    offers indication_1
    ∷ happens draining
    ∷ offers zero_indication
    ∷ happens receiving
    ∷ happens (monitoring cancel)
    ∷ []

run-offered_example :
    let (n, offered, _) = Node.run strict_ies node_1 node_events (Node.start empty) in
    (handled : List Indication) × (lost : List Indication) × (offered
      ≡ (handled ++ pending n.pipeline.writer) ++ lost)
    × (n.pipeline.monitor.memory ≡ handle_all strict_ies node_1 handled empty)
    × (n.forwarder ≡ forwarding → lost ≡ [])
run-offered_example = run-offered strict_ies node_1 not_supported zero_refused node_events empty

accepted_1 : (process_indication strict_ies indication_1 node_1 empty).1 ≡ ok tt
unfolding process_indication read_indication tgt_cell_id process_report plan commit put_new
    put_metric put has_entry lookup
accepted_1 = refl

run-rounds_example :
    (run strict_ies node_1
      (rounds (indication_1 ∷ []))
      (ready strict_ies node_1 (indication_1 ∷ []) true selecting empty)).0
    ≡ ready strict_ies node_1 [] true selecting
        (handle_all strict_ies node_1 (indication_1 ∷ []) empty)
run-rounds_example =
    run-rounds strict_ies node_1 (indication_1 ∷ []) true selecting empty (accepted_1, tt)

abbrev report_1 : Report ℕ
report_1 = record {
  key = generate_gnb_ue_id_string toy_ies 2;
  ue_id = 3;
  tgt_cell_id = cell_a;
  call_process_id = codes "7";
}

read_1 : read_indication toy_ies indication_1 ≡ ok report_1
unfolding read_indication tgt_cell_id
read_1 = refl

nothing_stored_1 : has_entry report_1.key empty.store ≡ false
unfolding has_entry lookup
nothing_stored_1 = refl

built_1 : control_call toy_ies toy_pdu node_1 (metric_value report_1 node_1) ≡ ok call_1
unfolding control_call create_rc_control_header create_rc_control_message metric_value
built_1 = refl

indication_completes_example :
    Serves toy_ies toy_pdu
      (node_1 ∷ [])
      indication_1
      report_1
      node_1
      empty
      call_1
      (run toy_ies node_1
        (sends indication_1 ∷ drains ∷ receives ∷ [])
        (start empty)).0.monitor.memory
indication_completes_example =
    indication_completes toy_ies toy_pdu (node_1 ∷ []) indication_1 report_1 node_1 empty call_1
      read_1 nothing_stored_1 (inl (refl, tt)) built_1
