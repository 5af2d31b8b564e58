-- ===== src/Tests/InOrder.antt =====
-- Four reports of two UEs, one after the other; and two handlers on their way.
use onos_mho.Base.{
  ◌++◌, ◌⊎◌, ℕ, Text, codes, List, [], ◌∷◌, ◌≡◌, refl, length, All, Text-discrete, inl, inr, arith,
}
use onos_mho.Base.Dict.{lookup, insert}
use onos_mho.Base.Result.{ok}
use onos_mho.Store.{new_store, has_entry}
use onos_mho.Memory.{Memory, events, signals}
use onos_mho.Monitor.{Report, Indication, read_indication, tgt_cell_id, metric_value}
use onos_mho.Southbound.Handover.{ControlCall, control_call}
use onos_mho.Utils.Id.{generate_gnb_ue_id_string}
use onos_mho.Utils.Control.{create_rc_control_header, create_rc_control_message}
use onos_mho.System.InOrder.{Reported, receive_indications}
use onos_mho.System.InOrder.Handling.{Once}
use onos_mho.System.InOrder.Delivery.{Served}
use onos_mho.System.InOrder.Spec.{Agrees, messages, events_of, cells_after}
use onos_mho.System.InOrder.Indications.{Reads, reports, receive_indications_lem}
use onos_mho.System.{Reach}
use onos_mho.System.InOrder.Rests.{at_rest}
use onos_mho.System.InOrder.Simulation.{run_with_messages}
use onos_mho.Tests.{toy_ies, toy_pdu, cell_a, cell_b, ue_1, ue_2, node_1, node_2}

abbrev to_cell : Text → ℕ → Text → Text → Reported ℕ
to_cell key ue_id cell node_id =
    (record { key = key; ue_id = ue_id; tgt_cell_id = cell; call_process_id = codes "7" }, node_id)

-- The second report repeats the first.
abbrev four_reports : List (Reported ℕ)
four_reports =
    to_cell ue_1 3 cell_a node_1
    ∷ to_cell ue_1 3 cell_a node_1
    ∷ to_cell ue_2 4 cell_a node_2
    ∷ to_cell ue_1 3 cell_b node_1
    ∷ []

abbrev toy_call : Reported ℕ → ControlCall
toy_call x = record {
  node_id = x.1;
  header = x.0.ue_id ∷ 3 ∷ 1 ∷ [];
  payload = codes "message";
  call_process_id = x.0.call_process_id;
}

abbrev both_nodes : List Text
both_nodes = node_1 ∷ node_2 ∷ []

abbrev empty : Memory ℕ ℕ ℕ
empty = record { metrics = []; store = new_store }

four_Served : All (λ x. Served toy_ies toy_pdu both_nodes x (toy_call x)) four_reports
unfolding control_call create_rc_control_header create_rc_control_message metric_value
four_Served =
    let first_node : Once node_1 both_nodes = inl (refl, (ground arith, tt)) in
    let second_node : Once node_2 both_nodes = inr (ground arith, inl (refl, tt)) in
    ((first_node, refl), ((first_node, refl), ((second_node, refl), ((first_node, refl), tt))))

empty-Agrees : Agrees [] empty
unfolding has_entry new_store lookup
empty-Agrees key = refl

abbrev to_indication : Text → Indication
to_indication cell = record { header = []; payload = cell; call_process_id = codes "7" }

abbrev three_indications : List (Indication × Text)
three_indications =
    (to_indication cell_a, node_1)
    ∷ (to_indication cell_a, node_1)
    ∷ (to_indication cell_b, node_1)
    ∷ []

-- What the decoders of the test make of an indication: UE 3, whose identity as a gNB's is 2.
abbrev toy_report : Indication → Report ℕ
toy_report i = record {
  key = generate_gnb_ue_id_string toy_ies 2;
  ue_id = 3;
  tgt_cell_id = i.payload;
  call_process_id = i.call_process_id;
}

three_Read : All (Reads toy_ies toy_report) three_indications
unfolding read_indication tgt_cell_id
three_Read = (refl, (refl, (refl, tt)))

three_Served :
    All
      (λ x. Served toy_ies toy_pdu both_nodes x (toy_call x))
      (reports toy_ies toy_report three_indications)
unfolding control_call create_rc_control_header create_rc_control_message metric_value
three_Served =
    let first_node : Once node_1 both_nodes = inl (refl, (ground arith, tt)) in
    ((first_node, refl), ((first_node, refl), ((first_node, refl), tt)))

receive_indications_lem_example :
    let sent = messages toy_call (reports toy_ies toy_report three_indications) [] in
    (m' : Memory ℕ ℕ ℕ) × (receive_indications toy_ies toy_pdu both_nodes three_indications
        (length (events empty))
        empty
      ≡ ok (length (events m'), m', sent))
    × (signals m' ≡ signals empty ++ events_of (reports toy_ies toy_report three_indications) [])
    × Agrees (cells_after (reports toy_ies toy_report three_indications) []) m'
receive_indications_lem_example =
    receive_indications_lem toy_ies toy_pdu both_nodes toy_report toy_call three_indications []
      empty three_Read three_Served empty-Agrees

-- The repeated report has no message.
three_messages :
    messages toy_call four_reports []
    ≡ toy_call (to_cell ue_1 3 cell_a node_1)
      ∷ toy_call (to_cell ue_2 4 cell_a node_2)
      ∷ toy_call (to_cell ue_1 3 cell_b node_1)
      ∷ []
unfolding Text-discrete lookup insert
three_messages = refl

abbrev Heard : Report ℕ → Text → Type 0
Heard r node_id = (node_id ≡ node_1) ⊎ (node_id ≡ node_2)

four-Heard : All (λ x. Heard x.0 x.1) four_reports
four-Heard = (inl refl, (inl refl, (inr refl, (inl refl, tt))))

run_with_messages_example :
    (m' : Memory ℕ ℕ ℕ) × Reach toy_ies toy_pdu Heard
      (at_rest m' (messages toy_call four_reports []))
    × Agrees (cells_after four_reports []) m'
run_with_messages_example =
    run_with_messages toy_ies toy_pdu Heard both_nodes toy_call four_reports four-Heard four_Served
