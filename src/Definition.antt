-- ===== src/Definition.antt =====
-- pkg/definition/def.go: the identifiers of the E2SM-RC parameters and styles.
use onos_mho.Base.{ℕ}

abbrev pub target_primary_cell_id_ran_parameter_id : ℕ
target_primary_cell_id_ran_parameter_id = 1

abbrev pub target_cell_ran_parameter_id : ℕ
target_cell_ran_parameter_id = 2

abbrev pub nr_cell_ran_parameter_id : ℕ
nr_cell_ran_parameter_id = 3

abbrev pub nrcgi_ran_parameter_id : ℕ
nrcgi_ran_parameter_id = 4

abbrev pub eutra_cell_ran_parameter_id : ℕ
eutra_cell_ran_parameter_id = 5

abbrev pub eutra_cgi_ran_parameter_id : ℕ
eutra_cgi_ran_parameter_id = 6

abbrev pub e2_event_trigger_condition_id : ℕ
e2_event_trigger_condition_id = 1

abbrev pub rrc_message_id_nr_ul_dcch_measurement_report : ℕ
rrc_message_id_nr_ul_dcch_measurement_report = 0

abbrev pub associated_ue_event_id : ℕ
associated_ue_event_id = 2

abbrev pub ric_insert_style_type_id : ℕ
ric_insert_style_type_id = 3

abbrev pub ric_insert_indication_id : ℕ
ric_insert_indication_id = 1

abbrev pub ric_action_id : ℕ
ric_action_id = 3

abbrev pub control_action_id : ℕ
control_action_id = 1

abbrev pub call_process_type_id_mobility_management : ℕ
call_process_type_id_mobility_management = 3

abbrev pub call_breakpoint_id_handover_preparation : ℕ
call_breakpoint_id_handover_preparation = 1
