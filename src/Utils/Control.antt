-- ===== src/Utils/Control.antt =====
-- pkg/utils/control/control.go: the header and the message of a handover control.
pub mod Built
pub mod Laws
use onos_mho.Base.{Text, [], ◌∷◌}
use onos_mho.Base.Result.{Result, ◌>>=◌, ◌>>◌}
use onos_mho.Definition.{
  ric_insert_style_type_id, control_action_id, nrcgi_ran_parameter_id, nr_cell_ran_parameter_id,
  target_cell_ran_parameter_id, target_primary_cell_id_ran_parameter_id,
}
use onos_mho.Utils.Ies.{Ies, PduBuilder}

module _ (ies : Ies) (pdu : PduBuilder ies) where
  open pdu use {
    create_printable_string, create_choice_element_false, create_structure_item, create_structure,
    create_choice_structure, create_control_item, create_control_message, validate_message,
    marshal_message, create_control_header, validate_header, marshal_header,
  }

  unfoldable pub create_rc_control_header : ies.Ueid → Result Text
  create_rc_control_header ue_id = do
    header ← create_control_header ue_id ric_insert_style_type_id control_action_id
    validate_header header
    marshal_header header

  unfoldable pub create_rc_control_message : Text → Result Text
  create_rc_control_message tgt_cell_id = do
    nrcgi_print ← create_printable_string tgt_cell_id
    nrcgi_value ← create_choice_element_false nrcgi_print
    nrcgi_item ← create_structure_item nrcgi_ran_parameter_id nrcgi_value
    nr_cell ← create_structure (nrcgi_item ∷ [])
    nr_cell_type ← create_choice_structure nr_cell
    nr_cell_item ← create_structure_item nr_cell_ran_parameter_id nr_cell_type
    target_cell ← create_structure (nr_cell_item ∷ [])
    target_cell_type ← create_choice_structure target_cell
    target_cell_item ← create_structure_item target_cell_ran_parameter_id target_cell_type
    target_primary_cell ← create_structure (target_cell_item ∷ [])
    target_primary_cell_type ← create_choice_structure target_primary_cell
    item ← create_control_item target_primary_cell_id_ran_parameter_id target_primary_cell_type
    message ← create_control_message (item ∷ [])
    validate_message message
    marshal_message message
