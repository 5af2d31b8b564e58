-- ===== src/Utils/Control/Built.antt =====
-- pkg/utils/control/control.go: what `CreateRcControlMessage` has built when it succeeds.
use onos_mho.Base.{◌≡◌, Text, [], ◌∷◌}
use onos_mho.Base.Result.{ok, and_then-Passes}
use onos_mho.Definition.{
  nrcgi_ran_parameter_id, nr_cell_ran_parameter_id, target_cell_ran_parameter_id,
  target_primary_cell_id_ran_parameter_id,
}
use onos_mho.Utils.Ies.{Ies, PduBuilder}
use onos_mho.Utils.Control.{create_rc_control_message}

module _ (ies : Ies) (pdu : PduBuilder ies) where
  -- The values that the builders gave on the way to the bytes.
  pub record Built (tgt_cell_id bytes : Text) : Type 0 where
    pub print : ies.RanparameterValue
    pub value : ies.RanparameterValueType
    pub nrcgi : ies.RanparameterStructureItem
    pub nr_cell : ies.RanparameterStructureItem
    pub target_cell : ies.RanparameterStructureItem
    pub nr_cell_structure : pdu.Structure
    pub target_cell_structure : pdu.Structure
    pub target_primary_structure : pdu.Structure
    pub nr_cell_type : ies.RanparameterValueType
    pub target_cell_type : ies.RanparameterValueType
    pub target_primary_type : ies.RanparameterValueType
    pub item : pdu.ControlItem
    pub message : pdu.ControlMessage
    pub printed : pdu.create_printable_string tgt_cell_id ≡ ok print
    pub chosen : pdu.create_choice_element_false print ≡ ok value
    pub nrcgi_made : pdu.create_structure_item nrcgi_ran_parameter_id value ≡ ok nrcgi
    pub nr_cell_grouped : pdu.create_structure (nrcgi ∷ []) ≡ ok nr_cell_structure
    pub nr_cell_typed : pdu.create_choice_structure nr_cell_structure ≡ ok nr_cell_type
    pub nr_cell_made : pdu.create_structure_item nr_cell_ran_parameter_id nr_cell_type ≡ ok nr_cell
    pub target_cell_grouped : pdu.create_structure (nr_cell ∷ []) ≡ ok target_cell_structure
    pub target_cell_typed : pdu.create_choice_structure target_cell_structure ≡ ok target_cell_type
    pub target_cell_made :
        pdu.create_structure_item target_cell_ran_parameter_id target_cell_type ≡ ok target_cell
    pub target_primary_grouped :
        pdu.create_structure (target_cell ∷ []) ≡ ok target_primary_structure
    pub target_primary_typed :
        pdu.create_choice_structure target_primary_structure ≡ ok target_primary_type
    pub item_made :
        pdu.create_control_item target_primary_cell_id_ran_parameter_id target_primary_type
        ≡ ok item
    pub message_made : pdu.create_control_message (item ∷ []) ≡ ok message
    pub marshalled : pdu.marshal_message message ≡ ok bytes

  pub create_rc_control_message-Built :
      (tgt_cell_id bytes : Text)
      → create_rc_control_message ies pdu tgt_cell_id ≡ ok bytes
      → Built tgt_cell_id bytes
  unfolding create_rc_control_message
  create_rc_control_message-Built tgt_cell_id bytes h =
      let s1 = and_then-Passes _ (pdu.create_printable_string tgt_cell_id) h in
      let s2 = and_then-Passes _ (pdu.create_choice_element_false s1.value) s1.rest in
      let s3 =
        and_then-Passes _ (pdu.create_structure_item nrcgi_ran_parameter_id s2.value) s2.rest in
      let s4 = and_then-Passes _ (pdu.create_structure (s3.value ∷ [])) s3.rest in
      let s5 = and_then-Passes _ (pdu.create_choice_structure s4.value) s4.rest in
      let s6 =
        and_then-Passes _ (pdu.create_structure_item nr_cell_ran_parameter_id s5.value) s5.rest in
      let s7 = and_then-Passes _ (pdu.create_structure (s6.value ∷ [])) s6.rest in
      let s8 = and_then-Passes _ (pdu.create_choice_structure s7.value) s7.rest in
      let s9 =
        and_then-Passes _ (pdu.create_structure_item target_cell_ran_parameter_id s8.value)
          s8.rest in
      let s10 = and_then-Passes _ (pdu.create_structure (s9.value ∷ [])) s9.rest in
      let s11 = and_then-Passes _ (pdu.create_choice_structure s10.value) s10.rest in
      let s12 =
        and_then-Passes _
          (pdu.create_control_item target_primary_cell_id_ran_parameter_id s11.value) s11.rest in
      let s13 = and_then-Passes _ (pdu.create_control_message (s12.value ∷ [])) s12.rest in
      let s14 = and_then-Passes _ (pdu.validate_message s13.value) s13.rest in
      record {
        print = s1.value;
        value = s2.value;
        nrcgi = s3.value;
        nr_cell = s6.value;
        target_cell = s9.value;
        nr_cell_structure = s4.value;
        target_cell_structure = s7.value;
        target_primary_structure = s10.value;
        nr_cell_type = s5.value;
        target_cell_type = s8.value;
        target_primary_type = s11.value;
        item = s12.value;
        message = s13.value;
        printed = s1.returned;
        chosen = s2.returned;
        nrcgi_made = s3.returned;
        nr_cell_grouped = s4.returned;
        nr_cell_typed = s5.returned;
        nr_cell_made = s6.returned;
        target_cell_grouped = s7.returned;
        target_cell_typed = s8.returned;
        target_cell_made = s9.returned;
        target_primary_grouped = s10.returned;
        target_primary_typed = s11.returned;
        item_made = s12.returned;
        message_made = s13.returned;
        marshalled = s14.rest;
      }
