-- ===== src/Utils/Ies.antt =====
-- The messages of the E2SM-RC service model, which another module generates: their types, and the
-- nil-safe getters, decoders and builders that the program calls on them. All are parameters.
use onos_mho.Base.{ℕ, Text, Bool, List, Option}
use onos_mho.Base.Result.{Result}
use onos_mho.Utils.Format.{ℤ}

-- What the program reads. A Go pointer type is one type here, nil included; a getter that the program
-- compares with nil has an `Option`.
pub record Ies : Type 1 where
  pub Ueid : Type 0
  pub UeidGnb : Type 0
  -- `GetGNbUeid()`
  pub gnb_ueid : Ueid → Option UeidGnb
  -- `GetGuami().GetPLmnidentity().GetValue()` and the bytes of the three AMF bit strings.
  pub plmn_identity : UeidGnb → Text
  pub amf_region_id : UeidGnb → Text
  pub amf_set_id : UeidGnb → Text
  pub amf_pointer : UeidGnb → Text
  -- `GetAmfUeNgapId().GetValue()`
  pub amf_ue_ngap_id : UeidGnb → ℤ
  pub Header : Type 0
  pub unmarshal_header : Text → Result Header
  -- `GetRicIndicationHeaderFormats().GetIndicationHeaderFormat2().GetUeId()`
  pub header_ue_id : Header → Ueid
  pub Message : Type 0
  pub unmarshal_message : Text → Result Message
  pub MessageItem : Type 0
  -- `GetRicIndicationMessageFormats().GetIndicationMessageFormat5().GetRanPRequestedList()`
  pub requested_list : Message → List MessageItem
  pub RanparameterValueType : Type 0
  pub RanparameterStructureItem : Type 0
  pub RanparameterValue : Type 0
  -- `GetRanParameterValueType()` of either kind of item.
  pub message_item_type : MessageItem → RanparameterValueType
  pub structure_item_type : RanparameterStructureItem → RanparameterValueType
  -- `RanParameterId`, which is read without a getter: nil is `none`.
  pub structure_item_id : RanparameterStructureItem → Option ℤ
  -- `GetRanPChoiceStructure() != nil`
  pub is_structure : RanparameterValueType → Bool
  -- `GetRanPChoiceStructure().GetRanParameterStructure().GetSequenceOfRanParameters()`
  pub sequence : RanparameterValueType → List RanparameterStructureItem
  -- `GetRanPChoiceElementFalse().GetRanParameterValue()`
  pub element_false : RanparameterValueType → RanparameterValue
  -- `GetValuePrintableString()`
  pub printable_string : RanparameterValue → Text

-- What the program builds: `pdubuilder`, `Validate` and `proto.Marshal`.
pub record PduBuilder (ies : Ies) : Type 1 where
  pub Structure : Type 0
  pub ControlItem : Type 0
  pub ControlMessage : Type 0
  pub ControlHeader : Type 0
  pub EventTrigger : Type 0
  pub ActionDefinition : Type 0
  pub create_printable_string : Text → Result ies.RanparameterValue
  pub create_choice_element_false : ies.RanparameterValue → Result ies.RanparameterValueType
  pub create_structure_item : ℕ → ies.RanparameterValueType → Result ies.RanparameterStructureItem
  pub create_structure : List ies.RanparameterStructureItem → Result Structure
  pub create_choice_structure : Structure → Result ies.RanparameterValueType
  pub create_control_item : ℕ → ies.RanparameterValueType → Result ControlItem
  pub create_control_message : List ControlItem → Result ControlMessage
  pub validate_message : ControlMessage → Result (Unit {0})
  pub marshal_message : ControlMessage → Result Text
  pub create_control_header : ies.Ueid → ℕ → ℕ → Result ControlHeader
  pub validate_header : ControlHeader → Result (Unit {0})
  pub marshal_header : ControlHeader → Result Text
  pub create_event_trigger : ℕ → ℕ → Result EventTrigger
  pub validate_trigger : EventTrigger → Result (Unit {0})
  pub marshal_trigger : EventTrigger → Result Text
  pub create_action_definition : ℕ → ℕ → List ℕ → Result ActionDefinition
  pub validate_action : ActionDefinition → Result (Unit {0})
  pub marshal_action : ActionDefinition → Result Text
