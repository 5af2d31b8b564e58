-- ===== src/Tests.antt =====
-- Small concrete messages, on which the theorems are applied.
mod Stores
mod Streams
mod Handlers
mod Systems
mod Topology
mod Loops
mod Setup
mod Races
mod Messages
mod InOrder
mod Answers
use onos_mho.Base.{
  ℕ, zero, suc, Text, codes, Bool, true, false, List, [], ◌∷◌, ◌++◌, Option, none, some, ◌≡◌, refl,
}
use onos_mho.Base.Result.{Result, ok}
use onos_mho.Utils.Format.{ℤ, pos}
use onos_mho.Utils.Ies.{Ies, PduBuilder}

-- A value of a RAN parameter: text, or a structure with one member.
pub data Tree : Type 0 where
  leaf : Text → Tree
  node : ℤ → Tree → Tree

abbrev pub members : Tree → List (ℤ × Tree)
members (leaf t) = []
members (node i t) = (i, t) ∷ []

abbrev pub is_node : Tree → Bool
is_node (leaf t) = false
is_node (node i t) = true

abbrev pub leaf_text : Tree → Text
leaf_text (leaf t) = t
leaf_text (node i t) = []

-- UE 0 is not a gNB's.
abbrev pub gnb_of : ℕ → Option ℕ
gnb_of zero = none
gnb_of (suc n) = some n

abbrev pub toy_ies : Ies
toy_ies = record {
  Ueid = ℕ;
  UeidGnb = ℕ;
  gnb_ueid = gnb_of;
  plmn_identity = λ n. 19 ∷ 1 ∷ 132 ∷ [];
  amf_region_id = λ n. 222 ∷ [];
  amf_set_id = λ n. 202 ∷ [];
  amf_pointer = λ n. 220 ∷ [];
  amf_ue_ngap_id = λ n. pos n;
  Header = ℕ;
  unmarshal_header = λ t. ok 3;
  header_ue_id = λ h. h;
  Message = Tree;
  unmarshal_message = λ t. ok (node (pos 2) (node (pos 3) (node (pos 4) (leaf t))));
  MessageItem = Tree;
  requested_list = λ t. t ∷ [];
  RanparameterValueType = Tree;
  RanparameterStructureItem = ℤ × Tree;
  RanparameterValue = Text;
  message_item_type = λ t. t;
  structure_item_type = λ i. i.1;
  structure_item_id = λ i. some i.0;
  is_structure = is_node;
  sequence = members;
  element_false = leaf_text;
  printable_string = λ t. t;
}

abbrev pub toy_pdu : PduBuilder toy_ies
toy_pdu = record {
  Structure = Tree;
  ControlItem = Tree;
  ControlMessage = List Tree;
  ControlHeader = Text;
  EventTrigger = Text;
  ActionDefinition = Text;
  create_printable_string = λ t. ok t;
  create_choice_element_false = λ t. ok (leaf t);
  create_structure_item = λ i t. ok (pos i, t);
  create_structure = λ is. ok (leaf []);
  create_choice_structure = λ t. ok t;
  create_control_item = λ i t. ok t;
  create_control_message = λ is. ok is;
  validate_message = λ m. ok tt;
  marshal_message = λ m. ok (codes "message");
  create_control_header = λ u s a. ok (u ∷ s ∷ a ∷ []);
  validate_header = λ h. ok tt;
  marshal_header = λ h. ok h;
  create_event_trigger = λ c b. ok (c ∷ b ∷ []);
  validate_trigger = λ t. ok tt;
  marshal_trigger = λ t. ok t;
  create_action_definition = λ s i ps. ok (s ∷ i ∷ ps);
  validate_action = λ a. ok tt;
  marshal_action = λ a. ok a;
}

abbrev pub cell_a : Text
cell_a = codes "cell_a"

abbrev pub cell_b : Text
cell_b = codes "cell_b"

abbrev pub ue_1 : Text
ue_1 = codes "ue_1"

abbrev pub ue_2 : Text
ue_2 = codes "ue_2"

abbrev pub node_1 : Text
node_1 = codes "node_1"

abbrev pub node_2 : Text
node_2 = codes "node_2"
