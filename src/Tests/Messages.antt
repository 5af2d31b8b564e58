-- ===== src/Tests/Messages.antt =====
-- A builder whose getters give back what it was given, and a control message that it builds.
use onos_mho.Base.{ℕ, ◌≡◌, refl, sym, ap, subst, Text, codes, true, List, [], ◌∷◌, some}
use onos_mho.Base.Result.{Result, ok, err, not_supported}
use onos_mho.Utils.Format.{ℤ, pos}
use onos_mho.Utils.Ies.{PduBuilder}
use onos_mho.Utils.Control.{create_rc_control_message}
use onos_mho.Utils.Control.Laws.{Getters, Names, get_ran_parameter_value-create_rc_control_message}
use onos_mho.Tests.{Tree, leaf, node, members, is_node, toy_ies, cell_a}

-- A structure has one member.
abbrev one_member : List (ℤ × Tree) → Result (ℤ × Tree)
one_member [] = err not_supported
one_member (i ∷ []) = ok i
one_member (i ∷ j ∷ is) = err not_supported

abbrev exact_pdu : PduBuilder toy_ies
exact_pdu = record {
  Structure = ℤ × Tree;
  ControlItem = ℕ × Tree;
  ControlMessage = List (ℕ × Tree);
  ControlHeader = Text;
  EventTrigger = Text;
  ActionDefinition = Text;
  create_printable_string = λ t. ok t;
  create_choice_element_false = λ t. ok (leaf t);
  create_structure_item = λ i t. ok (pos i, t);
  create_structure = one_member;
  create_choice_structure = λ s. ok (node s.0 s.1);
  create_control_item = λ i t. ok (i, t);
  create_control_message = λ is. ok is;
  validate_message = λ m. ok tt;
  marshal_message = λ m. ok (codes "message");
  create_control_header = λ u s a. ok (u ∷ s ∷ a ∷ []);
  validate_header = λ h. ok tt;
  marshal_header = λ h. ok h;
  create_event_trigger = λ c b. ok (c ∷ b ∷ []);
  validate_trigger = λ t. ok tt;
  marshal_trigger = λ t. ok t;
  create_action_definition = λ s i ps. ok (s ∷ i ∷ ps);
  validate_action = λ a. ok tt;
  marshal_action = λ a. ok a;
}

ok-injective : {A : Type 0} {a b : A} → Result.ok a ≡ ok b → a ≡ b
ok-injective e = cc

structure_of :
    (its : List (ℤ × Tree)) (st : ℤ × Tree) (vt : Tree)
    → one_member its ≡ ok st
    → Result.ok (node st.0 st.1) ≡ ok vt
    → (is_node vt ≡ true) × (members vt ≡ its)
structure_of [] st vt made typed = absurd (cc)
structure_of (i ∷ []) st vt made typed =
    subst (λ v. (is_node v ≡ true) × (members v ≡ i ∷ [])) (ok-injective typed)
      (refl, ap (λ j. j ∷ []) (sym (ok-injective made)))
structure_of (i ∷ j ∷ is) st vt made typed = absurd (cc)

exact_getters : Getters toy_ies exact_pdu
exact_getters = record {
  items = λ m. m;
  item_type = λ i. i.1;
  item_id = λ i. pos i.0;
  printable = λ t v e. sym (ok-injective e);
  element = λ v vt e. ap toy_ies.element_false (sym (ok-injective e));
  structure_item = λ i vt it e.
      (ap (λ x. some x.0) (sym (ok-injective e)), ap (λ x. x.1) (sym (ok-injective e)));
  structure = structure_of;
  control_item =
      λ i vt it e. (ap (λ x. pos x.0) (sym (ok-injective e)), ap (λ x. x.1) (sym (ok-injective e)));
  control_message = λ is m e. sym (ok-injective e);
}

built_message : create_rc_control_message toy_ies exact_pdu cell_a ≡ ok (codes "message")
unfolding create_rc_control_message
built_message = refl

get_ran_parameter_value-create_rc_control_message_example :
    Names toy_ies exact_pdu exact_getters cell_a (codes "message")
get_ran_parameter_value-create_rc_control_message_example =
    get_ran_parameter_value-create_rc_control_message toy_ies exact_pdu exact_getters cell_a
      (codes "message") built_message
