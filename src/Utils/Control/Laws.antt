-- ===== src/Utils/Control/Laws.antt =====
-- pkg/utils/control/control.go against pkg/utils/ranparam/parser.go: the control message names the
-- target cell where the search for the cell's parameter finds it.
use onos_mho.Base.{
  some, ℕ, suc, ◌≡◌, refl, ◌∙◌, ap, ◌≢◌, Text, true, List, [], ◌∷◌, if_pos, if_neg, arith,
}
use onos_mho.Base.Result.{ok}
use onos_mho.Definition.{
  nrcgi_ran_parameter_id, nr_cell_ran_parameter_id, target_cell_ran_parameter_id,
  target_primary_cell_id_ran_parameter_id,
}
use onos_mho.Utils.Format.{ℤ, pos}
use onos_mho.Utils.Ies.{Ies, PduBuilder}
use onos_mho.Utils.Control.{create_rc_control_message}
use onos_mho.Utils.Control.Built.{Built, create_rc_control_message-Built}
use onos_mho.Utils.RanParam.{get_ran_parameter_value, find_in}

-- What the service model's library documents: the getters give back what the builders were given.
-- `items`, `item_type` and `item_id` are the getters of a control message and of its items.
pub record Getters (ies : Ies) (pdu : PduBuilder ies) : Type 0 where
  pub items : pdu.ControlMessage → List pdu.ControlItem
  pub item_type : pdu.ControlItem → ies.RanparameterValueType
  pub item_id : pdu.ControlItem → ℤ
  pub printable :
      (t : Text) (v : ies.RanparameterValue)
      → pdu.create_printable_string t ≡ ok v
      → ies.printable_string v ≡ t
  pub element :
      (v : ies.RanparameterValue) (vt : ies.RanparameterValueType)
      → pdu.create_choice_element_false v ≡ ok vt
      → ies.element_false vt ≡ v
  pub structure_item :
      (i : ℕ) (vt : ies.RanparameterValueType) (it : ies.RanparameterStructureItem)
      → pdu.create_structure_item i vt ≡ ok it
      → (ies.structure_item_id it ≡ some (pos i)) × (ies.structure_item_type it ≡ vt)
  pub structure :
      (its : List ies.RanparameterStructureItem) (st : pdu.Structure)
      (vt : ies.RanparameterValueType)
      → pdu.create_structure its ≡ ok st
      → pdu.create_choice_structure st ≡ ok vt
      → (ies.is_structure vt ≡ true) × (ies.sequence vt ≡ its)
  pub control_item :
      (i : ℕ) (vt : ies.RanparameterValueType) (it : pdu.ControlItem)
      → pdu.create_control_item i vt ≡ ok it
      → (item_id it ≡ pos i) × (item_type it ≡ vt)
  pub control_message :
      (its : List pdu.ControlItem) (m : pdu.ControlMessage)
      → pdu.create_control_message its ≡ ok m
      → items m ≡ its

module _ (ies : Ies) (id : ℤ) where
  -- A structure of one member is searched in that member.
  search_in :
      (fuel : ℕ) (vt : ies.RanparameterValueType) (it : ies.RanparameterStructureItem)
      {v : ies.RanparameterValue}
      → ies.is_structure vt ≡ true
      → ies.sequence vt ≡ it ∷ []
      → (j : ℤ) → ies.structure_item_id it ≡ some j
      → j ≢ id
      → get_ran_parameter_value ies fuel (ies.structure_item_type it) id ≡ ok v
      → get_ran_parameter_value ies (suc fuel) vt id ≡ ok v
  unfolding get_ran_parameter_value find_in
  search_in fuel vt it s e j has other found =
      rw (s, get_ran_parameter_value)
        (rw (e) (rw (has, find_in) (rw (if_neg _ other) (rw (found) refl))))

  search_here :
      (fuel : ℕ) (vt : ies.RanparameterValueType) (it : ies.RanparameterStructureItem)
      → ies.is_structure vt ≡ true
      → ies.sequence vt ≡ it ∷ []
      → ies.structure_item_id it ≡ some id
      → get_ran_parameter_value ies (suc fuel) vt id
        ≡ ok (ies.element_false (ies.structure_item_type it))
  unfolding get_ran_parameter_value find_in
  search_here fuel vt it s e same =
      rw (s, get_ran_parameter_value) (rw (e) (rw (same, find_in) (rw (if_pos _ refl) refl)))

target_differs : pos target_cell_ran_parameter_id ≢ pos nrcgi_ran_parameter_id
target_differs e = ground arith

nr_cell_differs : pos nr_cell_ran_parameter_id ≢ pos nrcgi_ran_parameter_id
nr_cell_differs e = ground arith

module _ (ies : Ies) (pdu : PduBuilder ies) (getters : Getters ies pdu) where
  -- What the getters of a structure with the one member `it` give.
  abbrev IsMember :
      ℕ
      → ies.RanparameterValueType
      → ies.RanparameterStructureItem
      → ies.RanparameterValueType
      → Type 0
  IsMember i vt it inner =
      (ies.is_structure vt ≡ true)
      × (ies.sequence vt ≡ it ∷ [])
      × (ies.structure_item_id it ≡ some (pos i))
      × (ies.structure_item_type it ≡ inner)

  built-IsMember :
      (i : ℕ) (inner vt : ies.RanparameterValueType) (it : ies.RanparameterStructureItem)
      (st : pdu.Structure)
      → pdu.create_structure_item i inner ≡ ok it
      → pdu.create_structure (it ∷ []) ≡ ok st
      → pdu.create_choice_structure st ≡ ok vt
      → IsMember i vt it inner
  built-IsMember i inner vt it st made grouped typed =
      let (is, seq) = getters.structure (it ∷ []) st vt grouped typed in
      let (id, type) = getters.structure_item i inner it made in (is, seq, id, type)

  IsMember-search :
      (fuel i : ℕ) (id : ℤ) (inner vt : ies.RanparameterValueType)
      (it : ies.RanparameterStructureItem) {v : ies.RanparameterValue}
      → IsMember i vt it inner
      → pos i ≢ id
      → get_ran_parameter_value ies fuel inner id ≡ ok v
      → get_ran_parameter_value ies (suc fuel) vt id ≡ ok v
  IsMember-search fuel i id inner vt it (is, seq, is_i, type) differs found =
      search_in ies id fuel vt it is seq (pos i) is_i differs
        (ap (λ t. get_ran_parameter_value ies fuel t id) type ∙ found)

  -- The bytes are those of a message in which the search finds the target cell.
  abbrev pub Names : Text → Text → Type 0
  Names tgt_cell_id bytes =
      (m : pdu.ControlMessage) × (item : pdu.ControlItem) × (v : ies.RanparameterValue)
      × (pdu.marshal_message m ≡ ok bytes)
      × (getters.items m ≡ item ∷ [])
      × (getters.item_id item ≡ pos target_primary_cell_id_ran_parameter_id)
      × (get_ran_parameter_value ies 3 (getters.item_type item) (pos nrcgi_ran_parameter_id) ≡ ok v)
      × (ies.printable_string v ≡ tgt_cell_id)

  Built-Names :
      (tgt_cell_id bytes : Text) → Built ies pdu tgt_cell_id bytes → Names tgt_cell_id bytes
  Built-Names tgt_cell_id bytes b =
      let (item_id, item_type) = getters.control_item _ b.target_primary_type b.item b.item_made in
      let (is, seq, id, type) =
        built-IsMember nrcgi_ran_parameter_id b.value b.nr_cell_type b.nrcgi b.nr_cell_structure
          b.nrcgi_made b.nr_cell_grouped b.nr_cell_typed in
      let nr_cell =
        built-IsMember nr_cell_ran_parameter_id b.nr_cell_type b.target_cell_type b.nr_cell
          b.target_cell_structure b.nr_cell_made b.target_cell_grouped b.target_cell_typed in
      let target_cell =
        built-IsMember target_cell_ran_parameter_id b.target_cell_type b.target_primary_type
          b.target_cell b.target_primary_structure b.target_cell_made b.target_primary_grouped
          b.target_primary_typed in
      let nrcgi = pos nrcgi_ran_parameter_id in
      let here : get_ran_parameter_value ies 1 b.nr_cell_type nrcgi ≡ ok b.print =
        search_here ies nrcgi 0 b.nr_cell_type b.nrcgi is seq id
        ∙ ap (λ t. ok (ies.element_false t)) type
        ∙ ap ok (getters.element b.print b.value b.chosen) in
      (
        b.message,
        b.item,
        b.print,
        b.marshalled,
        getters.control_message (b.item ∷ []) b.message b.message_made,
        item_id,
        ap (λ t. get_ran_parameter_value ies 3 t nrcgi) item_type
            ∙ IsMember-search 2 _ nrcgi b.target_cell_type b.target_primary_type b.target_cell
                target_cell target_differs
                (IsMember-search 1 _ nrcgi b.nr_cell_type b.target_cell_type b.nr_cell nr_cell
                  nr_cell_differs here),
        getters.printable tgt_cell_id b.print b.printed,
      )

  -- Where the getters give back what the builders were given: whenever `CreateRcControlMessage` gives
  -- bytes, they are those of a message with one item, the target primary cell id, in which the search
  -- for the NR CGI's parameter, on a fuel of three, finds a value, and that value is the target cell.
  pub get_ran_parameter_value-create_rc_control_message :
      (tgt_cell_id bytes : Text)
      → create_rc_control_message ies pdu tgt_cell_id ≡ ok bytes
      → Names tgt_cell_id bytes
  get_ran_parameter_value-create_rc_control_message tgt_cell_id bytes h =
      Built-Names tgt_cell_id bytes (create_rc_control_message-Built ies pdu tgt_cell_id bytes h)
