-- ===== src/Utils/RanParam/Laws.antt =====
-- pkg/utils/ranparam/parser.go: the answer of the search, against where a parameter occurs.
use mathlib.Core.List.{Memᴰ}
use onos_mho.Base.{
  ℕ, zero, suc, ◌<◌, ◌≡◌, refl, sym, ap, ◌∙◌, ◌≢◌, subst, ◌⊎◌, inl, inr, if_pos, if_neg, List, [],
  ◌∷◌, All, All-map, true, false, Bool-cases, arith, Option, none, some, Option-cases,
}
use onos_mho.Base.Result.{Result, ok, err, panic, not_found}
use onos_mho.Utils.Format.{ℤ, ℤ-discrete}
use onos_mho.Utils.Ies.{Ies}
use onos_mho.Utils.RanParam.{find_in, get_ran_parameter_value}

module _ (ies : Ies) (ran_param_id : ℤ) where
  open ies use {
    RanparameterValueType, RanparameterStructureItem, RanparameterValue, is_structure, sequence,
    structure_item_id, structure_item_type, element_false,
  }

  -- The structure holds an item with the id, at whatever depth, and `v` is its value.
  pub data Occurs : RanparameterValueType → RanparameterValue → Type 0 where
    at_top :
        {t : RanparameterValueType} (i : RanparameterStructureItem)
        → is_structure t ≡ true
        → Memᴰ i (sequence t)
        → structure_item_id i ≡ some ran_param_id
        → Occurs t (element_false (structure_item_type i))
    inside :
        {t : RanparameterValueType} {v : RanparameterValue} (i : RanparameterStructureItem)
        → is_structure t ≡ true
        → Memᴰ i (sequence t)
        → Occurs (structure_item_type i) v
        → Occurs t v

  -- The structure holds an item without an identifier, at whatever depth.
  pub data HasNil : RanparameterValueType → Type 0 where
    nil_at_top :
        {t : RanparameterValueType} (i : RanparameterStructureItem)
        → is_structure t ≡ true
        → Memᴰ i (sequence t)
        → structure_item_id i ≡ none
        → HasNil t
    nil_inside :
        {t : RanparameterValueType} (i : RanparameterStructureItem)
        → is_structure t ≡ true
        → Memᴰ i (sequence t)
        → HasNil (structure_item_type i)
        → HasNil t

  -- One of the items has no identifier, or holds one that has none.
  HasNilIn : List RanparameterStructureItem → Type 0
  HasNilIn items =
      (i : RanparameterStructureItem) × Memᴰ i items
      × ((structure_item_id i ≡ none) ⊎ HasNil (structure_item_type i))

  -- One of the items is it, or holds it.
  OccursIn : List RanparameterStructureItem → RanparameterValue → Type 0
  OccursIn items v =
      (i : RanparameterStructureItem) × Memᴰ i items
      × (((structure_item_id i ≡ some ran_param_id) × (element_false (structure_item_type i) ≡ v))
          ⊎ Occurs (structure_item_type i) v)

  -- The answer is NotFound, and nothing occurs and nothing is nil, or it is a value that occurs, or a
  -- panic where something is nil.
  abbrev pub Decides : Result RanparameterValue → (RanparameterValue → Type 0) → Type 0 → Type 0
  Decides r P N =
      ((r ≡ err not_found) × ((v : RanparameterValue) → ¬ P v) × (¬ N))
      ⊎ (((v : RanparameterValue) × (r ≡ ok v) × P v) ⊎ ((r ≡ panic) × N))

  OccursIn-rest :
      (i : RanparameterStructureItem) (rest : List RanparameterStructureItem)
      (v : RanparameterValue)
      → structure_item_id i ≢ some ran_param_id
      → ¬ Occurs (structure_item_type i) v
      → OccursIn (i ∷ rest) v
      → OccursIn rest v
  unfolding OccursIn
  OccursIn-rest i rest v differs none_in (j, Memᴰ.tail m, o) = (j, m, o)
  OccursIn-rest i rest v differs none_in (j, Memᴰ.head e, inl (same, _)) =
      absurd (differs (ap structure_item_id (sym e) ∙ same))
  OccursIn-rest i rest v differs none_in (j, Memᴰ.head e, inr o) =
      absurd (none_in (subst (λ k. Occurs (structure_item_type k) v) e o))

  HasNilIn-rest :
      (i : RanparameterStructureItem) (rest : List RanparameterStructureItem) {id : ℤ}
      → structure_item_id i ≡ some id
      → ¬ HasNil (structure_item_type i)
      → HasNilIn (i ∷ rest)
      → HasNilIn rest
  unfolding HasNilIn
  HasNilIn-rest i rest e no_nil (j, Memᴰ.tail m, o) = (j, m, o)
  HasNilIn-rest i rest e no_nil (j, Memᴰ.head same, inl nil) =
      absurd (some≢none (sym e ∙ ap structure_item_id (sym same) ∙ nil))
    where
      some≢none : {A : Type 0} {a : A} → Option.some a ≢ none
      some≢none e = cc
  HasNilIn-rest i rest e no_nil (j, Memᴰ.head same, inr o) =
      absurd (no_nil (subst (λ k. HasNil (structure_item_type k)) same o))

  find_in-Decides :
      (inner : RanparameterValueType → Result RanparameterValue)
      (items : List RanparameterStructureItem)
      → All
          (λ i.
            Decides
              (inner (structure_item_type i))
              (Occurs (structure_item_type i))
              (HasNil (structure_item_type i)))
          items
      → Decides (find_in ies inner ran_param_id items) (OccursIn items) (HasNilIn items)
  unfolding find_in OccursIn HasNilIn
  find_in-Decides inner [] h =
      inl (refl, (λ v o. let (i, m, _) = o in elim m [ ]), λ o. let (i, m, _) = o in elim m [ ])
  find_in-Decides inner (i ∷ rest) h = elim (Option-cases (structure_item_id i)) [
    | inl nil ↦ inr (inr (rw (nil, find_in) refl, (i, Memᴰ.head refl, inl nil)))
    | inr (id, has) ↦ elim (ℤ-discrete id ran_param_id) [
      | yes same ↦ inr (
          inl (
            _,
            rw (has, find_in) (if_pos (ℤ-discrete id ran_param_id) same _ _),
            (i, Memᴰ.head refl, inl (has ∙ ap some same, refl)),
          ))
      | no differs ↦ elim h.0 [
        | inr (inl (v, e, o)) ↦ inr (
            inl (
              v,
              rw (has, find_in) (rw (if_neg _ differs) (rw e refl)),
              (i, Memᴰ.head refl, inr o),
            ))
        | inr (inr (e, o)) ↦ inr (
            inr (rw (has, find_in) (rw (if_neg _ differs) (rw e refl)), (i, Memᴰ.head refl, inr o)))
        | inl (e, none_in, no_nil) ↦ elim (find_in-Decides inner rest h.1) [
          | inr (inl (v, e', (j, m, o))) ↦
              inr
                (inl (v, rw (has, find_in) (rw (if_neg _ differs) (rw e e')), (j, Memᴰ.tail m, o)))
          | inr (inr (e', (j, m, o))) ↦
              inr (inr (rw (has, find_in) (rw (if_neg _ differs) (rw e e')), (j, Memᴰ.tail m, o)))
          | inl (e', none_later, no_nil_later) ↦ inl (
            rw (has, find_in) (rw (if_neg _ differs) (rw e e')),
            (λ v o. none_later v (OccursIn-rest i rest v (other has differs) (none_in v) o)),
            λ o. no_nil_later (HasNilIn-rest i rest has no_nil o),
          )
        ]
      ]
    ]
  ]
    where
      some-injective : {a b : ℤ} → Option.some a ≡ some b → a ≡ b
      some-injective e = cc

      other :
          {i : RanparameterStructureItem} {id : ℤ}
          → structure_item_id i ≡ some id
          → id ≢ ran_param_id
          → structure_item_id i ≢ some ran_param_id
      other has differs same = differs (some-injective (sym has ∙ same))

  Occurs-OccursIn :
      (t : RanparameterValueType) (v : RanparameterValue) → Occurs t v → OccursIn (sequence t) v
  unfolding OccursIn
  Occurs-OccursIn t v (at_top i is m same) = (i, m, inl (same, refl))
  Occurs-OccursIn t v (inside i is m o) = (i, m, inr o)

  OccursIn-Occurs :
      (t : RanparameterValueType) (v : RanparameterValue)
      → is_structure t ≡ true
      → OccursIn (sequence t) v
      → Occurs t v
  unfolding OccursIn
  OccursIn-Occurs t v is (i, m, inl (same, e)) = subst (Occurs t) e (at_top i is m same)
  OccursIn-Occurs t v is (i, m, inr o) = inside i is m o

  HasNil-HasNilIn : (t : RanparameterValueType) → HasNil t → HasNilIn (sequence t)
  unfolding HasNilIn
  HasNil-HasNilIn t (nil_at_top i is m nil) = (i, m, inl nil)
  HasNil-HasNilIn t (nil_inside i is m o) = (i, m, inr o)

  HasNilIn-HasNil :
      (t : RanparameterValueType) → is_structure t ≡ true → HasNilIn (sequence t) → HasNil t
  unfolding HasNilIn
  HasNilIn-HasNil t is (i, m, inl nil) = nil_at_top i is m nil
  HasNilIn-HasNil t is (i, m, inr o) = nil_inside i is m o

  HasNil-is_structure : (t : RanparameterValueType) → HasNil t → is_structure t ≡ true
  HasNil-is_structure t (nil_at_top i is m nil) = is
  HasNil-is_structure t (nil_inside i is m o) = is

  Occurs-is_structure :
      (t : RanparameterValueType) (v : RanparameterValue) → Occurs t v → is_structure t ≡ true
  Occurs-is_structure t v (at_top i is m same) = is
  Occurs-is_structure t v (inside i is m o) = is

module _ (ies : Ies) (ran_param_id : ℤ) (rank : ies.RanparameterValueType → ℕ)
    (ranked : (t : ies.RanparameterValueType)
      → ies.is_structure t ≡ true
      → All (λ i. rank (ies.structure_item_type i) < rank t) (ies.sequence t)) where
  -- A message is finite, so the depth of a structure bounds those of its members: `rank`. With fuel
  -- above it the search ends, never by an overflow. It answers NotFound if no member at any depth has
  -- the id and each has an identifier, or a value that a member with the id has; otherwise it panics,
  -- and only if the identifier of some member, at some depth, is nil.
  pub get_ran_parameter_value-Decides :
      (fuel : ℕ) (t : ies.RanparameterValueType)
      → rank t < fuel
      → Decides ies ran_param_id
          (get_ran_parameter_value ies fuel t ran_param_id)
          (Occurs ies ran_param_id t)
          (HasNil ies ran_param_id t)
  unfolding get_ran_parameter_value
  get_ran_parameter_value-Decides zero t h = absurd (omega arith)
  get_ran_parameter_value-Decides (suc fuel) t h = elim (Bool-cases (ies.is_structure t)) [
    | inr e ↦ inl (
      rw e refl,
      (λ v o. absurd (true≢false (sym (Occurs-is_structure ies ran_param_id t v o) ∙ e))),
      λ o. absurd (true≢false (sym (HasNil-is_structure ies ran_param_id t o) ∙ e)),
    )
    | inl is ↦
        let inner =
          λ (u : ies.RanparameterValueType). get_ran_parameter_value ies fuel u ran_param_id in
        let below =
          All-map (λ i. rank (ies.structure_item_type i) < rank t)
            (λ i.
              Decides ies ran_param_id (inner (ies.structure_item_type i))
                (Occurs ies ran_param_id (ies.structure_item_type i))
                (HasNil ies ran_param_id (ies.structure_item_type i)))
            (ies.sequence t)
            (λ i lt. get_ran_parameter_value-Decides fuel (ies.structure_item_type i) (omega arith))
            (ranked t is) in
        elim (find_in-Decides ies ran_param_id inner (ies.sequence t) below) [
          | inl (e, none_in, no_nil) ↦ inl (
            rw is e,
            (λ v o. none_in v (Occurs-OccursIn ies ran_param_id t v o)),
            λ o. no_nil (HasNil-HasNilIn ies ran_param_id t o),
          )
          | inr (inl (v, e, o)) ↦ inr (inl (v, rw is e, OccursIn-Occurs ies ran_param_id t v is o))
          | inr (inr (e, o)) ↦ inr (inr (rw is e, HasNilIn-HasNil ies ran_param_id t is o))
        ]
  ]
    where
      true≢false : true ≢ false
      true≢false e = cc
