-- ===== src/Northbound/Laws.antt =====
-- pkg/northbound/mho.go: the answers of the two queries, compared.
use onos_mho.Base.{
  ℕ, ◌+◌, ◌≡◌, refl, ◌∙◌, ap, sym, Text, Text-discrete, List, [], ◌∷◌, Option, none, some, All,
  All-map, ite, Option-cases, inl, inr, arith,
}
use onos_mho.Base.Dict.{Dict, lookup, lookup-insert, IsUnique, insert-IsUnique, All-lookup_self}
use onos_mho.Base.Result.{ok, Result-cases}
use onos_mho.Store.Types.{MetricValue}
use onos_mho.Store.{entries}
use onos_mho.Memory.{Memory}
use onos_mho.Utils.Ies.{Ies}
use onos_mho.Northbound.{
  Ue, Cell, read_entries, count_one, to_cells, collect_ues, count_ues, get_ues, get_cells,
}

-- The count of a cell, 0 where it has none.
abbrev count_of : Option ℕ → ℕ
count_of none = 0
count_of (some n) = n

abbrev tally : Text → Dict Text ℕ → ℕ
tally cgi d = count_of (lookup Text-discrete cgi d)

-- How many of the listed UEs have the cell for their target.
abbrev pub ues_in : Text → List Ue → ℕ
ues_in cgi [] = 0
ues_in cgi (u ∷ rest) = ite (Text-discrete u.cgi cgi) 1 0 + ues_in cgi rest

-- The number that the list of cells gives for a cell, 0 where it does not list it.
abbrev pub num_in : Text → List Cell → ℕ
num_in cgi [] = 0
num_in cgi (c ∷ rest) = let n = num_in cgi rest in ite (Text-discrete c.cgi cgi) c.num_ues n

tally-count_one :
    (cgi c : Text) (d : Dict Text ℕ)
    → tally c (count_one cgi d) ≡ ite (Text-discrete cgi c) 1 0 + tally c d
unfolding count_one
tally-count_one cgi c d = elim (Option-cases (lookup Text-discrete cgi d)) [
  | inl e ↦ rw (e, count_one) (ground (arith, e, lookup-insert Text-discrete cgi c 1 d))
  | inr (n, e) ↦ rw (e, count_one) (ground (arith, e, lookup-insert Text-discrete cgi c (n + 1) d))
]

count_one-IsUnique :
    (cgi : Text) (d : Dict Text ℕ)
    → IsUnique Text-discrete d
    → IsUnique Text-discrete (count_one cgi d)
unfolding count_one
count_one-IsUnique cgi d u = elim (Option-cases (lookup Text-discrete cgi d)) [
  | inl e ↦ rw (e, count_one) (insert-IsUnique Text-discrete cgi 1 d u)
  | inr (n, e) ↦ rw (e, count_one) (insert-IsUnique Text-discrete cgi (n + 1) d u)
]

num_in-to_cells : (cgi : Text) (d : Dict Text ℕ) → num_in cgi (to_cells d) ≡ tally cgi d
unfolding to_cells lookup
num_in-to_cells cgi [] = refl
num_in-to_cells cgi ((k, v) ∷ rest) = ground (arith, num_in-to_cells cgi rest)

All-to_cells :
    (P : Text → ℕ → Type 0) (d : Dict Text ℕ)
    → All (λ p. P p.0 p.1) d
    → All (λ c. P c.cgi c.num_ues) (to_cells d)
unfolding to_cells
All-to_cells P [] h = tt
All-to_cells P ((k, v) ∷ rest) h = (h.0, All-to_cells P rest h.1)

module _ (ies : Ies) where
  tally-count_ues :
      (vs : List (MetricValue ies.Ueid)) (c : Text) (d : Dict Text ℕ)
      → tally c (count_ues ies vs d) ≡ ues_in c (collect_ues ies vs) + tally c d
  unfolding count_ues collect_ues
  tally-count_ues [] c d = omega arith
  tally-count_ues (v ∷ vs) c d = elim (Option-cases (ies.gnb_ueid v.raw_ue_id)) [
    | inl e ↦ rw (e, count_ues, collect_ues) (tally-count_ues vs c d)
    | inr (u, e) ↦
        rw (e, count_ues, collect_ues)
          (omega (
            arith,
            tally-count_ues vs c (count_one v.tgt_cell_id d),
            tally-count_one v.tgt_cell_id c d,
          ))
  ]

  count_ues-IsUnique :
      (vs : List (MetricValue ies.Ueid)) (d : Dict Text ℕ)
      → IsUnique Text-discrete d
      → IsUnique Text-discrete (count_ues ies vs d)
  unfolding count_ues
  count_ues-IsUnique [] d u = u
  count_ues-IsUnique (v ∷ vs) d u = elim (Option-cases (ies.gnb_ueid v.raw_ue_id)) [
    | inl e ↦ rw (e, count_ues) (count_ues-IsUnique vs d u)
    | inr (_, e) ↦
        rw (e, count_ues) (count_ues-IsUnique vs _ (count_one-IsUnique v.tgt_cell_id d u))
  ]

  -- Whenever `GetUes` answers, so does `GetCells`; its number for a cell is the number of UEs in the
  -- answer of `GetUes` that have the cell for their target, for each cell that it lists and, counted
  -- as 0, for each that it does not list.
  pub get_cells_agrees :
      {I C : Type 0} (m : Memory ies.Ueid I C) (ues : List Ue)
      → get_ues ies m ≡ ok ues
      → (cells : List Cell) × (get_cells ies m ≡ ok cells)
        × All (λ c. c.num_ues ≡ ues_in c.cgi ues) cells
        × ((cgi : Text) → num_in cgi cells ≡ ues_in cgi ues)
  unfolding get_ues get_cells lookup
  get_cells_agrees m ues h = elim (Result-cases (read_entries (entries m.store) m)) [
    | inl (vs, e) ↦
        let d : Dict Text ℕ = count_ues ies vs [] in
        let same : collect_ues ies vs ≡ ues = ground (arith, e) in
        let counted : (cgi : Text) → tally cgi d ≡ ues_in cgi ues =
          λ cgi. omega (arith, tally-count_ues vs cgi [], ap (ues_in cgi) same) in
        let total : (cgi : Text) → num_in cgi (to_cells d) ≡ ues_in cgi ues =
          λ cgi. num_in-to_cells cgi d ∙ counted cgi in
        (
          to_cells d,
          ground (arith, e),
          All-to_cells (λ k n. n ≡ ues_in k ues) d
              (All-map _ _ d (λ p found. sym (ap count_of found) ∙ counted p.0)
                (All-lookup_self Text-discrete d (count_ues-IsUnique vs [] tt))),
          total,
        )
    | inr (inl (x, e)) ↦ absurd (ground (arith, e))
    | inr (inr e) ↦ absurd (ground (arith, e))
  ]
