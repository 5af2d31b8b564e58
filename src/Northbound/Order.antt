-- ===== src/Northbound/Order.antt =====
-- pkg/northbound/mho.go: what the order of the store's map, which Go leaves open, can change.
use mathlib.Core.List.{Permᴰ, filter_map}
use mathlib.Core.List.Permᴰ as Perm
use mathlib.Core.Option.{Option-elim}
use onos_mho.Base.{
  ℕ, ◌≡◌, refl, ◌∙◌, ap, sym, subst, Text, List, [], ◌∷◌, Option, none, some, Option-cases, inl,
  inr, arith,
}
use onos_mho.Base.Dict.{Dict, values}
use onos_mho.Base.Result.{ok, Result-cases}
use onos_mho.Store.Types.{MetricValue, Entry, mho_state_string}
use onos_mho.Store.{entries}
use onos_mho.Memory.{Memory, deref}
use onos_mho.Utils.Format.{decimal_int}
use onos_mho.Utils.Ies.{Ies}
use onos_mho.Northbound.{Ue, Cell, read_entries, collect_ues, get_ues, get_cells}
use onos_mho.Northbound.Laws.{ues_in, num_in, get_cells_agrees}

ues_in-Perm : (cgi : Text) {us vs : List Ue} → Permᴰ us vs → ues_in cgi us ≡ ues_in cgi vs
ues_in-Perm cgi Permᴰ.nil = refl
ues_in-Perm cgi (Permᴰ.cons e p) = rw (e, ues_in-Perm cgi p) refl
ues_in-Perm cgi (Permᴰ.swap {l = l} e f) = rw (e, f) (omega arith)
ues_in-Perm cgi (Permᴰ.trans p q) = ues_in-Perm cgi p ∙ ues_in-Perm cgi q

module _ {U I C : Type 0} (m : Memory U I C) where
  read_entries_of :
      (e : Entry ℕ) (es : List (Entry ℕ)) {v : MetricValue U} {vs : List (MetricValue U)}
      → deref e.value m ≡ ok v
      → read_entries es m ≡ ok vs
      → read_entries (e ∷ es) m ≡ ok (v ∷ vs)
  unfolding read_entries
  read_entries_of e es h k = ground (arith, h, k)

  read_entries_inv :
      (e : Entry ℕ) (es : List (Entry ℕ)) (vs : List (MetricValue U))
      → read_entries (e ∷ es) m ≡ ok vs
      → (v : MetricValue U) × (rest : List (MetricValue U)) × (deref e.value m ≡ ok v)
        × (read_entries es m ≡ ok rest)
        × (vs ≡ v ∷ rest)
  unfolding read_entries
  read_entries_inv e es vs h = elim (Result-cases (deref e.value m)) [
    | inl (v, d) ↦ elim (Result-cases (read_entries es m)) [
      | inl (rest, r) ↦ (v, rest, d, r, ground (arith, h, d, r))
      | inr (inl (x, r)) ↦ absurd (ground (arith, h, d, r))
      | inr (inr r) ↦ absurd (ground (arith, h, d, r))
    ]
    | inr (inl (x, d)) ↦ absurd (ground (arith, h, d))
    | inr (inr d) ↦ absurd (ground (arith, h, d))
  ]

  -- Entries that can be read can be read in each order, with the same values.
  read_entries-Perm :
      {es fs : List (Entry ℕ)}
      → Permᴰ es fs
      → (vs : List (MetricValue U)) → read_entries es m ≡ ok vs
      → (ws : List (MetricValue U)) × (read_entries fs m ≡ ok ws) × Permᴰ vs ws
  read_entries-Perm Permᴰ.nil vs h = (vs, h, Perm.refl vs)
  read_entries-Perm (Permᴰ.cons {a = a} {b = b} {l₁ = l} {l₂ = k} e p) vs h =
      let (v, rest, d, r, same) = read_entries_inv a l vs h in
      let (ws, r', q) = read_entries-Perm p rest r in
      (
        v ∷ ws,
        read_entries_of b k (ap (λ x. deref x.value m) (sym e) ∙ d) r',
        subst (λ x. Permᴰ x (v ∷ ws)) (sym same) (Permᴰ.cons refl q),
      )
  read_entries-Perm (Permᴰ.swap {a = a} {b = b} {a' = a'} {b' = b'} {l = l} e f) vs h =
      let (v, rest, d, r, same) = read_entries_inv a (b ∷ l) vs h in
      let (w, rest', d', r', same') = read_entries_inv b l rest r in
      (
        w ∷ v ∷ rest',
        read_entries_of a' (b' ∷ l) (ap (λ x. deref x.value m) (sym f) ∙ d')
            (read_entries_of b' l (ap (λ x. deref x.value m) (sym e) ∙ d) r'),
        subst (λ x. Permᴰ x (w ∷ v ∷ rest')) (sym (same ∙ ap (λ x. v ∷ x) same'))
            (Permᴰ.swap refl refl),
      )
  read_entries-Perm (Permᴰ.trans p q) vs h =
      let (ws, r, p') = read_entries-Perm p vs h in
      let (xs, r', q') = read_entries-Perm q ws r in (xs, r', Permᴰ.trans p' q')

module _ (ies : Ies) where
  -- The UE of a value, where it is a gNB's.
  ue_of : MetricValue ies.Ueid → Option Ue
  unfolding mho_state_string
  ue_of v = elim (ies.gnb_ueid v.raw_ue_id) [
    | none ↦ none
    | some ueid ↦ some (record {
      ue_id = decimal_int (ies.amf_ue_ngap_id ueid);
      ho_state = mho_state_string v.state;
      cgi = v.tgt_cell_id;
    })
  ]

  collect_ues-filter_map :
      (vs : List (MetricValue ies.Ueid)) → collect_ues ies vs ≡ filter_map ue_of vs
  unfolding collect_ues ue_of filter_map Option-elim
  collect_ues-filter_map [] = refl
  collect_ues-filter_map (v ∷ vs) = elim (Option-cases (ies.gnb_ueid v.raw_ue_id)) [
    | inl e ↦ rw (e, collect_ues, ue_of) (collect_ues-filter_map vs)
    | inr (u, e) ↦ rw (e, collect_ues, ue_of, collect_ues-filter_map vs) refl
  ]

  collect_ues-Perm :
      {vs ws : List (MetricValue ies.Ueid)}
      → Permᴰ vs ws
      → Permᴰ (collect_ues ies vs) (collect_ues ies ws)
  collect_ues-Perm {vs} {ws} p =
      rw (collect_ues-filter_map vs, collect_ues-filter_map ws) (Perm.filter_map ue_of p)

  -- The store's map in another order.
  abbrev pub reordered :
      {I C : Type 0} → Dict Text (Entry ℕ) → Memory ies.Ueid I C → Memory ies.Ueid I C
  reordered records m = record m { store = record m.store { records = records } }

  read_entries-reordered :
      {I C : Type 0} (m : Memory ies.Ueid I C) (records : Dict Text (Entry ℕ)) (es : List (Entry ℕ))
      → read_entries es (reordered records m) ≡ read_entries es m
  unfolding read_entries deref
  read_entries-reordered m records [] = refl
  read_entries-reordered m records (e ∷ es) = rw (read_entries-reordered m records es) refl

  -- Whenever `GetUes` answers with the store's map in one order, it answers with the map in any other,
  -- with the same UEs, each as often, in another order at most; and `GetCells` answers with both, with
  -- the same number for every cell.
  pub get_ues-Perm :
      {I C : Type 0} (m : Memory ies.Ueid I C) (records : Dict Text (Entry ℕ)) (ues : List Ue)
      → Permᴰ m.store.records records
      → get_ues ies m ≡ ok ues
      → let m' = reordered records m in
        (ues' : List Ue) × (get_ues ies m' ≡ ok ues')
        × Permᴰ ues ues'
        × ((cells : List Cell) × (cells' : List Cell) × (get_cells ies m ≡ ok cells)
            × (get_cells ies m' ≡ ok cells')
            × ((cgi : Text) → num_in cgi cells ≡ num_in cgi cells'))
  unfolding get_ues entries
  get_ues-Perm m records ues p h = elim (Result-cases (read_entries (entries m.store) m)) [
    | inl (vs, e) ↦
        let m' = reordered records m in
        let (ws, e', q) = read_entries-Perm m (Perm.map (λ x. x.1) p) vs e in
        let h' : get_ues ies m' ≡ ok (collect_ues ies ws) =
          rw (read_entries-reordered m records (values records), e') refl in
        let same : collect_ues ies vs ≡ ues = ground (arith, e, h) in
        let shuffled : Permᴰ ues (collect_ues ies ws) =
          subst (λ us. Permᴰ us (collect_ues ies ws)) same (collect_ues-Perm q) in
        let (cells, c, _, n) = get_cells_agrees ies m ues h in
        let (cells', c', _, n') = get_cells_agrees ies m' (collect_ues ies ws) h' in
        (
          collect_ues ies ws,
          h',
          shuffled,
          (cells, cells', c, c', λ cgi. n cgi ∙ ues_in-Perm cgi shuffled ∙ sym (n' cgi)),
        )
    | inr (inl (x, e)) ↦ absurd (ground (arith, e, h))
    | inr (inr e) ↦ absurd (ground (arith, e, h))
  ]
