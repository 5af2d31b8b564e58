-- ===== src/Rnib/Laws.antt =====
-- pkg/rnib/rnib.go: what the answers say.
use mathlib.Core.List.{Memᴰ}
use onos_mho.Base.{
  ◌≡◌, refl, ◌≢◌, ◌∙◌, ap, Text, Text-discrete, Bool, true, false, if◌then◌else◌, length, replicate,
  List, [], ◌∷◌, ◌++◌, append_assoc, append-nil, Bool-cases, inl, inr, arith, All, All-map, sym,
  subst,
}
use onos_mho.Base.Result.{Result, ok, Result-cases, and_then-Passes}
use onos_mho.Rnib.{
  Topo, get_e2_node_aspects, has_oid, has_rc_ran_function, append_ids, e2_node_ids, collect_cells,
  some_cells, get_cells,
}

module _ (topo : Topo) where
  open topo use {Object, E2Cell, ServiceModelInfo}

  has_oid_some :
      (oid : Text) (sms : List ServiceModelInfo)
      → has_oid topo oid sms ≡ true
      → (sm : ServiceModelInfo) × Memᴰ sm sms × (topo.oid sm ≡ oid)
  unfolding has_oid
  has_oid_some oid [] h = absurd (cc)
  has_oid_some oid (sm ∷ rest) h = elim (Text-discrete (topo.oid sm) oid) [
    | yes e ↦ (sm, Memᴰ.head refl, e)
    | no n ↦ let (t, m, e) = has_oid_some oid rest (ground arith) in (t, Memᴰ.tail m, e)
  ]

  mem_has_oid :
      (oid : Text) (sms : List ServiceModelInfo) (sm : ServiceModelInfo)
      → Memᴰ sm sms
      → topo.oid sm ≡ oid
      → has_oid topo oid sms ≡ true
  unfolding has_oid
  mem_has_oid oid [] sm m e = elim m [ ]
  mem_has_oid oid (t ∷ rest) sm (Memᴰ.head same) e = ground arith
  mem_has_oid oid (t ∷ rest) sm (Memᴰ.tail m) e = ground (arith, mem_has_oid oid rest sm m e)

  -- For a node whose aspects are found, `HasRcRANFunction` is true exactly if one of its service
  -- models has the identifier; for a node whose aspects are not found, it is false.
  pub has_rc_ran_function_lem :
      (node_id oid : Text) (node : topo.E2Node)
      → get_e2_node_aspects topo node_id ≡ ok node
      → (b : Bool) × (has_rc_ran_function topo node_id oid ≡ ok b)
        × (b ≡ true
            → (sm : ServiceModelInfo) × Memᴰ sm (topo.service_models node) × (topo.oid sm ≡ oid))
        × ((sm : ServiceModelInfo)
            → Memᴰ sm (topo.service_models node)
            → topo.oid sm ≡ oid
            → b ≡ true)
  unfolding has_rc_ran_function
  has_rc_ran_function_lem node_id oid node e = (
    has_oid topo oid (topo.service_models node),
    rw (e, has_rc_ran_function) refl,
    has_oid_some oid (topo.service_models node),
    mem_has_oid oid (topo.service_models node),
  )

  -- The specification of `E2NodeIDs`: the targets of the relations whose node has the identifier.
  abbrev pub matching : Text → List Object → Result (List Text)
  matching oid objects = append_ids topo oid objects []

  append_if :
      (b : Bool) (front ids : List Text) (id : Text)
      → (if b then (front ++ ids) ++ id ∷ [] else front ++ ids)
        ≡ front ++ (if b then ids ++ id ∷ [] else ids)
  append_if true front ids id = append_assoc front ids (id ∷ [])
  append_if false front ids id = refl

  append_ids-append :
      (oid : Text) (objects : List Object) (front ids found : List Text)
      → append_ids topo oid objects ids ≡ ok found
      → append_ids topo oid objects (front ++ ids) ≡ ok (front ++ found)
  unfolding append_ids
  append_ids-append oid [] front ids found h = ap ok (ap (λ t. front ++ t) (ground arith))
  append_ids-append oid (object ∷ rest) front ids found h =
      let chain_id = and_then-Passes _ (topo.tgt_entity_id object) h in
      let id = chain_id.value in
      let at = chain_id.returned in
      let h1 = chain_id.rest in
      let chain_b = and_then-Passes _ (has_rc_ran_function topo id oid) h1 in
      let b = chain_b.value in
      let has = chain_b.returned in
      let h2 = chain_b.rest in
      rw at (
        rw has (
          ap (append_ids topo oid rest) (append_if b front ids id)
          ∙ append_ids-append oid rest front (if b then ids ++ id ∷ [] else ids) found h2))

  -- `E2NodeIDs` puts one empty id in front for each relation, whether its node matches or not.
  e2_node_ids_lem :
      (oid : Text) (objects : List Object) (found : List Text)
      → topo.list_controls ≡ ok objects
      → matching oid objects ≡ ok found
      → e2_node_ids topo oid ≡ ok (replicate (length objects) [] ++ found)
  unfolding e2_node_ids
  e2_node_ids_lem oid objects found l m =
      rw (l, e2_node_ids)
        (ap (append_ids topo oid objects) (sym (append-nil (replicate (length objects) [])))
          ∙ append_ids-append oid objects (replicate (length objects) []) [] found m)

  -- The cell is the aspect of one of the objects, which is a cell.
  abbrev pub CellOf : List Object → E2Cell → Type 0
  CellOf objects cell =
      (object : Object) × Memᴰ object objects
      × (topo.is_e2_cell object ≡ true)
      × (topo.cell_aspect object ≡ ok cell)

  wider_CellOf :
      (object : Object) (rest : List Object) (cells : List E2Cell)
      → All (CellOf rest) cells
      → All (CellOf (object ∷ rest)) cells
  wider_CellOf object rest cells =
      All-map _ _ cells (λ cell c. let (o, m, is, at) = c in (o, Memᴰ.tail m, is, at))

  collect_cells-All :
      (objects : List Object) (cells : List E2Cell)
      → collect_cells topo objects ≡ ok cells
      → All (CellOf objects) cells
  unfolding collect_cells
  collect_cells-All [] cells h = let e : [] ≡ cells = ground arith in subst (All (CellOf [])) e tt
  collect_cells-All (object ∷ rest) cells h = elim (Result-cases (collect_cells topo rest)) [
    | inl (others, o) ↦
        let later = wider_CellOf object rest others (collect_cells-All rest others o) in
        elim (Bool-cases (topo.is_e2_cell object)) [
          | inr is_not ↦
              let e : others ≡ cells = ground (arith, o, is_not) in
              subst (All (CellOf (object ∷ rest))) e later
          | inl is ↦ elim (Result-cases (topo.cell_aspect object)) [
            | inl (cell, at) ↦
                let e : cell ∷ others ≡ cells = ground (arith, o, is, at) in
                subst (All (CellOf (object ∷ rest))) e ((object, Memᴰ.head refl, is, at), later)
            | inr (inl (x, at)) ↦
                let e : others ≡ cells = ground (arith, o, is, at) in
                subst (All (CellOf (object ∷ rest))) e later
            | inr (inr at) ↦ absurd (ground (arith, o, is, at))
          ]
        ]
    | inr (inl (x, o)) ↦ elim (Bool-cases (topo.is_e2_cell object)) [
      | inr is_not ↦ absurd (ground (arith, o, is_not))
      | inl is ↦ elim (Result-cases (topo.cell_aspect object)) [
        | inl (cell, at) ↦ absurd (ground (arith, o, is, at))
        | inr (inl (y, at)) ↦ absurd (ground (arith, o, is, at))
        | inr (inr at) ↦ absurd (ground (arith, o, is, at))
      ]
    ]
    | inr (inr o) ↦ elim (Bool-cases (topo.is_e2_cell object)) [
      | inr is_not ↦ absurd (ground (arith, o, is_not))
      | inl is ↦ elim (Result-cases (topo.cell_aspect object)) [
        | inl (cell, at) ↦ absurd (ground (arith, o, is, at))
        | inr (inl (y, at)) ↦ absurd (ground (arith, o, is, at))
        | inr (inr at) ↦ absurd (ground (arith, o, is, at))
      ]
    ]
  ]

  some_cells_ok :
      (found cells : List E2Cell)
      → some_cells topo found ≡ ok cells
      → (cells ≢ []) × (found ≡ cells)
  unfolding some_cells
  some_cells_ok [] cells h = absurd (cc)
  some_cells_ok (cell ∷ rest) cells h = ground arith

  -- `GetCells` never answers with an empty list, and each cell in its answer is read from an object
  -- that the node contains and that is a cell.
  get_cells_lem :
      (node_id : Text) (objects : List Object) (cells : List E2Cell)
      → topo.list_contained node_id ≡ ok objects
      → get_cells topo node_id ≡ ok cells
      → (cells ≢ []) × All (CellOf objects) cells
  unfolding get_cells
  get_cells_lem node_id objects cells l h =
      let chain_listed = and_then-Passes _ (topo.list_contained node_id) h in
      let listed = chain_listed.value in
      let l' = chain_listed.returned in
      let h1 = chain_listed.rest in
      let same_list : listed ≡ objects = ground arith in
      let chain_found = and_then-Passes _ (collect_cells topo listed) h1 in
      let found = chain_found.value in
      let collected = chain_found.returned in
      let h2 = chain_found.rest in
      let (any, same) = some_cells_ok found cells h2 in
      (
        any,
        subst (λ os. All (CellOf os) cells) same_list
            (collect_cells-All listed cells (collected ∙ ap ok same)),
      )
