-- ===== src/System/Queries.antt =====
-- pkg/northbound/mho.go: the queries, asked while the handlers run.
use onos_mho.Base.{ℕ, ◌≡◌, refl, Text, List, [], ◌∷◌, All, Option-cases, some, inl, inr, arith}
use onos_mho.Base.Dict.{Dict, values}
use onos_mho.Base.Result.{ok}
use onos_mho.Store.{entries}
use onos_mho.Store.Types.{Entry, MetricValue, MhoState, mho_state_string}
use onos_mho.Memory.{Memory, deref}
use onos_mho.Monitor.{Report}
use onos_mho.Northbound.{Ue, Cell, read_entries, collect_ues, get_ues, get_cells}
use onos_mho.Northbound.Laws.{ues_in, num_in, get_cells_agrees}
use onos_mho.Utils.Format.{decimal_int}
use onos_mho.Utils.Ies.{Ies, PduBuilder}
use onos_mho.System.{System, Reach}
use onos_mho.System.Invariant.{IsLive, EntryOk, report_of}
use onos_mho.System.Invariant.Reach.{Reach-Inv}

module _ (ies : Ies) (Received : Report ies.Ueid → Text → Type 0) where
  -- The value was made from a report that was received.
  abbrev IsHeard : MetricValue ies.Ueid → Type 0
  IsHeard nv = (key : Text) × Received (report_of key nv) nv.e2_node_id × IsLive nv.state

  -- The UE is that of a received report, with the report's target cell.
  abbrev pub IsReported : Ue → Type 0
  IsReported u =
      (r : Report ies.Ueid) × (node_id : Text) × (g : ies.UeidGnb) × (state : MhoState) × Received r
        node_id
      × (ies.gnb_ueid r.ue_id ≡ some g)
      × (u.ue_id ≡ decimal_int (ies.amf_ue_ngap_id g))
      × (u.cgi ≡ r.tgt_cell_id)
      × (u.ho_state ≡ mho_state_string state)
      × IsLive state

  read_entries-IsHeard :
      {I C : Type 0} (m : Memory ies.Ueid I C) (records : Dict Text (Entry ℕ))
      → All (EntryOk ies Received m) records
      → (vs : List (MetricValue ies.Ueid)) × (read_entries (values records) m ≡ ok vs)
        × All IsHeard vs
  unfolding read_entries deref
  read_entries-IsHeard m [] h = ([], refl, tt)
  read_entries-IsHeard m ((key, e) ∷ records) (own, h) =
      let (nv, at, received, live) = own in
      let (vs, reads, heard) = read_entries-IsHeard m records h in
      (nv ∷ vs, ground (arith, at, reads), ((key, received, live), heard))

  collect_ues-IsReported :
      (vs : List (MetricValue ies.Ueid)) → All IsHeard vs → All IsReported (collect_ues ies vs)
  unfolding collect_ues
  collect_ues-IsReported [] h = tt
  collect_ues-IsReported (v ∷ vs) h = elim (Option-cases (ies.gnb_ueid v.raw_ue_id)) [
    | inl e ↦ rw (e, collect_ues) (collect_ues-IsReported vs h.1)
    | inr (g, e) ↦
        let (key, received, live) = h.0 in
        rw (e, collect_ues)
          (
            (report_of key v, v.e2_node_id, g, v.state, received, e, refl, refl, refl, live),
            collect_ues-IsReported vs h.1,
          )
  ]

module _ (ies : Ies) (pdu : PduBuilder ies) (Received : Report ies.Ueid → Text → Type 0)
    {I C : Type 0} {s : System ies.Ueid I C} (reach : Reach ies pdu Received s) where
  -- In whatever state the handlers have left the store, `GetUes` and `GetCells` answer without an error
  -- or a panic: each UE listed is that of a report that was received, with the report's target cell and
  -- with a state that is neither `Waiting` nor `Denied`; and the number of each cell is that of the UEs
  -- listed with it.
  pub queries_answer :
      (ues : List Ue) × (cells : List Cell) × (get_ues ies s.memory ≡ ok ues)
      × (get_cells ies s.memory ≡ ok cells)
      × All (IsReported ies Received) ues
      × ((cgi : Text) → num_in cgi cells ≡ ues_in cgi ues)
  unfolding get_ues entries
  queries_answer =
      let v = Reach-Inv ies pdu Received reach in
      let (vs, reads, heard) =
        read_entries-IsHeard ies Received s.memory s.memory.store.records v.records in
      let ues : List Ue = collect_ues ies vs in
      let answered : get_ues ies s.memory ≡ ok ues = ground (arith, reads) in
      let (cells, counted, _, same) = get_cells_agrees ies s.memory ues answered in
      (ues, cells, answered, counted, collect_ues-IsReported ies Received vs heard, same)
