-- ===== src/System/Invariant.antt =====
-- What holds of the running system whatever the order of its steps.
pub mod Steps
pub mod Reach
pub mod Safety
use mathlib.Core.List.{Memᴰ}
use onos_mho.Base.{
  ℕ, ◌≡◌, refl, sym, ap, ◌∙◌, subst, ◌≢◌, Text, Text-discrete, ℕ_discrete, length, get_elem?, set,
  get_elem?-append_some, get_elem?-append_length, get_elem?-set_ne, get_elem?-set_self, List, [],
  ◌∷◌, ◌++◌, All, All-append, All-map, All-get_elem?, All-set, Option-cases, inl, inr, some, none,
  arith,
}
use onos_mho.Store.Types.{
  MetricValue, Event, Entry, MhoState, waiting, denied, approved, done, state_created,
}
use onos_mho.Memory.{Memory, events, set_state}
use onos_mho.Base.Result.{ok}
use onos_mho.Utils.Ies.{Ies, PduBuilder}
use onos_mho.Monitor.{Report, Plan, insert, leave, again, metric_value}
use onos_mho.Southbound.Handover.{ControlCall, control_call}
use onos_mho.System.{System, Task, reporting, approving, finishing, publishing, controlling}

-- A state that the program itself gives to a value.
abbrev pub IsLive : MhoState → Type 0
IsLive s = (s ≢ waiting) × (s ≢ denied)

-- The report from which a value under a key was made.
abbrev pub report_of : {U : Type 0} → Text → MetricValue U → Report U
report_of key nv = record {
  key = key;
  ue_id = nv.raw_ue_id;
  tgt_cell_id = nv.tgt_cell_id;
  call_process_id = nv.call_process_id;
}

module _ {U I C : Type 0} where
  -- Every value stays where it is and keeps all but its state.
  abbrev pub Extends : Memory U I C → Memory U I C → Type 0
  Extends m m' =
      (p : ℕ) (nv : MetricValue U)
      → get_elem? m.metrics p ≡ some nv
      → (nv' : MetricValue U) × (get_elem? m'.metrics p ≡ some nv')
        × (record nv' { state = nv.state } ≡ nv)
        × (IsLive nv.state → IsLive nv'.state)

  pub alloc-Extends :
      (m m' : Memory U I C) (value : MetricValue U)
      → m'.metrics ≡ m.metrics ++ value ∷ []
      → Extends m m'
  alloc-Extends m m' value e p nv at =
      (nv, rw e (get_elem?-append_some m.metrics _ p at), refl, λ live. live)

  pub same-Extends : (m m' : Memory U I C) → m'.metrics ≡ m.metrics → Extends m m'
  same-Extends m m' e p nv at = (nv, rw e at, refl, λ live. live)

  pub set_state-Extends :
      (p : ℕ) (state : MhoState) (m : Memory U I C) → IsLive state → Extends m (set_state p state m)
  unfolding set_state
  set_state-Extends p state m live q nv at = elim (ℕ_discrete p q) [
    | yes e ↦
        let at' : get_elem? m.metrics p ≡ some nv =
          subst (λ i. get_elem? m.metrics i ≡ some nv) (sym e) at in
        (
          record nv { state = state },
          rw (at', set_state)
              (subst
                (λ i.
                  get_elem? (set m.metrics p (record nv { state = state })) i
                  ≡ some (record nv { state = state }))
                e (get_elem?-set_self m.metrics p _ at')),
          refl,
          λ _. live,
        )
    | no n ↦ elim (Option-cases (get_elem? m.metrics p)) [
      | inl e ↦ (nv, rw (e, set_state) at, refl, λ l. l)
      | inr (mv, e) ↦
          (nv, rw (e, set_state) (get_elem?-set_ne m.metrics p q _ n ∙ at), refl, λ l. l)
    ]
  ]

module _ (ies : Ies) (Received : Report ies.Ueid → Text → Type 0) {I C : Type 0} where
  -- The pointer leads to a value that was made from a report that was received for this key.
  abbrev pub Owned : Memory ies.Ueid I C → Text → ℕ → Type 0
  Owned m key p =
      (nv : MetricValue ies.Ueid) × (get_elem? m.metrics p ≡ some nv)
      × Received (report_of key nv) nv.e2_node_id
      × IsLive nv.state

  abbrev pub EntryOk : Memory ies.Ueid I C → Text × Entry ℕ → Type 0
  EntryOk m e = Owned m e.0 e.1.value

  abbrev pub TaskOk : Memory ies.Ueid I C → Task ies.Ueid → Type 0
  TaskOk m (reporting r node_id insert) = Received r node_id
  TaskOk m (reporting r node_id leave) = Unit {0}
  TaskOk m (reporting r node_id (again q)) = ⊥
  TaskOk m (approving key p) = Owned m key p
  TaskOk m (finishing key p) = Owned m key p
  TaskOk m (publishing key p state) = Owned m key p × IsLive state
  TaskOk m (controlling node_id key p nv) = Owned m key p × Received (report_of key nv) node_id

  pub Owned-mono :
      (m m' : Memory ies.Ueid I C)
      → Extends m m'
      → (key : Text) (p : ℕ) → Owned m key p
      → Owned m' key p
  Owned-mono m m' x key p (nv, at, received, live) =
      let (nv', at', same, live') = x p nv at in
      (
        nv',
        at',
        subst (λ (v : MetricValue ies.Ueid). Received (report_of key v) v.e2_node_id) (sym same)
            received,
        live' live,
      )

  pub TaskOk-mono :
      (m m' : Memory ies.Ueid I C) → Extends m m' → (t : Task ies.Ueid) → TaskOk m t → TaskOk m' t
  TaskOk-mono m m' x (reporting r node_id insert) h = h
  TaskOk-mono m m' x (reporting r node_id leave) h = h
  TaskOk-mono m m' x (reporting r node_id (again q)) h = h
  TaskOk-mono m m' x (approving key p) h = Owned-mono m m' x key p h
  TaskOk-mono m m' x (finishing key p) h = Owned-mono m m' x key p h
  TaskOk-mono m m' x (publishing key p state) h = (Owned-mono m m' x key p h.0, h.1)
  TaskOk-mono m m' x (controlling node_id key p nv) h = (Owned-mono m m' x key p h.0, h.1)

module _ (ies : Ies) (pdu : PduBuilder ies) (Received : Report ies.Ueid → Text → Type 0) where
  -- The message is the one of a report that was received from the node that it goes to.
  abbrev pub FromReport : ControlCall → Type 0
  FromReport call =
      (r : Report ies.Ueid) × (node_id : Text) × Received r node_id
      × (control_call ies pdu node_id (metric_value r node_id) ≡ ok call)

  -- The invariant.
  pub record Inv {I C : Type 0} (s : System ies.Ueid I C) : Type 0 where
    pub records : All (EntryOk ies Received s.memory) s.memory.store.records
    pub tasks : All (TaskOk ies Received s.memory) s.tasks
    pub sent : All (λ (e : Event ℕ). IsLive e.event_mho_state) (events s.memory)
    pub values : All (λ (nv : MetricValue ies.Ueid). IsLive nv.state) s.memory.metrics
    pub calls : All FromReport s.calls
