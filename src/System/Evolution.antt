-- ===== src/System/Evolution.antt =====
-- What may become of a value while the handlers run side by side: pkg/store/types.go draws the states of
-- a value as a machine.
use onos_mho.Base.{
  sym, ℕ, ℕ_discrete, ◌≡◌, ◌∙◌, subst, inl, inr, Text, get_elem?, some, Option-cases,
  get_elem?-set_ne, ◌≢◌,
}
use onos_mho.Base.Result.{ok}
use onos_mho.Store.Types.{MetricValue, MhoState, approved, done}
use onos_mho.Memory.{Memory, set_state, put_metric}
use onos_mho.Memory.Laws.{set_state_self}
use onos_mho.Utils.Ies.{Ies, PduBuilder}
use onos_mho.Monitor.{Report}
use onos_mho.Monitor.Laws.{commit_keeps}
use onos_mho.System.{
  System, Task, Step, report, approval, control, work, perform, remove_at, reporting, approving,
  finishing, publishing, controlling,
}
use onos_mho.System.Plans.{ok_inj, control_step-cases}

-- A state and one that a value may have later.
pub data Moves (from : MhoState) : MhoState → Type 0 where
  stays : Moves from from
  approves : Moves from approved
  finishes : Moves from done

Moves-trans : {a b c : MhoState} → Moves a b → Moves b c → Moves a c
Moves-trans m stays = m
Moves-trans m approves = approves
Moves-trans m finishes = finishes

module _ {U I C : Type 0} where
  -- Every value that the first memory has is in the second one, with nothing but its state changed, and
  -- that by a move.
  pub record Evolves (m m' : Memory U I C) : Type 0 where
    pub later :
        (p : ℕ) {nv : MetricValue U}
        → get_elem? m.metrics p ≡ some nv
        → (state : MhoState) × (get_elem? m'.metrics p ≡ some (record nv { state = state }))
          × Moves nv.state state

  same-Evolves :
      {m m' : Memory U I C}
      → ((p : ℕ) (nv : MetricValue U)
          → get_elem? m.metrics p ≡ some nv
          → get_elem? m'.metrics p ≡ some nv)
      → Evolves m m'
  same-Evolves keeps = record { later = λ p {nv} h. (nv.state, keeps p nv h, stays) }

  Evolves-trans : {m m' m'' : Memory U I C} → Evolves m m' → Evolves m' m'' → Evolves m m''
  Evolves-trans e e' = record {
    later = λ p h.
        let (state, h', move) = e.later p h in
        let (state', h'', move') = e'.later p h' in (state', h'', Moves-trans move move');
  }

  pub set_state_other :
      (q p : ℕ) (state : MhoState) (m : Memory U I C) {nv : MetricValue U}
      → q ≢ p
      → get_elem? m.metrics p ≡ some nv
      → get_elem? (set_state q state m).metrics p ≡ some nv
  unfolding set_state
  set_state_other q p state m n h = elim (Option-cases (get_elem? m.metrics q)) [
    | inl e ↦ rw (e, set_state) h
    | inr (mv, e) ↦ rw (e, set_state) (get_elem?-set_ne m.metrics q p _ n ∙ h)
  ]

  set_state-Evolves :
      (q : ℕ) (state : MhoState) (m : Memory U I C)
      → ((from : MhoState) → Moves from state)
      → Evolves m (set_state q state m)
  set_state-Evolves q state m move = record {
    later = λ p {nv} h. elim (ℕ_discrete q p) [
      | yes same ↦ (
        state,
        subst (λ i. get_elem? (set_state q state m).metrics i ≡ some (record nv { state = state }))
            same
            (set_state_self q state m (subst (λ i. get_elem? m.metrics i ≡ some nv) (sym same) h)),
        move nv.state,
      )
      | no differs ↦ (nv.state, set_state_other q p state m differs h, stays)
    ];
  }

module _ (ies : Ies) (pdu : PduBuilder ies) {I C : Type 0} where
  perform-Evolves :
      (t : Task ies.Ueid) (s : System ies.Ueid I C) {u : System ies.Ueid I C}
      → perform ies pdu t s ≡ ok u
      → Evolves s.memory u.memory
  unfolding perform put_metric
  perform-Evolves (reporting r node_id p) s e =
      subst (λ (u : System ies.Ueid I C). Evolves s.memory u.memory) (ok_inj e)
        (same-Evolves (λ q nv h. commit_keeps r node_id s.memory p q h))
  perform-Evolves (approving key p) s e =
      subst (λ (u : System ies.Ueid I C). Evolves s.memory u.memory) (ok_inj e)
        (set_state-Evolves p approved s.memory (λ from. approves))
  perform-Evolves (finishing key p) s e =
      subst (λ (u : System ies.Ueid I C). Evolves s.memory u.memory) (ok_inj e)
        (set_state-Evolves p done s.memory (λ from. finishes))
  perform-Evolves (publishing key p state) s e =
      subst (λ (u : System ies.Ueid I C). Evolves s.memory u.memory) (ok_inj e)
        (same-Evolves (λ q nv h. h))
  perform-Evolves (controlling node_id key p nv) s e =
      let evolves = λ (u : System ies.Ueid I C). Evolves s.memory u.memory in
      elim (control_step-cases ies pdu node_id key p nv s e) [
        | inl same ↦ subst evolves same (same-Evolves (λ q nv h. h))
        | inr (call, _, same) ↦ subst evolves same (same-Evolves (λ q nv h. h))
      ]

  module _ (Received : Report ies.Ueid → Text → Type 0) where
    Step-Evolves :
        {s t : System ies.Ueid I C} → Step ies pdu Received s t → Evolves s.memory t.memory
    Step-Evolves (report r node_id p heard e) = same-Evolves (λ q nv h. h)
    Step-Evolves (approval e p sent planned) = same-Evolves (λ q nv h. h)
    Step-Evolves (control node_id e p nv sent planned) = same-Evolves (λ q nv h. h)
    Step-Evolves {s} (work i t at e) =
        perform-Evolves t (record s { tasks = remove_at i s.tasks }) e

    -- Any number of steps.
    pub data Run (s : System ies.Ueid I C) : System ies.Ueid I C → Type 0 where
      ends : Run s s
      then : {t u : System ies.Ueid I C} → Run s t → Step ies pdu Received t u → Run s u

    -- However the handlers are interleaved: a value, once allocated, keeps the report that it was made
    -- from as long as the system runs. Its state either is what it was, or has become `Approved` or
    -- `Done`; it never becomes `StateCreated` again, nor `Waiting` or `Denied`.
    pub Run-Evolves : {s t : System ies.Ueid I C} → Run s t → Evolves s.memory t.memory
    Run-Evolves ends = same-Evolves (λ q nv h. h)
    Run-Evolves (then r step) = Evolves-trans (Run-Evolves r) (Step-Evolves step)
