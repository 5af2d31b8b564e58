-- ===== src/System/Plans.antt =====
-- What each handler has seen when it decides to act.
use onos_mho.Base.{
  ℕ, ◌≡◌, ◌≢◌, ◌⊎◌, Text, Text-discrete, get_elem?, Option-cases, inl, inr, [], ◌∷◌, ◌++◌, some,
  arith,
}
use onos_mho.Utils.Ies.{Ies, PduBuilder}
use onos_mho.System.{System, finishing, control_step}
use onos_mho.Base.Dict.{lookup}
use onos_mho.Base.Result.{Result, ok, Result-cases}
use onos_mho.Store.Types.{MetricValue, Event, Entry, denied}
use onos_mho.Store.{Store, get}
use onos_mho.Memory.{Memory, deref}
use onos_mho.Monitor.{Report, again, plan, plan_stored, compare_metric}
use onos_mho.Controller.{plan_approval}
use onos_mho.Southbound.Handover.{ControlCall, plan_control, control_call}

module _ {V I C : Type 0} where
  pub lookup_of_get :
      (key : Text) (s : Store V I C) {e : Entry V}
      → get key s ≡ ok e
      → lookup Text-discrete key s.records ≡ some e
  unfolding get
  lookup_of_get key s h = ground arith

module _ {U I C : Type 0} where
  deref-some :
      (p : ℕ) (m : Memory U I C) {nv : MetricValue U}
      → deref p m ≡ ok nv
      → get_elem? m.metrics p ≡ some nv
  unfolding deref
  deref-some p m h = ground arith

  pub plan_approval-some :
      (e : Event ℕ) (m : Memory U I C) {p : ℕ}
      → plan_approval e m ≡ ok (some p)
      → (v : Entry ℕ) × (get e.key m.store ≡ ok v) × (v.value ≡ p)
  unfolding plan_approval
  plan_approval-some e m h = elim (Result-cases (get e.key m.store)) [
    | inl (v, g) ↦ (v, g, ground (arith, g))
    | inr (inl (x, g)) ↦ absurd (ground (arith, g))
    | inr (inr g) ↦ absurd (ground (arith, g))
  ]

  pub plan_control-some :
      (node_id : Text) (e : Event ℕ) (m : Memory U I C) {p : ℕ} {nv : MetricValue U}
      → plan_control node_id e m ≡ ok (some (p, nv))
      → (v : Entry ℕ) × (get e.key m.store ≡ ok v)
        × (v.value ≡ p)
        × (get_elem? m.metrics p ≡ some nv)
        × (nv.e2_node_id ≡ node_id)
  unfolding plan_control deref
  plan_control-some node_id e m h = elim (Result-cases (get e.key m.store)) [
    | inl (v, g) ↦ elim (Option-cases (get_elem? m.metrics v.value)) [
      | inl at ↦ absurd (ground (arith, g, at))
      | inr (mv, at) ↦ (v, g, ground (arith, g, at), ground (arith, g, at), ground (arith, g, at))
    ]
    | inr (inl (x, g)) ↦ absurd (ground (arith, g))
    | inr (inr g) ↦ absurd (ground (arith, g))
  ]

  pub plan_again :
      (r : Report U) (m : Memory U I C) {q : ℕ}
      → plan r m ≡ ok (again q)
      → (nv : MetricValue U) × (get_elem? m.metrics q ≡ some nv) × (nv.state ≡ denied)
  unfolding plan plan_stored compare_metric deref
  plan_again r m h = elim (Result-cases (get r.key m.store)) [
    | inl (v, g) ↦ elim (Option-cases (get_elem? m.metrics v.value)) [
      | inl at ↦ absurd (ground (arith, g, at))
      | inr (nv, at) ↦ (nv, ground (arith, g, at), ground (arith, g, at))
    ]
    | inr (inl (x, g)) ↦ absurd (ground (arith, g))
    | inr (inr g) ↦ absurd (ground (arith, g))
  ]

pub ok_inj : {A : Type 0} {a b : A} → Result.ok a ≡ ok b → a ≡ b
ok_inj h = cc

module _ (ies : Ies) (pdu : PduBuilder ies) {I C : Type 0} (node_id key : Text) (p : ℕ)
    (nv : MetricValue ies.Ueid) (s : System ies.Ueid I C) where
  -- A step that sends the control message, or one that changes nothing.
  pub control_step-cases :
      {u : System ies.Ueid I C}
      → control_step ies pdu node_id key p nv s ≡ ok u
      → (s ≡ u)
        ⊎ ((call : ControlCall) × (control_call ies pdu node_id nv ≡ ok call)
            × (record s { tasks = finishing key p ∷ s.tasks; calls = s.calls ++ call ∷ [] } ≡ u))
  unfolding control_step
  control_step-cases h = elim (Result-cases (control_call ies pdu node_id nv)) [
    | inl (call, e) ↦ inr (call, e, ok_inj (rw (e, control_step) at h))
    | inr (inl (x, e)) ↦ inl (ok_inj (rw (e, control_step) at h))
    | inr (inr e) ↦ absurd (panics (rw (e, control_step) at h))
  ]
    where
      panics : {u : System ies.Ueid I C} → Result.panic ≢ ok u
      panics h = cc
