-- ===== src/Controller/Laws.antt =====
-- pkg/controller/mho.go: what the controller does with each kind of event.
use onos_mho.Base.{
  ℕ, ◌≡◌, refl, ◌∙◌, ◌⊎◌, Text, [], ◌∷◌, ◌++◌, get_elem?, false, none, some, arith, dec_and, dec_or,
}
use onos_mho.Base.Result.{ok, panic}
use onos_mho.Store.Types.{
  MetricValue, Event, EventType-discrete, created, updated, MhoState-discrete, state_created,
  denied, approved,
}
use onos_mho.Store.{has_entry}
use onos_mho.Store.Laws.{get_missing}
use onos_mho.Memory.{Memory, At, signals, set_state}
use onos_mho.Memory.Laws.{
  put_metric-At, set_state-At, signals-put_metric, signals-set_state, has_entry-At, set_state_self,
}
use onos_mho.Controller.{plan_approval, approve, control_handover}

module _ {U I C : Type 0} (key : Text) (p : ℕ) (m : Memory U I C) {nv : MetricValue U}
    (h : At m key p nv) where
  -- Approving writes the state through the pointer and sends one `Updated` event in the state
  -- `Approved`.
  pub approve_lem :
      At (approve key p m) key p (record nv { state = approved })
      × (signals (approve key p m) ≡ signals m ++ (key, updated, approved) ∷ [])
  unfolding approve
  approve_lem =
      let h' = set_state-At key p approved m h in
      (
        put_metric-At key p approved (set_state p approved m) h'.1,
        signals-put_metric key p approved (set_state p approved m)
            ∙ (rw (signals-set_state p approved m, has_entry-At key p (set_state p approved m) h')),
      )

-- Whatever the key holds by now, it leads to the approved value afterwards.
pub approve-At :
    {U I C : Type 0} (key : Text) (p : ℕ) (m : Memory U I C) {nv : MetricValue U}
    → get_elem? m.metrics p ≡ some nv
    → At (approve key p m) key p (record nv { state = approved })
unfolding approve
approve-At key p m e =
    put_metric-At key p approved (set_state p approved m) (set_state_self p approved m e)

abbrev pub IsReport : Event ℕ → Type 0
IsReport e =
    ((e.type ≡ created) ⊎ (e.type ≡ updated))
    × ((e.event_mho_state ≡ state_created) ⊎ (e.event_mho_state ≡ denied))

module _ {U I C : Type 0} (e : Event ℕ) (m : Memory U I C) where
  pub plan_of_report :
      (p : ℕ) {nv : MetricValue U} → At m e.key p nv → IsReport e → plan_approval e m ≡ ok (some p)
  unfolding plan_approval
  plan_of_report p h r = ground (arith, h.0)

  plan_of_other :
      (p : ℕ) {nv : MetricValue U} → At m e.key p nv → ¬ IsReport e → plan_approval e m ≡ ok none
  unfolding plan_approval
  plan_of_other p h n = ground (arith, h.0)

  pub report_lem :
      (p : ℕ) {nv : MetricValue U}
      → At m e.key p nv
      → IsReport e
      → control_handover e m ≡ (approve e.key p m, ok tt)
  unfolding control_handover
  report_lem p h r = rw (plan_of_report p h r, control_handover)

  pub other_lem :
      (p : ℕ) {nv : MetricValue U}
      → At m e.key p nv
      → ¬ IsReport e
      → control_handover e m ≡ (m, ok tt)
  unfolding control_handover
  other_lem p h n = rw (plan_of_other p h n, control_handover)

  IsReport-dec : Dec (IsReport e)
  IsReport-dec =
      let d = EventType-discrete e.type in
      let s = MhoState-discrete e.event_mho_state in
      dec_and (dec_or (d created) (d updated)) (dec_or (s state_created) (s denied))

  -- One round of the controller on an event whose key holds a value: if the event reports a value that
  -- was created or denied, the value becomes `Approved` and one `Updated` event in this state follows;
  -- any other event changes nothing.
  pub control_handover_lem :
      (p : ℕ) {nv : MetricValue U}
      → At m e.key p nv
      → let (m', r) = control_handover e m in
        (r ≡ ok tt)
        × (IsReport e
            → At m' e.key p (record nv { state = approved })
              × (signals m' ≡ signals m ++ (e.key, updated, approved) ∷ []))
        × (¬ IsReport e → m' ≡ m)
  control_handover_lem p {nv} h = elim (IsReport-dec) [
    | yes r ↦ rw (report_lem p h r) (refl, λ _. approve_lem e.key p m h, λ n. absurd (n r))
    | no n ↦ rw (other_lem p h n) (refl, λ r. absurd (n r), λ _. refl)
  ]

  -- If the key of an event is gone, the controller panics on an event of type `Created` or `Updated`.
  control_handover_missing :
      has_entry e.key m.store ≡ false
      → (e.type ≡ created) ⊎ (e.type ≡ updated)
      → (control_handover e m).1 ≡ panic
  unfolding control_handover plan_approval
  control_handover_missing gone t = ground (arith, get_missing e.key m.store gone)
