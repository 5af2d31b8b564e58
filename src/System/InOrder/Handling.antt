-- ===== src/System/InOrder/Handling.antt =====
-- The controller and the watchers of the nodes on each of the three events that a report leads to.
use onos_mho.Base.{
  ℕ, ◌≡◌, refl, ap, subst, ◌≢◌, ◌⊎◌, inl, inr, Text, List, [], ◌∷◌, All, All-map, arith,
}
use onos_mho.Base.Result.{ok}
use onos_mho.Store.Types.{
  MetricValue, Event, EventType, created, updated, state_created, approved, done,
}
use onos_mho.Memory.{Memory, At, signal}
use onos_mho.Utils.Ies.{Ies, PduBuilder}
use onos_mho.Controller.{approve}
use onos_mho.Controller.Laws.{IsReport, approve_lem, report_lem, other_lem}
use onos_mho.Southbound.Handover.{ControlCall, finish, control_call}
use onos_mho.Southbound.Handover.Laws.{Asks, finish_lem, asked_lem, idle_lem}
use onos_mho.System.InOrder.{watch_all, handle}

-- The node stands once among those that are watched.
abbrev pub Once : Text → List Text → Type 0
Once node_id [] = ⊥
Once node_id (n ∷ nodes) =
    ((node_id ≡ n) × All (λ x. node_id ≢ x) nodes) ⊎ ((node_id ≢ n) × Once node_id nodes)

All-of : {P : Text → Type 0} (xs : List Text) → ((x : Text) → P x) → All P xs
All-of [] f = tt
All-of (x ∷ xs) f = (f x, All-of xs f)

module _ (ies : Ies) (pdu : PduBuilder ies) {I C : Type 0} (e : Event ℕ) (p : ℕ)
    (nv : MetricValue ies.Ueid) where
  watch_all_idle :
      (nodes : List Text) (m : Memory ies.Ueid I C)
      → At m e.key p nv
      → All (λ n. ¬ Asks n e nv) nodes
      → watch_all ies pdu nodes e m ≡ ok (m, [])
  unfolding watch_all
  watch_all_idle [] m h a = refl
  watch_all_idle (n ∷ nodes) m h a =
      rw (idle_lem ies pdu n e m p nv h a.0) (rw (watch_all_idle nodes m h a.1) refl)

module _ (ies : Ies) (pdu : PduBuilder ies) {I C : Type 0} (e : Event ℕ) (p : ℕ)
    (nv : MetricValue ies.Ueid) where
  -- The watcher of the value's node takes the event up, and the others leave it alone.
  watch_all_asked :
      (nodes : List Text) (m : Memory ies.Ueid I C) (call : ControlCall)
      → At m e.key p nv
      → e.type ≡ updated
      → e.event_mho_state ≡ approved
      → control_call ies pdu nv.e2_node_id nv ≡ ok call
      → Once nv.e2_node_id nodes
      → watch_all ies pdu nodes e m ≡ ok (finish e.key p m, call ∷ [])
  unfolding watch_all
  watch_all_asked [] m call h t s c o = absurd o
  watch_all_asked (n ∷ nodes) m call h t s c (inl (same, others)) =
      let c' = subst (λ x. control_call ies pdu x nv ≡ ok call) same c in
      let h' = (finish_lem e.key p m h).0 in
      rw (asked_lem ies pdu n e m p nv call h c' (t, s, same)) (
        rw
          (watch_all_idle ies pdu e p (record nv { state = done }) nodes (finish e.key p m) h'
            (All-map (λ x. nv.e2_node_id ≢ x) (λ x. ¬ Asks x e nv) nodes (λ x d a. d a.2) others))
          refl)
  watch_all_asked (n ∷ nodes) m call h t s c (inr (differs, o)) =
      rw (idle_lem ies pdu n e m p nv h (λ a. differs a.2))
        (rw (watch_all_asked nodes m call h t s c o) refl)

-- The three events, by their types and states.
module _ (ies : Ies) (pdu : PduBuilder ies) {I C : Type 0} (nodes : List Text) (e : Event ℕ)
    (key : Text) (p : ℕ) (nv : MetricValue ies.Ueid) (m : Memory ies.Ueid I C)
    (h : At m key p nv) where
  -- The report itself: the controller approves it.
  pub handle_reported :
      (t : EventType)
      → (t ≡ created) ⊎ (t ≡ updated)
      → signal e ≡ (key, t, state_created)
      → handle ies pdu nodes e m ≡ ok (approve key p m, [])
  unfolding handle
  handle_reported t either s =
      let k : e.key ≡ key = ap (λ x. x.0) s in
      let here : At m e.key p nv = rw k h in
      let nv' = record nv { state = approved } in
      let reports : IsReport e = (ground (arith, either), inl (ap (λ x. x.2) s)) in
      let others : All (λ n. ¬ Asks n e nv') nodes = All-of nodes (λ n a. ground arith) in
      rw (report_lem e m p here reports) (
        rw
          (watch_all_idle ies pdu e p nv' nodes (approve e.key p m) (approve_lem e.key p m here).0
            others)
          (rw k refl))

  -- The approval: the watcher of the node sends the control message.
  pub handle_approved :
      (call : ControlCall)
      → control_call ies pdu nv.e2_node_id nv ≡ ok call
      → Once nv.e2_node_id nodes
      → signal e ≡ (key, updated, approved)
      → handle ies pdu nodes e m ≡ ok (finish key p m, call ∷ [])
  unfolding handle
  handle_approved call c o s =
      let k : e.key ≡ key = ap (λ x. x.0) s in
      let h' : At m e.key p nv = rw k h in
      rw (other_lem e m p h' (λ r. ground arith)) (
        rw (watch_all_asked ies pdu e p nv nodes m call h' (ap (λ x. x.1) s) (ap (λ x. x.2) s) c o)
          (rw k refl))

  -- The end: nobody does anything.
  pub handle_done : signal e ≡ (key, updated, done) → handle ies pdu nodes e m ≡ ok (m, [])
  unfolding handle
  handle_done s =
      let h' : At m e.key p nv = rw (ap (λ x. x.0) s) h in
      rw (other_lem e m p h' (λ r. ground arith))
        (watch_all_idle ies pdu e p nv nodes m h' (All-of nodes (λ n a. ground arith)))
