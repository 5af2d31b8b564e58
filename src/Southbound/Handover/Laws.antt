-- ===== src/Southbound/Handover/Laws.antt =====
-- pkg/southbound/e2/manager.go, `watchMHOChanges`: what a node's watcher does with each event.
use onos_mho.Base.{
  ℕ, ◌≡◌, refl, ◌∙◌, Text, Text-discrete, [], ◌∷◌, ◌++◌, false, none, some, arith, dec_and,
}
use onos_mho.Base.Result.{ok, panic}
use onos_mho.Store.Types.{
  MetricValue, Event, EventType-discrete, updated, MhoState-discrete, approved, done,
}
use onos_mho.Store.{has_entry}
use onos_mho.Store.Laws.{get_missing}
use onos_mho.Memory.{Memory, At, signals, set_state, deref}
use onos_mho.Memory.Laws.{
  put_metric-At, set_state-At, signals-put_metric, signals-set_state, has_entry-At,
}
use onos_mho.Utils.Ies.{Ies, PduBuilder}
use onos_mho.Southbound.Handover.{ControlCall, plan_control, finish, control_call, watch_mho_change}

module _ {U I C : Type 0} (key : Text) (p : ℕ) (m : Memory U I C) {nv : MetricValue U}
    (h : At m key p nv) where
  -- Finishing writes the state through the pointer and sends one `Updated` event in the state `Done`.
  pub finish_lem :
      At (finish key p m) key p (record nv { state = done })
      × (signals (finish key p m) ≡ signals m ++ (key, updated, done) ∷ [])
  unfolding finish
  finish_lem =
      let h' = set_state-At key p done m h in
      (
        put_metric-At key p done (set_state p done m) h'.1,
        signals-put_metric key p done (set_state p done m)
            ∙ (rw (signals-set_state p done m, has_entry-At key p (set_state p done m) h')),
      )

-- The event asks the watcher of this node to hand the value over.
abbrev pub Asks : {U : Type 0} → Text → Event ℕ → MetricValue U → Type 0
Asks node_id e nv = (e.type ≡ updated) × (e.event_mho_state ≡ approved) × (nv.e2_node_id ≡ node_id)

module _ {U I C : Type 0} (node_id : Text) (e : Event ℕ) (m : Memory U I C) (p : ℕ)
    (nv : MetricValue U) (h : At m e.key p nv) where
  plan_of_asking : Asks node_id e nv → plan_control node_id e m ≡ ok (some (p, nv))
  unfolding plan_control deref
  plan_of_asking a = ground (arith, h.0, h.1)

  plan_of_other : ¬ Asks node_id e nv → plan_control node_id e m ≡ ok none
  unfolding plan_control deref
  plan_of_other n = ground (arith, h.0, h.1)

  Asks-dec : Dec (Asks node_id e nv)
  Asks-dec =
      let type_and_state =
        dec_and (EventType-discrete e.type updated)
          (MhoState-discrete e.event_mho_state approved) in
      elim (dec_and type_and_state (Text-discrete nv.e2_node_id node_id)) [
        | yes a ↦ yes (a.0.0, a.0.1, a.1)
        | no n ↦ no (λ a. n ((a.0, a.1), a.2))
      ]

module _ (ies : Ies) (pdu : PduBuilder ies) {I C : Type 0} (node_id : Text) (e : Event ℕ)
    (m : Memory ies.Ueid I C) where
  pub asked_lem :
      (p : ℕ) (nv : MetricValue ies.Ueid) (call : ControlCall)
      → At m e.key p nv
      → control_call ies pdu node_id nv ≡ ok call
      → Asks node_id e nv
      → watch_mho_change ies pdu node_id e m ≡ (finish e.key p m, call ∷ [], ok tt)
  unfolding watch_mho_change
  asked_lem p nv call h c a = rw (plan_of_asking node_id e m p nv h a, watch_mho_change) (rw c refl)

  pub idle_lem :
      (p : ℕ) (nv : MetricValue ies.Ueid)
      → At m e.key p nv
      → ¬ Asks node_id e nv
      → watch_mho_change ies pdu node_id e m ≡ (m, [], ok tt)
  unfolding watch_mho_change
  idle_lem p nv h n = rw (plan_of_other node_id e m p nv h n, watch_mho_change) refl

  -- One round of a node's watcher on an event whose key holds a value, where the builders do not
  -- panic: if the event is an update in the state `Approved` and the value came from this node, then
  -- exactly one control message is sent, that of the value; the value becomes `Done` and one
  -- `Updated` event in this state follows. On any other event nothing is sent or changed.
  pub watch_mho_change_lem :
      (p : ℕ) (nv : MetricValue ies.Ueid) (call : ControlCall)
      → At m e.key p nv
      → control_call ies pdu node_id nv ≡ ok call
      → let (m', calls, r) = watch_mho_change ies pdu node_id e m in
        (r ≡ ok tt)
        × (Asks node_id e nv
            → (calls ≡ call ∷ [])
              × At m' e.key p (record nv { state = done })
              × (signals m' ≡ signals m ++ (e.key, updated, done) ∷ []))
        × (¬ Asks node_id e nv → (calls ≡ []) × (m' ≡ m))
  watch_mho_change_lem p nv call h c = elim (Asks-dec node_id e m p nv h) [
    | yes a ↦
        rw (asked_lem p nv call h c a) (
          refl,
          λ _. let (at, sent) = finish_lem e.key p m h in (refl, at, sent),
          λ n. absurd (n a),
        )
    | no n ↦ rw (idle_lem p nv h n) (refl, λ a. absurd (n a), λ _. (refl, refl))
  ]

  -- If the key of an event is gone, the watcher panics on an event of type `Updated`.
  watch_mho_change_missing :
      has_entry e.key m.store ≡ false
      → e.type ≡ updated
      → (watch_mho_change ies pdu node_id e m).2 ≡ panic
  unfolding watch_mho_change plan_control
  watch_mho_change_missing gone t = ground (arith, get_missing e.key m.store gone)
