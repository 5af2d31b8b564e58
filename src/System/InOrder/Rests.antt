-- ===== src/System/InOrder/Rests.antt =====
-- Each handler, run without a pause, as steps of the system.
use mathlib.Core.List.{Memᴰ}
use mathlib.Core.List.Memᴰ.{append_left}
use onos_mho.Base.{
  ℕ, ◌≡◌, refl, subst, inl, inr, Text, List, [], ◌∷◌, ◌++◌, none, some, append_assoc, append-nil,
}
use onos_mho.Base.Result.{ok, Result-cases, and_then-Passes}
use onos_mho.Store.Laws.{put_sends}
use onos_mho.Store.Types.{MhoState, Event, approved, done, MetricValue}
use onos_mho.Memory.{Memory, events, put_metric, set_state}
use onos_mho.Memory.Laws.{store-set_state}
use onos_mho.Utils.Ies.{Ies, PduBuilder}
use onos_mho.Monitor.{Report, plan, process_report}
use onos_mho.Controller.{plan_approval, approve, control_handover}
use onos_mho.Southbound.Handover.{ControlCall, plan_control, control_call, finish, watch_mho_change}
use onos_mho.System.{
  System, Reach, perform, control_step, report, approval, control, work, next, reporting, approving,
  publishing, finishing, controlling,
}
use onos_mho.System.Plans.{ok_inj}
use onos_mho.System.InOrder.{watch_all}

-- No handler is on its way.
abbrev pub at_rest : {U I C : Type 0} → Memory U I C → List ControlCall → System U I C
at_rest m calls = record { memory = m; tasks = []; calls = calls }

module _ (ies : Ies) (pdu : PduBuilder ies) {I C : Type 0}
    (Received : Report ies.Ueid → Text → Type 0) where
  abbrev pub Rests : Memory ies.Ueid I C → List ControlCall → Type 0
  Rests m calls = Reach ies pdu Received (at_rest m calls)

  pub report-Rests :
      (r : Report ies.Ueid) (node_id : Text) (m : Memory ies.Ueid I C) (calls : List ControlCall)
      → Received r node_id
      → Rests m calls
      → (process_report r node_id m).1 ≡ ok tt
      → Rests (process_report r node_id m).0 calls
  unfolding process_report perform
  report-Rests r node_id m calls received reached accepted = elim (Result-cases (plan r m)) [
    | inl (p, e) ↦
        rw (e, process_report)
          (next (next reached (report r node_id p received e))
            (work 0 (reporting r node_id p) refl refl))
    | inr (inl (x, e)) ↦ rw (e, process_report) reached
    | inr (inr e) ↦ rw (e, process_report) reached
  ]

  approve-Rests :
      (e : Event ℕ) (p : ℕ) (m : Memory ies.Ueid I C) (calls : List ControlCall)
      → Memᴰ e (events m)
      → Rests m calls
      → plan_approval e m ≡ ok (some p)
      → Rests (approve e.key p m) calls
  unfolding approve perform
  approve-Rests e p m calls sent reached planned =
      next (next (next reached (approval e p sent planned)) (work 0 (approving e.key p) refl refl))
        (work 0 (publishing e.key p approved) refl refl)

  finish-Rests :
      (node_id : Text) (e : Event ℕ) (p : ℕ) (nv : MetricValue ies.Ueid) (call : ControlCall)
      (m : Memory ies.Ueid I C) (calls : List ControlCall)
      → Memᴰ e (events m)
      → Rests m calls
      → plan_control node_id e m ≡ ok (some (p, nv))
      → control_call ies pdu node_id nv ≡ ok call
      → Rests (finish e.key p m) (calls ++ call ∷ [])
  unfolding finish perform control_step
  finish-Rests node_id e p nv call m calls sent reached planned built =
      let started = next reached (control node_id e p nv sent planned) in
      let called' : Reach ies pdu Received
          (record { memory = m; tasks = finishing e.key p ∷ []; calls = calls ++ call ∷ [] }) =
        next started
          (work 0 (controlling node_id e.key p nv) refl (rw (built, control_step) refl)) in
      next (next called' (work 0 (finishing e.key p) refl refl))
        (work 0 (publishing e.key p done) refl refl)

module _ {U I C : Type 0} {e : Event ℕ} (key : Text) (p : ℕ) (state : MhoState)
    (m : Memory U I C) where
  -- What was sent stays sent.
  sent_before : Memᴰ e (events m) → Memᴰ e (events (put_metric key p state (set_state p state m)).0)
  unfolding put_metric
  sent_before sent =
      rw (put_sends key p state (set_state p state m).store)
        (rw (store-set_state p state m) (append_left _ sent))

module _ (ies : Ies) (pdu : PduBuilder ies) {I C : Type 0}
    (Received : Report ies.Ueid → Text → Type 0) (e : Event ℕ) where
  -- The program is at rest, and the event is one that was sent.
  abbrev pub RestsWith : Memory ies.Ueid I C → List ControlCall → Type 0
  RestsWith m calls = Reach ies pdu Received (at_rest m calls) × Memᴰ e (events m)

  pub control-RestsWith :
      (m : Memory ies.Ueid I C) (calls : List ControlCall)
      → RestsWith m calls
      → RestsWith (control_handover e m).0 calls
  unfolding control_handover approve
  control-RestsWith m calls (reached, sent) = elim (Result-cases (plan_approval e m)) [
    | inl (some p, planned) ↦
        rw (planned, control_handover)
          (
            approve-Rests ies pdu Received e p m calls sent reached planned,
            sent_before e.key p approved m sent,
          )
    | inl (none, planned) ↦ rw (planned, control_handover) (reached, sent)
    | inr (inl (x, planned)) ↦ rw (planned, control_handover) (reached, sent)
    | inr (inr planned) ↦ rw (planned, control_handover) (reached, sent)
  ]

  no_call :
      (m : Memory ies.Ueid I C) (calls : List ControlCall)
      → RestsWith m calls
      → RestsWith m (calls ++ [])
  no_call m calls h = rw (append-nil calls) h

  watch-RestsWith :
      (node_id : Text) (m : Memory ies.Ueid I C) (calls : List ControlCall)
      → RestsWith m calls
      → let (m', sent, r) = watch_mho_change ies pdu node_id e m in RestsWith m' (calls ++ sent)
  unfolding watch_mho_change finish
  watch-RestsWith node_id m calls (reached, sent) =
      let same = no_call m calls (reached, sent) in
      elim (Result-cases (plan_control node_id e m)) [
        | inl (some (p, nv), planned) ↦ elim (Result-cases (control_call ies pdu node_id nv)) [
          | inl (call, built) ↦
              rw (planned, watch_mho_change)
                (rw built (
                  finish-Rests ies pdu Received node_id e p nv call m calls sent reached planned
                      built,
                  sent_before e.key p done m sent,
                ))
          | inr (inl (x, built)) ↦ rw (planned, watch_mho_change) (rw built same)
          | inr (inr built) ↦ rw (planned, watch_mho_change) (rw built same)
        ]
        | inl (none, planned) ↦ rw (planned, watch_mho_change) same
        | inr (inl (x, planned)) ↦ rw (planned, watch_mho_change) same
        | inr (inr planned) ↦ rw (planned, watch_mho_change) same
      ]

  pub watch_all-Rests :
      (nodes : List Text) (m : Memory ies.Ueid I C) (calls : List ControlCall)
      (out : Memory ies.Ueid I C × List ControlCall)
      → RestsWith m calls
      → watch_all ies pdu nodes e m ≡ ok out
      → Reach ies pdu Received (at_rest out.0 (calls ++ out.1))
  unfolding watch_all
  watch_all-Rests [] m calls out h ends =
      subst (λ o. Reach ies pdu Received (at_rest o.0 (calls ++ o.1))) (ok_inj ends)
        (no_call m calls h).0
  watch_all-Rests (n ∷ nodes) m calls out h ends =
      let (m1, sent, r) = watch_mho_change ies pdu n e m in
      let watched = and_then-Passes _ r ends in
      let rest = and_then-Passes _ (watch_all ies pdu nodes e m1) watched.rest in
      let v = rest.value in
      let reached =
        watch_all-Rests nodes m1 (calls ++ sent) v (watch-RestsWith n m calls h) rest.returned in
      subst (λ o. Reach ies pdu Received (at_rest o.0 (calls ++ o.1))) (ok_inj rest.rest)
        (rw (← append_assoc calls sent v.1) reached)
