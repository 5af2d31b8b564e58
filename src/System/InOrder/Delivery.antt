-- ===== src/System/InOrder/Delivery.antt =====
-- The three events of a report that is written, delivered one after the other.
use onos_mho.Base.{
  append_assoc, ◌∙◌, ℕ, zero, suc, ◌+◌, ◌≡◌, refl, ◌⊎◌, Text, length, get_elem?, get_elem?-length,
  List, [], ◌∷◌, ◌++◌, some,
}
use onos_mho.Base.Result.{ok}
use onos_mho.Store.Types.{Event, EventType, created, updated, state_created}
use onos_mho.Memory.{Memory, At, signals, events}
use onos_mho.Memory.Laws.{sent_event}
use onos_mho.Utils.Ies.{Ies, PduBuilder}
use onos_mho.Monitor.{metric_value}
use onos_mho.Controller.{approve}
use onos_mho.Controller.Laws.{approve_lem}
use onos_mho.Southbound.Handover.{ControlCall, finish, control_call}
use onos_mho.Southbound.Handover.Laws.{finish_lem}
use onos_mho.System.InOrder.Spec.{three_events}
use onos_mho.System.InOrder.{Reported, handle, deliver}
use onos_mho.System.InOrder.Handling.{Once, handle_reported, handle_approved, handle_done}

module _ (ies : Ies) (pdu : PduBuilder ies) {I C : Type 0} (nodes : List Text) where
  deliver_event :
      (rounds next : ℕ) (m m' m'' : Memory ies.Ueid I C) (e : Event ℕ) {next' : ℕ}
      {calls rest : List ControlCall}
      → get_elem? (events m) next ≡ some e
      → handle ies pdu nodes e m ≡ ok (m', calls)
      → deliver ies pdu nodes rounds (next + 1) m' ≡ ok (next', m'', rest)
      → deliver ies pdu nodes (suc rounds) next m ≡ ok (next', m'', calls ++ rest)
  unfolding deliver
  deliver_event rounds next m m' m'' e found handled later =
      rw (found, deliver) (rw handled (rw later refl))

  pub deliver_idle :
      (rounds : ℕ) (m : Memory ies.Ueid I C)
      → deliver ies pdu nodes rounds (length (events m)) m ≡ ok (length (events m), m, [])
  unfolding deliver
  deliver_idle zero m = refl
  deliver_idle (suc rounds) m = rw (get_elem?-length (events m), deliver) refl

-- What a report needs to be served: its node is watched, and the builders make its message.
abbrev pub Served :
    (ies : Ies) → PduBuilder ies → List Text → Reported ies.Ueid → ControlCall → Type 0
Served ies pdu nodes x call =
    Once x.1 nodes × (control_call ies pdu x.1 (metric_value x.0 x.1) ≡ ok call)

module _ (ies : Ies) (pdu : PduBuilder ies) {I C : Type 0} (nodes : List Text)
    (x : Reported ies.Ueid) (call : ControlCall) where
  -- Where a report is written, the memory after the three events.
  abbrev pub settled : ℕ → Memory ies.Ueid I C → Memory ies.Ueid I C
  settled p m = finish x.0.key p (approve x.0.key p m)

  pub deliver_report :
      (m m1 : Memory ies.Ueid I C) (p : ℕ) (t : EventType)
      → Served ies pdu nodes x call
      → (t ≡ created) ⊎ (t ≡ updated)
      → signals m1 ≡ signals m ++ (x.0.key, t, state_created) ∷ []
      → At m1 x.0.key p (metric_value x.0 x.1)
      → deliver ies pdu nodes 3 (length (events m)) m1
        ≡ ok (length (events (settled p m1)), settled p m1, call ∷ [])
  unfolding deliver control_call metric_value
  deliver_report m m1 p t served either sent h =
      let (once, builds) = served in
      let m2 = approve x.0.key p m1 in
      let m3 = settled p m1 in
      let (h2, sent2) = approve_lem x.0.key p m1 h in
      let (h3, sent3) = finish_lem x.0.key p m2 h2 in
      let (e1, found1, is1, n1) = sent_event m m1 sent in
      let (e2, found2, is2, n2) = sent_event m1 m2 sent2 in
      let (e3, found3, is3, n3) = sent_event m2 m3 sent3 in
      let all_sent : deliver ies pdu nodes 0 (length (events m2) + 1) m3
          ≡ ok (length (events m3), m3, []) =
        rw n3 refl in
      let third =
        deliver_event ies pdu nodes 0 (length (events m2)) m3 m3 m3 e3 found3
          (handle_done ies pdu nodes e3 x.0.key p _ m3 h3 is3) all_sent in
      let second =
        deliver_event ies pdu nodes 1 (length (events m1)) m2 m3 m3 e2 found2
          (handle_approved ies pdu nodes e2 x.0.key p _ m2 h2 call builds once is2)
          (rw (← n2) third) in
      deliver_event ies pdu nodes 2 (length (events m)) m1 m2 m3 e1 found1
        (handle_reported ies pdu nodes e1 x.0.key p _ m1 h t either is1) (rw (← n1) second)

  pub signals-settled :
      (m m1 : Memory ies.Ueid I C) (p : ℕ) (t : EventType)
      → signals m1 ≡ signals m ++ (x.0.key, t, state_created) ∷ []
      → At m1 x.0.key p (metric_value x.0 x.1)
      → signals (settled p m1) ≡ signals m ++ three_events x t
  signals-settled m m1 p t sent h =
      let (h2, sent2) = approve_lem x.0.key p m1 h in
      let (_, sent3) = finish_lem x.0.key p (approve x.0.key p m1) h2 in
      sent3 ∙ (rw (sent2, sent) (simp append_assoc))
