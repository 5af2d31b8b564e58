-- ===== src/System/InOrder/Laws.antt =====
-- The whole program, seen from outside, where events are delivered in order: each report that names
-- another target cell than the last one of its UE leads to its control message, and no other does.
use onos_mho.Base.{
  append-nil, append_assoc, ℕ, ◌≡◌, refl, sym, ◌∙◌, ap, subst, ◌≢◌, ◌⊎◌, inl, inr, if_pos, if_neg,
  Text, Text-discrete, length, get_elem?-lt_length, List, [], ◌∷◌, ◌++◌, All, Option, none, some,
  arith,
}
use onos_mho.Base.Dict.{Dict, lookup, insert, lookup-insert_self, lookup-insert_ne}
use onos_mho.Base.Result.{ok}
use onos_mho.Store.Types.{MetricValue, EventType, created, updated, state_created, approved, done}
use onos_mho.Memory.{Memory, At, signals, events}
use onos_mho.Memory.Laws.{set_state-put_metric-At_ne, has_entry-set_state-put_metric}
use onos_mho.Utils.Ies.{Ies, PduBuilder}
use onos_mho.Monitor.{metric_value, process_report}
use onos_mho.Monitor.Laws.{
  process_report_new, process_report_known, process_report_frame, process_report-has_entry,
}
use onos_mho.Controller.{approve}
use onos_mho.Controller.Laws.{approve_lem}
use onos_mho.Southbound.Handover.{ControlCall, finish}
use onos_mho.Southbound.Handover.Laws.{finish_lem}
use onos_mho.System.InOrder.{Reported, receive, receive_all}
use onos_mho.System.InOrder.Spec.{
  cells_after, message_for, messages, three_events, events_for, events_of, HoldsCell, Agrees,
  HoldsCell-frame,
}
use onos_mho.System.InOrder.Delivery.{
  signals-settled, Served, settled, deliver_report, deliver_idle,
}

module _ (ies : Ies) (pdu : PduBuilder ies) {I C : Type 0} (nodes : List Text)
    (call_of : Reported ies.Ueid → ControlCall) (x : Reported ies.Ueid) (cells : Dict Text Text)
    (m : Memory ies.Ueid I C) (agrees : Agrees cells m)
    (served : Served ies pdu nodes x (call_of x)) where
  abbrev written : Memory ies.Ueid I C
  written = (process_report x.0 x.1 m).0

  abbrev noted : Dict Text Text
  noted = insert Text-discrete x.0.key x.0.tgt_cell_id cells

  abbrev fresh : ℕ
  fresh = length m.metrics

  -- What a report that is written leaves to another key.
  settled-frame :
      (key : Text)
      → x.0.key ≢ key
      → At written x.0.key fresh (metric_value x.0 x.1)
      → (cell : Option Text) → HoldsCell m key cell
      → HoldsCell (settled ies pdu nodes x (call_of x) fresh written) key cell
  unfolding approve finish
  settled-frame key n h =
      let m2 = approve x.0.key fresh written in
      let h2 = (approve_lem x.0.key fresh written h).0 in
      HoldsCell-frame m (settled ies pdu nodes x (call_of x) fresh written) key
        (has_entry-set_state-put_metric x.0.key key fresh done m2 n
          ∙ has_entry-set_state-put_metric x.0.key key fresh approved written n
          ∙ process_report-has_entry x.0 x.1 m key n)
        (λ p nv hold.
          let np : fresh ≢ p =
            λ e. absurd (omega (arith, get_elem?-lt_length m.metrics p hold.1)) in
          set_state-put_metric-At_ne x.0.key key fresh p done m2 n np h2.1 (
            set_state-put_metric-At_ne x.0.key key fresh p approved written n np h.1
              (process_report_frame x.0 x.1 m key p n hold)))

  settled-Agrees :
      At written x.0.key fresh (metric_value x.0 x.1)
      → Agrees noted (settled ies pdu nodes x (call_of x) fresh written)
  unfolding metric_value
  settled-Agrees h key = elim (Text-discrete x.0.key key) [
    | yes same ↦
        let h2 = (approve_lem x.0.key fresh written h).0 in
        let h3 = (finish_lem x.0.key fresh (approve x.0.key fresh written) h2).0 in
        subst
          (λ k.
            HoldsCell (settled ies pdu nodes x (call_of x) fresh written) k
              (lookup Text-discrete k noted))
          same
          (rw (lookup-insert_self Text-discrete x.0.key x.0.tgt_cell_id cells)
            (fresh, _, h3, refl, refl))
    | no n ↦
        rw (lookup-insert_ne Text-discrete x.0.key key x.0.tgt_cell_id cells n)
          (settled-frame key n h (lookup Text-discrete key cells) (agrees key))
  ]

  -- One report, and what is sent until the program is at rest again.
  abbrev Answered : Option Text → Type 0
  Answered cell =
      (m' : Memory ies.Ueid I C) × (receive ies pdu nodes x (length (events m)) m
        ≡ ok (length (events m'), m', message_for call_of x cell))
      × (signals m' ≡ signals m ++ events_for x cell)
      × Agrees noted m'

  receive_written :
      (t : EventType) (cell : Option Text)
      → (t ≡ created) ⊎ (t ≡ updated)
      → (process_report x.0 x.1 m).1 ≡ ok tt
      → At written x.0.key fresh (metric_value x.0 x.1)
      → signals written ≡ signals m ++ (x.0.key, t, state_created) ∷ []
      → message_for call_of x cell ≡ call_of x ∷ []
      → events_for x cell ≡ three_events x t
      → Answered cell
  unfolding receive
  receive_written t cell either accepted h sent calls sends = (
    settled ies pdu nodes x (call_of x) fresh written,
    rw (accepted, receive)
        (rw calls
          (deliver_report ies pdu nodes x (call_of x) m written fresh t served either sent h)),
    rw sends (signals-settled ies pdu nodes x (call_of x) m written fresh t sent h),
    settled-Agrees h,
  )

  -- A report that names the cell that the store holds changes nothing.
  receive_again :
      (p : ℕ) (nv : MetricValue ies.Ueid)
      → At m x.0.key p nv
      → nv.tgt_cell_id ≡ x.0.tgt_cell_id
      → nv.state ≡ done
      → receive ies pdu nodes x (length (events m)) m ≡ ok (length (events m), m, [])
  unfolding receive
  receive_again p nv h c d =
      let (accepted, _, again) = process_report_known x.0 x.1 m p h in
      let kept : written ≡ m = (again c).2 (λ e. ground arith) in
      rw (accepted, receive) (rw kept (deliver_idle ies pdu nodes 3 m))

  again-Agrees : lookup Text-discrete x.0.key cells ≡ some x.0.tgt_cell_id → Agrees noted m
  again-Agrees e key = elim (Text-discrete x.0.key key) [
    | yes same ↦
        subst (λ k. HoldsCell m k (lookup Text-discrete k noted)) same
          (rw (lookup-insert_self Text-discrete x.0.key x.0.tgt_cell_id cells)
            (subst (HoldsCell m x.0.key) e (agrees x.0.key)))
    | no n ↦ rw (lookup-insert_ne Text-discrete x.0.key key x.0.tgt_cell_id cells n) (agrees key)
  ]

  receive_lem :
      (cell : Option Text)
      → lookup Text-discrete x.0.key cells ≡ cell
      → HoldsCell m x.0.key cell
      → Answered cell
  receive_lem none e gone =
      let (accepted, h, sent) = process_report_new x.0 x.1 m gone in
      receive_written created none (inl refl) accepted h sent refl refl
  receive_lem (some cell) e (p, nv, h, c, d) = elim (Text-discrete cell x.0.tgt_cell_id) [
    | yes same ↦
        let no_message : message_for call_of x (some cell) ≡ [] = rw (if_pos _ same) in
        let no_event : events_for x (some cell) ≡ [] = rw (if_pos _ same) in
        (
          m,
          rw no_message (receive_again p nv h (c ∙ same) d),
          rw no_event (sym (append-nil (signals m))),
          again-Agrees (e ∙ ap some same),
        )
    | no differs ↦
        let (accepted, other, _) = process_report_known x.0 x.1 m p h in
        let (h', sent) = other (λ k. differs (sym c ∙ k)) in
        receive_written updated (some cell) (inr refl) accepted h' sent (rw (if_neg _ differs))
          (rw (if_neg _ differs))
  ]

module _ (ies : Ies) (pdu : PduBuilder ies) {I C : Type 0} (nodes : List Text)
    (call_of : Reported ies.Ueid → ControlCall) where
  -- Reports that come one after the other, each with all the events that follow from it delivered
  -- before the next, to a program whose store holds only values that are done: the store holds the last
  -- target cell of each UE, done, in the end, and the control messages are exactly those of the
  -- reports that name another cell than the last report of the same UE, in this order; each of these
  -- sends its `StateCreated`, `Approved` and `Done` events, and no other event is sent. It is supposed
  -- that each report's node is watched once, and that the builders make its message.
  pub receive_all-refines :
      (xs : List (Reported ies.Ueid)) (cells : Dict Text Text) (m : Memory ies.Ueid I C)
      → All (λ x. Served ies pdu nodes x (call_of x)) xs
      → Agrees cells m
      → (m' : Memory ies.Ueid I C) × (receive_all ies pdu nodes xs (length (events m)) m
          ≡ ok (length (events m'), m', messages call_of xs cells))
        × (signals m' ≡ signals m ++ events_of xs cells)
        × Agrees (cells_after xs cells) m'
  unfolding receive_all
  receive_all-refines [] cells m served agrees = (m, refl, sym (append-nil (signals m)), agrees)
  receive_all-refines (x ∷ xs) cells m served agrees =
      let (m1, first, sent1, agrees1) =
        receive_lem ies pdu nodes call_of x cells m agrees served.0 _ refl (agrees x.0.key) in
      let cells1 = insert Text-discrete x.0.key x.0.tgt_cell_id cells in
      let (m2, later, sent2, agrees2) = receive_all-refines xs cells1 m1 served.1 agrees1 in
      (
        m2,
        rw (first, receive_all) (rw later refl),
        sent2 ∙ (rw sent1 (append_assoc (signals m) _ _)),
        agrees2,
      )
