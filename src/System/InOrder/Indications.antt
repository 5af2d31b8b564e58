-- ===== src/System/InOrder/Indications.antt =====
-- The program from the bytes of the indications to the control messages, with events in order.
use onos_mho.Base.{ℕ, ◌≡◌, refl, ◌∙◌, Text, length, List, [], ◌∷◌, ◌++◌, map, All, inl, inr}
use onos_mho.Base.Dict.{Dict}
use onos_mho.Base.Result.{ok, Result-cases}
use onos_mho.Memory.{Memory, events, signals}
use onos_mho.Utils.Ies.{Ies, PduBuilder}
use onos_mho.Monitor.{Indication, Report, read_indication, process_indication}
use onos_mho.Southbound.Handover.{ControlCall}
use onos_mho.System.InOrder.{
  Reported, receive, receive_all, receive_indication, receive_indications,
}
use onos_mho.System.InOrder.Delivery.{Served}
use onos_mho.System.InOrder.Spec.{Agrees, messages, events_of, cells_after}
use onos_mho.System.InOrder.Laws.{receive_all-refines}

module _ (ies : Ies) (report_of : Indication → Report ies.Ueid) where
  -- The indication decodes to the report that stands for it.
  abbrev pub Reads : Indication × Text → Type 0
  Reads x = read_indication ies x.0 ≡ ok (report_of x.0)

  abbrev pub reports : List (Indication × Text) → List (Reported ies.Ueid)
  reports = map (λ x. (report_of x.0, x.1))

module _ (ies : Ies) (pdu : PduBuilder ies) {I C : Type 0} (nodes : List Text)
    (report_of : Indication → Report ies.Ueid) where
  receive_indication-eq-receive :
      (x : Indication × Text) (at : ℕ) (m : Memory ies.Ueid I C)
      → Reads ies report_of x
      → receive_indication ies pdu nodes x at m ≡ receive ies pdu nodes (report_of x.0, x.1) at m
  unfolding receive_indication receive process_indication
  receive_indication-eq-receive x at m e = rw (e, process_indication) refl

  receive_indications-eq-receive_all :
      (xs : List (Indication × Text)) (at : ℕ) (m : Memory ies.Ueid I C)
      → All (Reads ies report_of) xs
      → receive_indications ies pdu nodes xs at m
        ≡ receive_all ies pdu nodes (reports ies report_of xs) at m
  unfolding receive_indications receive_all
  receive_indications-eq-receive_all [] at m h = refl
  receive_indications-eq-receive_all (x ∷ xs) at m h =
      elim (Result-cases (receive ies pdu nodes (report_of x.0, x.1) at m)) [
        | inl (v, e) ↦
            rw
              (
                receive_indication-eq-receive x at m h.0,
                e,
                receive_all,
                receive_indications-eq-receive_all xs v.0 v.1 h.1,
              )
              refl
        | inr (inl (y, e)) ↦ rw (receive_indication-eq-receive x at m h.0, e) refl
        | inr (inr e) ↦ rw (receive_indication-eq-receive x at m h.0, e) refl
      ]

  -- Indications that come one after the other, each with all the events that follow from it delivered in
  -- order before the next, to a program whose store holds only values that are done: the monitors, the
  -- controller and the nodes' watchers get through without an error; the control messages sent are
  -- exactly those of the indications that name another target cell than the last one of the same UE, in
  -- this order; each of these sends its `StateCreated`, `Approved` and `Done` events, and no other event
  -- is sent; and the store holds the last target cell of each UE, done, in the end. It is supposed
  -- that each indication decodes, that its node is watched once, and that the builders make the
  -- message of its report.
  pub receive_indications_lem :
      (call_of : Reported ies.Ueid → ControlCall) (xs : List (Indication × Text))
      (cells : Dict Text Text) (m : Memory ies.Ueid I C)
      → All (Reads ies report_of) xs
      → All (λ x. Served ies pdu nodes x (call_of x)) (reports ies report_of xs)
      → Agrees cells m
      → (m' : Memory ies.Ueid I C) × (receive_indications ies pdu nodes xs (length (events m)) m
          ≡ ok (length (events m'), m', messages call_of (reports ies report_of xs) cells))
        × (signals m' ≡ signals m ++ events_of (reports ies report_of xs) cells)
        × Agrees (cells_after (reports ies report_of xs) cells) m'
  receive_indications_lem call_of xs cells m reads served agrees =
      let (m', ran, sent, agrees') =
        receive_all-refines ies pdu nodes call_of (reports ies report_of xs) cells m served
          agrees in
      (m', receive_indications-eq-receive_all xs (length (events m)) m reads ∙ ran, sent, agrees')
