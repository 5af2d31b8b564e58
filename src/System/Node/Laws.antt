-- ===== src/System/Node/Laws.antt =====
-- The whole way of a node's indications, seen from outside: which of them reach the store.
use onos_mho.Base.{◌≡◌, refl, sym, ap, ◌∙◌, Text, List, [], ◌∷◌, ◌++◌, arith, ◌⊎◌, inl, inr}
use onos_mho.Base.Result.{err, Error, Result-cases}
use onos_mho.Broker.Stream.{BufferedWriter, send}
use onos_mho.Broker.Stream.Fifo.{pending}
use onos_mho.Memory.{Memory}
use onos_mho.Monitor.{Indication, read_indication}
use onos_mho.Monitor.Loop.{zero_indication}
use onos_mho.Southbound.Forwarding.{Forwarder, forwarding, ended, offer, forward}
use onos_mho.System.Node.{
  Node, NodeEvent, Own, offers, happens, closing, draining, receiving, giving_up, monitoring,
  as_happening, start, taken, offer_node, step, run,
}
use onos_mho.System.Pipeline as Pipeline
use onos_mho.System.Pipeline.{Pipeline, Happening, sends}
use onos_mho.System.Pipeline.Laws.{handle_all, run-handle_all}
use onos_mho.Utils.Ies.{Ies}

-- The calls that reach the pipeline: of an indication that is offered, `Send` while the goroutine
-- forwards.
abbrev moves_of : Forwarder → NodeEvent → List Happening
moves_of forwarding (offers ind) = sends ind ∷ []
moves_of ended (offers ind) = []
moves_of f (happens o) = as_happening o ∷ []

forward-writer :
    {D : Type 0} (ind : D) (w : BufferedWriter D) (f : Forwarder)
    → (forward ind (record { writer = w; forwarder = f })).writer ≡ (send ind w).0
unfolding forward
forward-writer ind w f = elim (Result-cases (send ind w).1) [
  | inl (x, e) ↦ rw (e, forward) refl
  | inr (inl (x, e)) ↦ rw (e, forward) refl
  | inr (inr e) ↦ rw (e, forward) refl
]

own_silent :
    (ies : Ies) (node_id : Text) {I C : Type 0} (o : Own) (p : Pipeline ies.Ueid I C)
    → (Pipeline.step ies node_id (as_happening o) p).1 ≡ []
unfolding Pipeline.step
own_silent ies node_id closing p = refl
own_silent ies node_id draining p = refl
own_silent ies node_id receiving p = refl
own_silent ies node_id giving_up p = refl
own_silent ies node_id (monitoring e) p = refl

module _ (ies : Ies) (node_id : Text) {I C : Type 0} where
  abbrev moves : List NodeEvent → Node ies.Ueid I C → List Happening
  moves [] n = []
  moves (e ∷ es) n = moves_of n.forwarder e ++ moves es (step ies node_id e n).0

  -- What the pipeline does with the calls of one event, and then with others.
  step_follows :
      (f : Forwarder) (e : NodeEvent) (p : Pipeline ies.Ueid I C) (hs : List Happening)
      → let (n', _, sent') = step ies node_id e (record { forwarder = f; pipeline = p }) in
        let (q, sent, _) = Pipeline.run ies node_id (moves_of f e ++ hs) p in
        let (q', sent'', _) = Pipeline.run ies node_id hs n'.pipeline in
        (q ≡ q') × (sent ≡ sent' ++ sent'')
  unfolding step offer_node offer taken Pipeline.run Pipeline.step
  step_follows forwarding (offers ind) p hs =
      rw (forward-writer ind p.writer forwarding) (refl, refl)
  step_follows ended (offers ind) p hs = (refl, refl)
  step_follows forwarding (happens o) p hs = rw (own_silent ies node_id o p) (refl, refl)
  step_follows ended (happens o) p hs = rw (own_silent ies node_id o p) (refl, refl)

  run_follows :
      (es : List NodeEvent) (n : Node ies.Ueid I C)
      → let (n', _, sent') = run ies node_id es n in
        let (q, sent, _) = Pipeline.run ies node_id (moves es n) n.pipeline in
        (q ≡ n'.pipeline) × (sent ≡ sent')
  unfolding run Pipeline.run
  run_follows [] n = (refl, refl)
  run_follows (e ∷ es) n =
      let (n1, _, sent1) = step ies node_id e n in
      let (same, said) = step_follows n.forwarder e n.pipeline (moves es n1) in
      let (same', said') = run_follows es n1 in (same ∙ same', said ∙ ap (λ s. sent1 ++ s) said')

  -- Once the goroutine has returned it stays so, and nothing more is accepted.
  ended_run :
      (es : List NodeEvent) (n : Node ies.Ueid I C)
      → n.forwarder ≡ ended
      → let (n', _, sent) = run ies node_id es n in (n'.forwarder ≡ ended) × (sent ≡ [])
  unfolding run step offer_node offer taken
  ended_run [] n e = (e, refl)
  ended_run (offers ind ∷ es) n e = rw e (ended_run es _ refl)
  ended_run (happens o ∷ es) n e = ended_run es _ e

  -- An indication that is offered while the goroutine forwards is accepted, or ends it.
  offer_cases :
      (ind : Indication) (n : Node ies.Ueid I C)
      → n.forwarder ≡ forwarding
      → let (n', _, sent) = step ies node_id (offers ind) n in
        ((n'.forwarder ≡ forwarding) × (sent ≡ ind ∷ [])) ⊎ ((n'.forwarder ≡ ended) × (sent ≡ []))
  unfolding step offer_node offer taken forward
  offer_cases ind n f = elim (Result-cases (send ind n.pipeline.writer).1) [
    | inl (x, e) ↦ inl (ground (arith, f, e))
    | inr (inl (x, e)) ↦ inr (ground (arith, f, e))
    | inr (inr e) ↦ inr (ground (arith, f, e))
  ]

  -- What the stream accepts is a prefix of what is offered, and all of it while the goroutine forwards.
  Prefix : Node ies.Ueid I C × List Indication × List Indication → Type 0
  Prefix (n, offered, sent) =
      (lost : List Indication) × (offered ≡ sent ++ lost) × (n.forwarder ≡ forwarding → lost ≡ [])

  run-Prefix :
      (es : List NodeEvent) (n : Node ies.Ueid I C)
      → n.forwarder ≡ forwarding
      → Prefix (run ies node_id es n)
  unfolding run step Prefix
  run-Prefix [] n f = ([], refl, λ _. refl)
  run-Prefix (offers ind ∷ es) n f = elim (offer_cases ind n f) [
    | inl (f', e) ↦
        let n' = (step ies node_id (offers ind) n).0 in
        let (lost, split, none_lost) = run-Prefix es n' f' in
        let (_, _, sents) = run ies node_id es n' in
        (lost, ap (λ xs. ind ∷ xs) split ∙ ap (λ xs. (xs ++ sents) ++ lost) (sym e), none_lost)
    | inr (f', e) ↦
        let n' = (step ies node_id (offers ind) n).0 in
        let (_, offereds, sents) = run ies node_id es n' in
        let (stays, nothing) = ended_run es n' f' in
        (
          ind ∷ offereds,
          ap (λ xs. xs ++ ind ∷ offereds) (sym (ap (λ xs. xs ++ sents) e ∙ nothing)),
          λ still. absurd (ground (arith, stays)),
        )
  ]
  run-Prefix (happens o ∷ es) n f = run-Prefix es _ f

  -- A node whose forwarding goroutine, stream and monitor have just been started, where an indication
  -- with no bytes is refused before the store is read: whatever happens and in whichever order, the
  -- indications that the node has offered are, in their order, first those that have been handled, then
  -- those that are in the stream, then those that are lost; the store is what `processIndication` makes
  -- of the first, one after the other and each once; and none are lost while the goroutine forwards.
  pub run-offered :
      (x : Error)
      → read_indication ies zero_indication ≡ err x
      → (es : List NodeEvent) (m : Memory ies.Ueid I C)
      → let (n, offered, _) = run ies node_id es (start m) in
        (handled : List Indication) × (lost : List Indication) × (offered
          ≡ (handled ++ pending n.pipeline.writer) ++ lost)
        × (n.pipeline.monitor.memory ≡ handle_all ies node_id handled m)
        × (n.forwarder ≡ forwarding → lost ≡ [])
  unfolding start Prefix
  run-offered x refused es m =
      let (lost, split, none_lost) = run-Prefix es (start m) refl in
      let (same, said) = run_follows es (start m) in
      let (handled, memory, passed) = run-handle_all ies node_id x refused (moves es (start m)) m in
      (
        handled,
        lost,
        split
            ∙ ap (λ xs. xs ++ lost)
                (sym said ∙ passed ∙ ap (λ p. handled ++ pending p.writer) same),
        ap (λ p. p.monitor.memory) (sym same) ∙ memory,
        none_lost,
      )
