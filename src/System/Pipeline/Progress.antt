-- ===== src/System/Pipeline/Progress.antt =====
-- The pipeline of a node makes progress: what the stream holds reaches the store.
use onos_mho.Base.{◌≡◌, refl, ap, ◌∙◌, Text, List, [], ◌∷◌, Bool}
use onos_mho.Base.Result.{ok}
use onos_mho.Broker.Stream.{looping, drain, recv}
use onos_mho.Memory.{Memory}
use onos_mho.Monitor.{Indication, process_indication}
use onos_mho.Monitor.Loop.{receiving, Waiter, receive, process}
use onos_mho.System.Pipeline.{
  Pipeline, Happening, drains, receives, take_answer, recv_where, step, run,
}
use onos_mho.System.Pipeline.Laws.{handle_all}
use onos_mho.Utils.Ies.{Ies}

-- For each indication one step of the stream's goroutine and one `Recv` of the monitor.
abbrev pub rounds : {A : Type 0} → List A → List Happening
rounds [] = []
rounds (x ∷ xs) = drains ∷ receives ∷ rounds xs

module _ (ies : Ies) (node_id : Text) {I C : Type 0} where
  -- Each of the indications is accepted when its turn comes.
  abbrev pub AllAccepted : List Indication → Memory ies.Ueid I C → Type 0
  AllAccepted [] m = Unit
  AllAccepted (i ∷ is) m =
      let (m', r) = process_indication ies i node_id m in (r ≡ ok tt) × AllAccepted is m'

  -- The stream's goroutine and the monitor's at the top of their loops.
  abbrev pub ready : List Indication → Bool → Waiter → Memory ies.Ueid I C → Pipeline ies.Ueid I C
  ready held closed waiter m = record {
    writer = record { buffer = held; closed = closed; drain = looping };
    monitor = record { reader = receiving; waiter = waiter; memory = m };
  }

  round :
      (i : Indication) (is : List Indication) (closed : Bool) (waiter : Waiter)
      (m : Memory ies.Ueid I C)
      → (process_indication ies i node_id m).1 ≡ ok tt
      → (step ies node_id receives (step ies node_id drains (ready (i ∷ is) closed waiter m)).0).0
        ≡ ready is closed waiter (process_indication ies i node_id m).0
  unfolding step drain recv recv_where take_answer receive process
  round i is closed waiter m e = rw (e, process) refl

  -- With the goroutines of the stream and of the monitor at the top of their loops, the stream closed
  -- or not, `Start` returned or not: if each of the held indications is accepted when its turn comes,
  -- one turn of the two goroutines per indication brings all of them into the store, in their order,
  -- and leaves the stream empty and both goroutines at the top of their loops again.
  pub run-rounds :
      (is : List Indication) (closed : Bool) (waiter : Waiter) (m : Memory ies.Ueid I C)
      → AllAccepted is m
      → (run ies node_id (rounds is) (ready is closed waiter m)).0
        ≡ ready [] closed waiter (handle_all ies node_id is m)
  unfolding run
  run-rounds [] closed waiter m h = refl
  run-rounds (i ∷ is) closed waiter m h =
      ap (λ p. (run ies node_id (rounds is) p).0) (round i is closed waiter m h.0)
      ∙ run-rounds is closed waiter (process_indication ies i node_id m).0 h.1
