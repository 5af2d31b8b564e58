-- ===== src/Monitor/Loop/Laws.antt =====
-- pkg/monitoring/monitor.go, `Start`: what it returns, and when monitoring stops.
use onos_mho.Base.{◌≡◌, refl, ap, ◌∙◌, ◌⊎◌, inr, Text, List, [], ◌∷◌, arith}
use onos_mho.Base.Result.{err, Error}
use onos_mho.Memory.{Memory}
use onos_mho.Monitor.{Indication, process_indication}
use onos_mho.Utils.Ies.{Ies}
use onos_mho.Monitor.Loop.{
  Reader, receiving, recv_failed, process_failed, selecting, returned, Loop, Event, received,
  failed, handover, cancel, zero_indication, process, meet, receive, step, run,
}

-- The goroutine stands at a write to `errCh`.
abbrev pub IsReporting : Reader → Error → Type 0
IsReporting r e = (r ≡ recv_failed e) ⊎ (r ≡ process_failed e)

module _ (ies : Ies) (node_id : Text) {I C : Type 0} where
  stuck_step :
      (v : Event) (l : Loop ies.Ueid I C) (e x : Error)
      → IsReporting l.reader e
      → l.waiter ≡ returned x
      → step ies node_id v l ≡ l
  unfolding step receive
  stuck_step (received i) l e x r w = ground arith
  stuck_step (failed y) l e x r w = ground arith
  stuck_step handover l e x r w = ground arith
  stuck_step cancel l e x r w = ground arith

  -- Once `Start` has returned, whether with an error or because its context was done, the next error
  -- of the goroutine stops it for good: nothing that happens later changes anything, so no further
  -- indication of the node reaches the store.
  pub second_error_stops :
      (es : List Event) (l : Loop ies.Ueid I C) (e x : Error)
      → IsReporting l.reader e
      → l.waiter ≡ returned x
      → run ies node_id es l ≡ l
  unfolding run
  second_error_stops [] l e x r w = refl
  second_error_stops (v ∷ es) l e x r w =
      ap (run ies node_id es) (stuck_step v l e x r w) ∙ second_error_stops es l e x r w

  -- While the goroutine reads and `Start` waits: an error of `processIndication` is what `Start`
  -- returns; the memory is what that call left, and the goroutine goes on to read.
  first_error_returned :
      (i : Indication) (l : Loop ies.Ueid I C) (e : Error) (m : Memory ies.Ueid I C)
      → l.reader ≡ receiving
      → l.waiter ≡ selecting
      → process_indication ies i node_id l.memory ≡ (m, err e)
      → run ies node_id (received i ∷ handover ∷ []) l
        ≡ record { reader = receiving; waiter = returned e; memory = m }
  unfolding run step receive meet process
  first_error_returned i l e m r w h = ground (arith, h)

  two_steps :
      (l : Loop ies.Ueid I C) (e x : Error) (m : Memory ies.Ueid I C)
      → l.reader ≡ receiving
      → l.waiter ≡ selecting
      → process_indication ies zero_indication node_id l.memory ≡ (m, err x)
      → step ies node_id handover (step ies node_id (failed e) l)
        ≡ record { reader = process_failed x; waiter = returned e; memory = m }
  unfolding step receive meet process
  two_steps l e x m r w h = ground (arith, h)

  -- While the goroutine reads and `Start` waits: an error of `Recv` is what `Start` returns; the
  -- goroutine then processes the empty indication, and if that fails, no later event changes anything.
  pub recv_error_stops :
      (es : List Event) (l : Loop ies.Ueid I C) (e x : Error) (m : Memory ies.Ueid I C)
      → l.reader ≡ receiving
      → l.waiter ≡ selecting
      → process_indication ies zero_indication node_id l.memory ≡ (m, err x)
      → run ies node_id (failed e ∷ handover ∷ es) l
        ≡ record { reader = process_failed x; waiter = returned e; memory = m }
  unfolding run
  recv_error_stops es l e x m r w h =
      let stopped : Loop ies.Ueid I C = record {
        reader = process_failed x;
        waiter = returned e;
        memory = m;
      } in
      ap (run ies node_id es) (two_steps l e x m r w h)
      ∙ second_error_stops es stopped x e (inr refl) refl
