-- ===== src/System/Pipeline/Laws.antt =====
-- The pipeline of a node, seen from outside: the store after any run.
use onos_mho.Base.{
  ◌≡◌, refl, sym, ap, ◌∙◌, Text, List, [], ◌∷◌, ◌++◌, append-nil, append-exchange, arith, Option,
  none, some,
}
use onos_mho.Base.Result.{Result, ok, err, panic, Error}
use onos_mho.Broker.Stream.{
  BufferedWriter, recv, recv_done, given, step as stream_step, sends as call_send,
  closes as call_close, drains as call_drain, recvs as call_recv, recvs_done as call_recv_done,
}
use onos_mho.Broker.Stream.Fifo.{IsValid, new-IsValid, step-IsValid, step_fifo, pending}
use onos_mho.Memory.{Memory}
use onos_mho.Monitor.{Indication, read_indication, process_indication}
use onos_mho.Monitor.Loop.{
  Reader, receiving, recv_failed, process_failed, panicked, Loop, Event, received, failed, handover,
  cancel, selecting, returned, zero_indication, receive, process, meet, step as loop_step,
}
use onos_mho.System.Pipeline.{
  Pipeline, Happening, sends, closes, drains, receives, receives_done, monitors, start, own_step,
  take_answer, recv_where, step, run,
}
use onos_mho.Utils.Ies.{Ies}

module _ (ies : Ies) (node_id : Text) {I C : Type 0} where
  -- The specification: the indications, one after the other, through `processIndication`.
  abbrev pub handle_all : List Indication → Memory ies.Ueid I C → Memory ies.Ueid I C
  handle_all [] m = m
  handle_all (i ∷ is) m = handle_all is (process_indication ies i node_id m).0

  handle_all-append :
      (is js : List Indication) (m : Memory ies.Ueid I C)
      → handle_all (is ++ js) m ≡ handle_all js (handle_all is m)
  handle_all-append [] js m = refl
  handle_all-append (i ∷ is) js m = handle_all-append is js (process_indication ies i node_id m).0

  -- A step of the stream, by what passes and what is left in it.
  abbrev Flows :
      BufferedWriter Indication → Pipeline ies.Ueid I C × List Indication × List Indication → Type 0
  Flows w (p', sent, got) = (pending w ++ sent ≡ got ++ pending p'.writer) × IsValid p'.writer

  recv_where-Flows :
      (r : Reader) (p : Pipeline ies.Ueid I C)
      (answer : BufferedWriter Indication × Option (Result Indication))
      → IsValid p.writer
      → pending p.writer ++ [] ≡ given answer.1 ++ pending answer.0
      → IsValid answer.0
      → let (p', got) = recv_where ies node_id r answer p in Flows p.writer (p', [], got)
  unfolding recv_where take_answer
  recv_where-Flows receiving p (w, none) v e v' = (e, v')
  recv_where-Flows receiving p (w, some r) v e v' = (e, v')
  recv_where-Flows _ p answer v e v' = (append-nil (pending p.writer), v)

  step-Flows :
      (h : Happening) (p : Pipeline ies.Ueid I C)
      → IsValid p.writer
      → Flows p.writer (step ies node_id h p)
  unfolding step stream_step
  step-Flows (sends ind) p v =
      (step_fifo (call_send ind) p.writer v, step-IsValid (call_send ind) p.writer v)
  step-Flows closes p v = (step_fifo call_close p.writer v, step-IsValid call_close p.writer v)
  step-Flows drains p v = (step_fifo call_drain p.writer v, step-IsValid call_drain p.writer v)
  step-Flows receives p v =
      recv_where-Flows p.monitor.reader p (recv p.writer) v (step_fifo call_recv p.writer v)
        (step-IsValid call_recv p.writer v)
  step-Flows receives_done p v =
      recv_where-Flows p.monitor.reader p (recv_done p.writer) v
        (step_fifo call_recv_done p.writer v) (step-IsValid call_recv_done p.writer v)
  step-Flows (monitors e) p v = (append-nil (pending p.writer), v)

  run-Flows :
      (hs : List Happening) (p : Pipeline ies.Ueid I C)
      → IsValid p.writer
      → Flows p.writer (run ies node_id hs p)
  unfolding run
  run-Flows [] p v = (append-nil (pending p.writer), v)
  run-Flows (h ∷ hs) p v =
      let (p', sent, got) = step ies node_id h p in
      let (flow, v') = step-Flows h p v in
      let (p'', sents, gots) = run ies node_id hs p' in
      let (flows, v'') = run-Flows hs p' v' in
      (
        append-exchange (pending p.writer) sent got (pending p'.writer) sents gots
            (pending p''.writer) flow flows,
        v'',
      )

  module _ (x : Error) (refused : read_indication ies zero_indication ≡ err x) where
    zero_refused :
        (m : Memory ies.Ueid I C) → process_indication ies zero_indication node_id m ≡ (m, err x)
    unfolding process_indication
    zero_refused m = rw (refused, process_indication) refl

    meet_memory : (r : Reader) (l : Loop ies.Ueid I C) → (meet ies node_id r l).memory ≡ l.memory
    unfolding meet process
    meet_memory receiving l = refl
    meet_memory (recv_failed e) l = ap (λ q. q.0) (zero_refused l.memory)
    meet_memory (process_failed e) l = refl
    meet_memory panicked l = refl

    own_step_memory :
        (e : Event) (l : Loop ies.Ueid I C) → (own_step ies node_id e l).memory ≡ l.memory
    unfolding own_step loop_step
    own_step_memory (received i) l = refl
    own_step_memory (failed e) l = refl
    own_step_memory handover l =
        elim l.waiter
          as (λ w.
            Loop.memory (elim w [ selecting ↦ meet ies node_id l.reader l | returned _ ↦ l ])
            ≡ l.memory) [ selecting ↦ meet_memory l.reader l | returned _ ↦ refl ]
    own_step_memory cancel l = ground arith

    recv_where_memory :
        (r : Reader) (answer : BufferedWriter Indication × Option (Result Indication))
        (p : Pipeline ies.Ueid I C)
        → let (p', got) = recv_where ies node_id r answer p in
          p'.monitor.memory ≡ handle_all got p.monitor.memory
    unfolding recv_where take_answer receive process
    recv_where_memory receiving (w, none) p = refl
    recv_where_memory receiving (w, some (ok i)) p = refl
    recv_where_memory receiving (w, some (err e)) p = refl
    recv_where_memory receiving (w, some panic) p = refl
    recv_where_memory _ answer p = refl

    step_memory :
        (h : Happening) (p : Pipeline ies.Ueid I C)
        → let (p', _, got) = step ies node_id h p in
          p'.monitor.memory ≡ handle_all got p.monitor.memory
    unfolding step
    step_memory (sends ind) p = refl
    step_memory closes p = refl
    step_memory drains p = refl
    step_memory receives p = recv_where_memory p.monitor.reader (recv p.writer) p
    step_memory receives_done p = recv_where_memory p.monitor.reader (recv_done p.writer) p
    step_memory (monitors e) p = own_step_memory e p.monitor

    run_memory :
        (hs : List Happening) (p : Pipeline ies.Ueid I C)
        → let (p', _, gots) = run ies node_id hs p in
          p'.monitor.memory ≡ handle_all gots p.monitor.memory
    unfolding run
    run_memory [] p = refl
    run_memory (h ∷ hs) p =
        let (p', _, got) = step ies node_id h p in
        run_memory hs p'
        ∙ ap (handle_all (run ies node_id hs p').2) (step_memory h p)
        ∙ sym (handle_all-append got (run ies node_id hs p').2 p.monitor.memory)

    -- For a node whose stream and monitor have just been made, and where an indication with no bytes
    -- is refused before the store is read: whatever the calls and their order, there is a list of
    -- indications such that the store is what `processIndication` makes of these, one after the other
    -- and each once, and these followed by what is still in the stream are all the indications that
    -- the stream accepted, in their order.
    pub run-handle_all :
        (hs : List Happening) (m : Memory ies.Ueid I C)
        → let (p, sent, _) = run ies node_id hs (start m) in
          (handled : List Indication) × (p.monitor.memory ≡ handle_all handled m)
          × (sent ≡ handled ++ pending p.writer)
    unfolding start
    run-handle_all hs m =
        let p = start m in
        ((run ies node_id hs p).2, run_memory hs p, (run-Flows hs p new-IsValid).0)
