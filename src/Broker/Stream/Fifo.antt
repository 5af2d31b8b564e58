-- ===== src/Broker/Stream/Fifo.antt =====
-- pkg/broker/stream.go: what a stream holds between its calls, and the order in which it gives it back.
use onos_mho.Base.{
  ◌≤◌, ◌≡◌, length, length-append, true, List, [], ◌∷◌, ◌++◌, append_assoc, append-nil,
  append-exchange, arith,
}
use onos_mho.Broker.Stream.{
  BufferedWriter, Drain, waiting, sending, stopped, buffer_max_size, new_buffered_writer, Call,
  sends, closes, drains, recvs, recvs_done, step, run,
}

module _ {D : Type 0} where
  -- The buffer is bounded; the goroutine waits only while it is empty, and stops only when it is
  -- empty and the writer closed.
  pub record IsValid (s : BufferedWriter D) : Type 0 where
    pub bounded : length s.buffer ≤ buffer_max_size
    pub waits_empty : s.drain ≡ waiting → s.buffer ≡ []
    pub stops_empty : s.drain ≡ stopped → s.buffer ≡ []
    pub stops_closed : s.drain ≡ stopped → s.closed ≡ true

  pub new-IsValid : IsValid (new_buffered_writer {D = D})
  unfolding new_buffered_writer
  new-IsValid = ground arith

  pub step-IsValid : (c : Call D) (s : BufferedWriter D) → IsValid s → IsValid (step c s).0
  unfolding step
  step-IsValid (sends ind) s v = ground (arith, length-append s.buffer (ind ∷ []))
  step-IsValid _ s v = ground arith

  -- From a valid state, whatever the calls and their order, the state that they leave is valid.
  run-IsValid : (cs : List (Call D)) (s : BufferedWriter D) → IsValid s → IsValid (run cs s).0
  unfolding run
  run-IsValid [] s v = v
  run-IsValid (c ∷ cs) s v = run-IsValid cs (step c s).0 (step-IsValid c s v)

  -- What has been accepted and not yet given, the oldest first.
  abbrev in_hand : Drain D → List D
  in_hand (sending ind) = ind ∷ []
  in_hand _ = []

  abbrev pub pending : BufferedWriter D → List D
  pending s = in_hand s.drain ++ s.buffer

  pub step_fifo :
      (c : Call D) (s : BufferedWriter D)
      → IsValid s
      → pending s ++ (step c s).1 ≡ (step c s).2 ++ pending (step c s).0
  unfolding step
  step_fifo (sends ind) s v =
      ground (arith, append-nil (pending s), append_assoc (in_hand s.drain) s.buffer (ind ∷ []))
  step_fifo closes s v = append-nil (pending s)
  step_fifo drains s v = ground (arith, append-nil (pending s))
  step_fifo recvs s v = ground (arith, append-nil (pending s))
  step_fifo recvs_done s v = append-nil (pending s)

  -- From any valid state, whatever the calls and their order: what was in hand and then accepted is
  -- what readers were given, in this order, followed by what is still in hand. Nothing is lost,
  -- repeated or reordered.
  pub run_fifo :
      (cs : List (Call D)) (s : BufferedWriter D)
      → IsValid s
      → pending s ++ (run cs s).1 ≡ (run cs s).2 ++ pending (run cs s).0
  unfolding run
  run_fifo [] s v = append-nil (pending s)
  run_fifo (c ∷ cs) s v =
      let t = (step c s).0 in
      append-exchange (pending s) (step c s).1 (step c s).2 (pending t) (run cs t).1 (run cs t).2
        (pending (run cs t).0) (step_fifo c s v) (run_fifo cs t (step-IsValid c s v))
