-- ===== src/Broker/Stream/Closing.antt =====
-- pkg/broker/stream.go: which calls a stream accepts, and how it ends once its writer is closed.
use onos_mho.Base.{
  ℕ, zero, suc, ◌<◌, ◌≡◌, refl, ◌≢◌, ◌↔◌, length, true, false, List, [], ◌∷◌, none, some, arith,
}
use onos_mho.Base.Result.{ok, err, eof}
use onos_mho.Broker.Stream.{
  BufferedWriter, Drain, looping, waiting, sending, stopped, buffer_max_size, send, close, drain,
  recv, Call, sends, drains, recvs, step, run,
}
use onos_mho.Broker.Stream.Fifo.{IsValid, pending}

module _ {D : Type 0} where
  -- In a valid state `Send` succeeds exactly when the writer is open and the buffer holds fewer than
  -- 10000 indications; whenever it fails, it leaves the stream as it was.
  send_accepts :
      (ind : D) (s : BufferedWriter D)
      → IsValid s
      → (((send ind s).1 ≡ ok tt) ↔ ((s.closed ≡ false) × (length s.buffer < buffer_max_size)))
        × ((send ind s).1 ≢ ok tt → (send ind s).0 ≡ s)
  unfolding send
  send_accepts ind s v = ground arith

  hung_step :
      (c : Call D) (s : BufferedWriter D)
      → s.drain ≡ waiting
      → s.closed ≡ true
      → ((step c s).0 ≡ s) × ((step c s).1 ≡ []) × ((step c s).2 ≡ [])
  unfolding step
  hung_step (sends ind) s w e = ground arith
  hung_step _ s w e = ground arith

  hung_run :
      (cs : List (Call D)) (s : BufferedWriter D)
      → s.drain ≡ waiting
      → s.closed ≡ true
      → ((run cs s).0 ≡ s) × ((run cs s).1 ≡ []) × ((run cs s).2 ≡ [])
  unfolding run
  hung_run [] s w e = (refl, refl, refl)
  hung_run (c ∷ cs) s w e = ground (arith, hung_step c s w e, hung_run cs s w e)

  -- If the writer is closed while the goroutine waits for an indication, nothing that can happen later
  -- changes the stream: the goroutine waits for ever, no indication is accepted or given, and a reader
  -- blocks instead of getting EOF.
  pub close_while_waiting_hangs :
      (cs : List (Call D)) (s : BufferedWriter D)
      → s.drain ≡ waiting
      → let later = run cs (close s).0 in
        (later.0 ≡ (close s).0) × (later.1 ≡ []) × (later.2 ≡ []) × ((recv later.0).1 ≡ none)
  unfolding close recv
  close_while_waiting_hangs cs s w = ground (arith, hung_run cs (close s).0 w refl)

  -- The goroutine and a reader in turns, `n` times.
  abbrev pub turns : ℕ → List (Call D)
  turns zero = []
  turns (suc n) = drains ∷ recvs ∷ turns n

  turns_drain :
      (buffer : List D) (s : BufferedWriter D)
      → s.buffer ≡ buffer
      → s.drain ≡ looping
      → ((run (turns (length buffer)) s).0 ≡ record s { buffer = [] })
        × ((run (turns (length buffer)) s).2 ≡ buffer)
  unfolding run step
  turns_drain [] s b d = ground arith
  turns_drain (ind ∷ rest) s b d =
      ground (arith, turns_drain rest (record s { buffer = rest; drain = looping }) refl refl)

  drains_from :
      (d : Drain D) (s : BufferedWriter D)
      → IsValid s
      → s.drain ≡ d
      → d ≢ waiting
      → let later = run (recvs ∷ turns (length s.buffer)) (close s).0 in
        (later.2 ≡ pending s) × ((recv (drain later.0)).1 ≡ some (err eof))
  unfolding close recv drain run step
  drains_from looping s v d n = ground (arith, turns_drain s.buffer (close s).0 refl d)
  drains_from waiting s v d n = absurd (n refl)
  drains_from (sending ind) s v d n =
      ground (arith, turns_drain s.buffer (record s { closed = true; drain = looping }) refl refl)
  drains_from stopped s v d n = ground (arith, v.stops_empty d)

  -- If the goroutine does not wait when the writer is closed, the reader is given all that the stream
  -- holds, in order, as a reader and the goroutine take turns, and then EOF.
  pub close_drains :
      (s : BufferedWriter D)
      → IsValid s
      → s.drain ≢ waiting
      → let later = run (recvs ∷ turns (length s.buffer)) (close s).0 in
        (later.2 ≡ pending s) × ((recv (drain later.0)).1 ≡ some (err eof))
  close_drains s v n = drains_from s.drain s v refl n
