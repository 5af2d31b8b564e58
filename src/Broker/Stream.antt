-- ===== src/Broker/Stream.antt =====
-- pkg/broker/stream.go: a buffered stream, its writer, its reader and the goroutine between them.
-- `D` is the type of indications, `N` of E2 nodes, `S` of subscription specifications, which are all
-- types of other packages. Whatever runs under `cond.L`, and each step of the goroutine between two
-- points where it can block, is one atomic step.
pub mod Fifo
pub mod Closing
use onos_mho.Base.{
  ℕ, ◌==◌, Text, length, Bool, true, false, if◌then◌else◌, List, [], ◌∷◌, ◌++◌, Option, none, some,
}
use onos_mho.Base.Result.{Result, ok, err, eof, canceled, unavailable}

abbrev pub buffer_max_size : ℕ
buffer_max_size = 10000

-- `bufferedIO`
pub record BufferedIo (N S : Type 0) : Type 0 where
  pub sub_spec : S
  pub stream_id : ℕ
  pub channel_id : Text
  pub node : N
  pub sub_name : Text

-- Where the goroutine of `drain` stands: at the top of its loop, in `cond.Wait` under `next`, at
-- `s.ch <- ind`, or past the loop, when it has closed the channel.
pub data Drain (D : Type 0) : Type 0 where
  looping waiting : Drain D
  sending : D → Drain D
  stopped : Drain D

-- `bufferedWriter`, with its goroutine. The channel that reader and writer share has no buffer: a
-- value passes when the goroutine is `sending`, and the channel is closed when it has `stopped`.
pub record BufferedWriter (D : Type 0) : Type 0 where
  pub buffer : List D
  pub closed : Bool
  pub drain : Drain D

-- `bufferedStream`
pub record Stream (D N S : Type 0) : Type 0 where
  pub io : BufferedIo N S
  pub writer : BufferedWriter D

module _ {D : Type 0} where
  -- `newBufferedWriter` starts the goroutine by `open`.
  unfoldable pub new_buffered_writer : BufferedWriter D
  new_buffered_writer = record { buffer = []; closed = false; drain = looping }

  -- `cond.Signal`: the goroutine is the only one that ever waits.
  unfoldable pub signal : Drain D → Drain D
  signal looping = looping
  signal waiting = looping
  signal (sending ind) = sending ind
  signal stopped = stopped

  unfoldable pub send : D → BufferedWriter D → BufferedWriter D × Result (Unit {0})
  unfolding signal
  send ind s =
      if s.closed
      then (s, err eof)
      else if length s.buffer == buffer_max_size
      then (s, err unavailable)
      else (record s { buffer = s.buffer ++ ind ∷ []; drain = signal s.drain }, ok tt)

  -- `Close` sets the flag, and does not signal.
  unfoldable pub close : BufferedWriter D → BufferedWriter D × Result (Unit {0})
  close s = (record s { closed = true }, ok tt)

  -- `next`, from the top of its loop to where it returns or waits, and what `drain` does with it.
  unfoldable pub next : BufferedWriter D → BufferedWriter D
  next s = elim s.buffer [
    | [] ↦ if s.closed then record s { drain = stopped } else record s { drain = waiting }
    | ind ∷ rest ↦ record s { buffer = rest; drain = sending ind }
  ]

  -- A step of the goroutine on its own: only at the top of its loop can it make one.
  unfoldable pub drain_step : Drain D → BufferedWriter D → BufferedWriter D
  unfolding next
  drain_step looping s = next s
  drain_step waiting s = s
  drain_step (sending ind) s = s
  drain_step stopped s = s

  unfoldable pub drain : BufferedWriter D → BufferedWriter D
  unfolding drain_step
  drain s = drain_step s.drain s

  -- `Recv`, by the case of its `select` that is taken: the channel's, with `none` where the reader
  -- blocks, or that of the context, which is done.
  recv_at : Drain D → BufferedWriter D → BufferedWriter D × Option (Result D)
  recv_at looping s = (s, none)
  recv_at waiting s = (s, none)
  recv_at (sending ind) s = (record s { drain = looping }, some (ok ind))
  recv_at stopped s = (s, some (err eof))

  unfoldable pub recv : BufferedWriter D → BufferedWriter D × Option (Result D)
  unfolding recv_at
  recv s = recv_at s.drain s

  unfoldable pub recv_done : BufferedWriter D → BufferedWriter D × Option (Result D)
  recv_done s = (s, some (err canceled))

-- `newBufferedStream`
unfoldable pub new_buffered_stream : {D N S : Type 0} → N → Text → ℕ → Text → S → Stream D N S
unfolding new_buffered_writer
new_buffered_stream node sub_name stream_id channel_id sub_spec = record {
  io = record {
    sub_spec = sub_spec;
    stream_id = stream_id;
    channel_id = channel_id;
    node = node;
    sub_name = sub_name;
  };
  writer = new_buffered_writer;
}

-- What can happen to a stream, in any order: a call of a writer, of a reader, of `Close`, or a step of
-- the goroutine.
pub data Call (D : Type 0) : Type 0 where
  sends : D → Call D
  closes drains recvs recvs_done : Call D

module _ {D : Type 0} where
  -- The next state, the indication that a writer got accepted and the one that a reader was given.
  abbrev pub accepted : D → Result (Unit {0}) → List D
  accepted ind (ok _) = ind ∷ []
  accepted ind _ = []

  abbrev pub given : Option (Result D) → List D
  given (some (ok ind)) = ind ∷ []
  given _ = []

  unfoldable pub step : Call D → BufferedWriter D → BufferedWriter D × List D × List D
  unfolding send close drain recv recv_done
  step (sends ind) s = let (s', r) = send ind s in (s', accepted ind r, [])
  step closes s = ((close s).0, [], [])
  step drains s = (drain s, [], [])
  step recvs s = let (s', r) = recv s in (s', [], given r)
  step recvs_done s = let (s', r) = recv_done s in (s', [], given r)

  -- All that was accepted and all that was given, in the order of the calls.
  unfoldable pub run : List (Call D) → BufferedWriter D → BufferedWriter D × List D × List D
  run [] s = (s, [], [])
  run (c ∷ cs) s =
      let (s', sent, got) = step c s in
      let (s'', sents, gots) = run cs s' in (s'', sent ++ sents, got ++ gots)
