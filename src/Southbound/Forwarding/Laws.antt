-- ===== src/Southbound/Forwarding/Laws.antt =====
-- pkg/southbound/e2/manager.go: what becomes of indications once the buffer was full or closed.
use onos_mho.Base.{◌≡◌, refl, ◌∙◌, ap, length, true, List, [], ◌∷◌, ◌⊎◌, arith}
use onos_mho.Broker.Stream.{BufferedWriter, buffer_max_size, send, Call, run, step}
use onos_mho.Southbound.Forwarding.{
  forwarding, ended, Pipe, Happening, offered, stream_call, forward, offer, happen, happen_all,
}

-- The calls of the stream among what happens, without the indications that are offered.
abbrev pub calls_only : {D : Type 0} → List (Happening D) → List (Call D)
calls_only [] = []
calls_only (offered msg ∷ hs) = calls_only hs
calls_only (stream_call c ∷ hs) = c ∷ calls_only hs

module _ {D : Type 0} where
  ended_stays :
      (hs : List (Happening D)) (p : Pipe D)
      → p.forwarder ≡ ended
      → happen_all hs p ≡ record { writer = (run (calls_only hs) p.writer).0; forwarder = ended }
  unfolding happen_all happen offer run
  ended_stays [] p e = ground arith
  ended_stays (offered msg ∷ hs) p e =
      let same : happen (offered msg) p ≡ p = ground arith in
      ap (happen_all hs) same ∙ ended_stays hs p e
  ended_stays (stream_call c ∷ hs) p e =
      ended_stays hs (record p { writer = (step c p.writer).0 }) e

  -- An indication that is offered while the buffer is full, or after the writer was closed, is lost and
  -- ends the forwarding: from then on the stream goes as if nothing were offered, however much room
  -- the reader makes in the buffer and whatever the node still sends.
  pub refused_ends_forwarding :
      (msg : D) (hs : List (Happening D)) (w : BufferedWriter D)
      → (w.closed ≡ true) ⊎ (length w.buffer ≡ buffer_max_size)
      → happen_all (offered msg ∷ hs) (record { writer = w; forwarder = forwarding })
        ≡ record { writer = (run (calls_only hs) w).0; forwarder = ended }
  unfolding happen_all happen offer forward send
  refused_ends_forwarding msg hs w refused =
      ap (happen_all hs) stops ∙ ended_stays hs (record { writer = w; forwarder = ended }) refl
    where
      stops :
          happen (offered msg) (record { writer = w; forwarder = forwarding })
          ≡ record { writer = w; forwarder = ended }
      stops = ground arith
