-- ===== src/Broker/Registry/Reach/Laws.antt =====
-- pkg/broker/broker.go: what holds of a broker after any calls.
use onos_mho.Base.{
  ℕ, ◌+◌, ◌≡◌, refl, sym, ap, ◌∙◌, subst, Text, Text-discrete, ℕ_discrete, length, length-append,
  length-set, get_elem?, List, [], ◌∷◌, some, arith, Option-cases, ◌⊎◌, inl, inr,
}
use onos_mho.Base.Dict.{lookup, values}
use onos_mho.Base.Result.{Result, ok, Result-cases}
use onos_mho.Broker.Stream.{Stream, new_buffered_stream}
use onos_mho.Broker.Registry.{
  StreamBroker, new_broker, find_sub, open_stream, open_reader, get_writer, close_object,
  drop_stream, close_found, close_stream, close,
}
use onos_mho.Broker.Registry.Laws.{IsValid, new_broker-IsValid, open_stream-IsValid}
use onos_mho.Broker.Registry.Closing.{close_stream-IsValid}
use onos_mho.Broker.Registry.Reach.{Call, opens, registers, closes_stream, closes, step, run}
use onos_mho.Broker.Registry.Reach.Numbered.{
  Numbered, Numbered-append, Numbered-set, Numbered-get_elem?, close_all-get_elem?,
  close_all-Numbered,
}

module _ {D N S : Type 0} where
  -- The two maps agree, and the objects have the ids from 1 on, as many as have been handed out.
  pub record IsSound (b : StreamBroker D N S) : Type 0 where
    pub valid : IsValid b
    pub numbered : Numbered 0 b.objects
    pub counted : b.stream_id ≡ length b.objects

  pub new-IsSound : IsSound (new_broker {D = D} {N = N} {S = S})
  unfolding new_broker
  new-IsSound = record { valid = new_broker-IsValid; numbered = tt; counted = refl }

  close-IsValid : (b : StreamBroker D N S) → IsValid b → IsValid (close b).0
  unfolding close
  close-IsValid b v = record {
    subs_streams = λ c p e.
        let (s, at, own, id) = v.subs_streams c p e in
        let (s', at', same) = close_all-get_elem? (values b.streams) b.objects p s at in
        (
          s',
          at',
          ap (λ io. io.channel_id) same ∙ own,
          ap (λ io. lookup ℕ_discrete io.stream_id b.streams) same ∙ id,
        );
    streams_fresh = v.streams_fresh;
    streams_own = λ i p e.
        let (s, at, own) = v.streams_own i p e in
        let (s', at', same) = close_all-get_elem? (values b.streams) b.objects p s at in
        (s', at', ap (λ io. io.stream_id) same ∙ own);
  }

  open_stream-IsSound :
      (node : N) (sub_name channel_id : Text) (sub_spec : S) (b : StreamBroker D N S)
      → IsSound b
      → IsSound (open_stream node sub_name channel_id sub_spec b).0
  unfolding open_stream new_buffered_stream
  open_stream-IsSound node sub_name channel_id sub_spec b h = record {
    valid = open_stream-IsValid node sub_name channel_id sub_spec b h.valid;
    numbered = Numbered-append 0 b.objects _ h.numbered (omega (arith, h.counted));
    counted = omega (
      arith,
      h.counted,
      length-append b.objects
          (new_buffered_stream {D = D} node sub_name (b.stream_id + 1) channel_id sub_spec ∷ []),
    );
  }

  open_reader-IsSound :
      (node : N) (sub_name channel_id : Text) (sub_spec : S) (b : StreamBroker D N S)
      → IsSound b
      → IsSound (open_reader node sub_name channel_id sub_spec b).0
  unfolding open_reader
  open_reader-IsSound node sub_name channel_id sub_spec b h =
      elim (Option-cases (find_sub channel_id b)) [
        | inl e ↦ rw (e, open_reader) (open_stream-IsSound node sub_name channel_id sub_spec b h)
        | inr (p, e) ↦ rw (e, open_reader) h
      ]

  -- `CloseStream` changes nothing, or drops the stream of some pointer.
  close_stream_cases :
      (unsubscribe : N → Text → Result (Unit {0})) (id : Text) (b : StreamBroker D N S)
      → let b' = (close_stream unsubscribe id b).0 in
        (b' ≡ b)
        ⊎ ((p : ℕ) × (s : Stream D N S) × (get_elem? b.objects p ≡ some s)
            × (b' ≡ drop_stream p s b))
  unfolding close_stream close_found
  close_stream_cases unsubscribe id b = elim (Option-cases (lookup Text-discrete id b.subs)) [
    | inl e ↦ rw (e, close_stream) (inl refl)
    | inr (p, e) ↦ elim (Option-cases (get_elem? b.objects p)) [
      | inl none_there ↦ rw (e, close_stream) (rw (none_there, close_found) (inl refl))
      | inr (s, at) ↦ elim (Result-cases (unsubscribe s.io.node s.io.sub_name)) [
        | inl (x, done) ↦
            rw (e, close_stream)
              (rw (at, close_found) (rw (done, close_found) (inr (p, s, at, refl))))
        | inr (inl (x, failed)) ↦
            rw (e, close_stream) (rw (at, close_found) (rw (failed, close_found) (inl refl)))
        | inr (inr failed) ↦
            rw (e, close_stream) (rw (at, close_found) (rw (failed, close_found) (inl refl)))
      ]
    ]
  ]

  close_stream-IsSound :
      (unsubscribe : N → Text → Result (Unit {0})) (id : Text) (b : StreamBroker D N S)
      → IsSound b
      → IsSound (close_stream unsubscribe id b).0
  unfolding drop_stream close_object
  close_stream-IsSound unsubscribe id b h = elim (close_stream_cases unsubscribe id b) [
    | inl e ↦ subst IsSound (sym e) h
    | inr (p, s, at, e) ↦ record {
      valid = close_stream-IsValid unsubscribe id b h.valid;
      numbered =
          subst (λ c. Numbered 0 c.objects) (sym e)
            (Numbered-set 0 b.objects p s _ h.numbered at refl);
      counted =
          subst (λ c. c.stream_id ≡ length c.objects) (sym e)
            (h.counted ∙ sym (length-set b.objects p _));
    }
  ]

  pub step-IsSound : (c : Call N S) (b : StreamBroker D N S) → IsSound b → IsSound (step c b)
  unfolding step close
  step-IsSound (opens node sub_name channel_id sub_spec) b h =
      open_reader-IsSound node sub_name channel_id sub_spec b h
  step-IsSound (registers node sub_name channel_id sub_spec) b h =
      open_stream-IsSound node sub_name channel_id sub_spec b h
  step-IsSound (closes_stream unsubscribe id) b h = close_stream-IsSound unsubscribe id b h
  step-IsSound closes b h =
      let (n, l) = close_all-Numbered (values b.streams) b.objects h.numbered in
      record { valid = close-IsValid b h.valid; numbered = n; counted = h.counted ∙ sym l }

  run-IsSound : (cs : List (Call N S)) (b : StreamBroker D N S) → IsSound b → IsSound (run cs b)
  unfolding run
  run-IsSound [] b h = h
  run-IsSound (c ∷ cs) b h = run-IsSound cs (step c b) (step-IsSound c b h)

  -- From a new broker, whatever calls come and in whichever order, also where two `OpenReader`s of a
  -- channel come between each other's parts, and whatever `Unsubscribe` answers: the two maps agree; an
  -- id is given to one stream ever, the n-th that is made having the id n; and `GetWriter` finds no
  -- other stream under an id than the one that it was given to.
  pub run-IsValid :
      (cs : List (Call N S))
      → let b = run cs new_broker in
        IsValid b
        × ((p : ℕ) (s : Stream D N S) → get_elem? b.objects p ≡ some s → s.io.stream_id ≡ p + 1)
        × ((i p : ℕ) → get_writer i b ≡ ok p → i ≡ p + 1)
  unfolding new_broker get_writer
  run-IsValid cs =
      let h = run-IsSound cs new_broker new-IsSound in
      let b = run cs new_broker in
      let numbered = λ (p : ℕ) (s : Stream D N S) (at : get_elem? b.objects p ≡ some s).
        Numbered-get_elem? 0 b.objects p s h.numbered at in
      (
        h.valid,
        λ p s at. omega (arith, numbered p s at),
        λ i p found. elim (Option-cases (lookup ℕ_discrete i b.streams)) [
          | inl e ↦ absurd (ground (arith, e, found))
          | inr (q, e) ↦
              let (s, at, own) = h.valid.streams_own i q e in
              let same : q ≡ p = ground (arith, e, found) in
              omega (arith, numbered q s at, own, same)
        ],
      )
