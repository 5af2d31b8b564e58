-- ===== src/Broker/Registry/Laws.antt =====
-- pkg/broker/broker.go: the invariant of the two maps, and `OpenReader`.
use onos_mho.Base.{
  ℕ, ◌+◌, ◌≤◌, ◌≡◌, ap, ◌∙◌, subst, ◌≢◌, Text, Text-discrete, ℕ_discrete, length, get_elem?, List,
  [], ◌∷◌, ◌++◌, none, some, arith, Option-cases, inl, inr, get_elem?-append_some,
  get_elem?-append_length,
}
use onos_mho.Base.Dict.{lookup, lookup-insert_self, lookup-insert_ne, lookup-insert-some}
use onos_mho.Base.Result.{ok, err, not_found}
use onos_mho.Broker.Stream.{Stream, new_buffered_stream}
use onos_mho.Broker.Registry.{
  StreamBroker, new_broker, find_sub, open_stream, open_reader, get_writer,
}

module _ {D N S : Type 0} where
  -- Each channel's stream is an object with that channel's id, and `streams` has it under its own
  -- stream id. Ids in use have been handed out, and a stream's object keeps the id it is found under.
  pub record IsValid (b : StreamBroker D N S) : Type 0 where
    pub subs_streams :
        (c : Text) (p : ℕ)
        → lookup Text-discrete c b.subs ≡ some p
        → (s : Stream D N S) × (get_elem? b.objects p ≡ some s)
          × (s.io.channel_id ≡ c)
          × (lookup ℕ_discrete s.io.stream_id b.streams ≡ some p)
    pub streams_fresh : (i p : ℕ) → lookup ℕ_discrete i b.streams ≡ some p → i ≤ b.stream_id
    pub streams_own :
        (i p : ℕ)
        → lookup ℕ_discrete i b.streams ≡ some p
        → (s : Stream D N S) × (get_elem? b.objects p ≡ some s) × (s.io.stream_id ≡ i)

  pub new_broker-IsValid : IsValid (new_broker {D = D} {N = N} {S = S})
  unfolding new_broker lookup
  new_broker-IsValid = record {
    subs_streams = λ c p e. absurd (cc);
    streams_fresh = λ i p e. absurd (cc);
    streams_own = λ i p e. absurd (cc);
  }

module _ {D N S : Type 0} where
  open_reader_of_find :
      (node : N) (sub_name channel_id : Text) (sub_spec : S) (b : StreamBroker D N S) {p : ℕ}
      → lookup Text-discrete channel_id b.subs ≡ some p
      → open_reader node sub_name channel_id sub_spec b ≡ (b, p)
  unfolding open_reader
  open_reader_of_find node sub_name channel_id sub_spec b e = rw (e, open_reader)

  pub get_writer_of_lookup :
      (i : ℕ) (b : StreamBroker D N S) {p : ℕ}
      → lookup ℕ_discrete i b.streams ≡ some p
      → get_writer i b ≡ ok p
  unfolding get_writer
  get_writer_of_lookup i b e = rw (e, get_writer)

  pub get_writer_missing :
      (i : ℕ) (b : StreamBroker D N S)
      → lookup ℕ_discrete i b.streams ≡ none
      → get_writer i b ≡ err not_found
  unfolding get_writer
  get_writer_missing i b e = rw (e, get_writer)

module _ {D N S : Type 0} (node : N) (sub_name channel_id : Text) (sub_spec : S) where
  -- Opening a stream keeps the maps in agreement, also for a channel that has a stream already.
  pub open_stream-IsValid :
      (b : StreamBroker D N S)
      → IsValid b
      → IsValid (open_stream node sub_name channel_id sub_spec b).0
  unfolding open_stream new_buffered_stream
  open_stream-IsValid b v = record {
    subs_streams = λ c p e. elim (lookup-insert-some Text-discrete channel_id c _ b.subs e) [
      | inl (same, is_new) ↦ (
        stream,
        subst (λ q. get_elem? objects q ≡ some stream) is_new at_end,
        same,
        lookup-insert_self ℕ_discrete (b.stream_id + 1) _ b.streams ∙ ap some is_new,
      )
      | inr (_, old) ↦
          let (s, at, own, id) = v.subs_streams c p old in
          (
            s,
            get_elem?-append_some b.objects _ p at,
            own,
            lookup-insert_ne ℕ_discrete _ _ _ b.streams (unused s p id) ∙ id,
          )
    ];
    streams_fresh = λ i p e. elim (lookup-insert-some ℕ_discrete _ i _ b.streams e) [
      | inl (same, _) ↦ omega arith
      | inr (_, old) ↦ omega (arith, v.streams_fresh i p old)
    ];
    streams_own = λ i p e. elim (lookup-insert-some ℕ_discrete _ i _ b.streams e) [
      | inl (same, is_new) ↦
          (stream, subst (λ q. get_elem? objects q ≡ some stream) is_new at_end, same)
      | inr (_, old) ↦
          let (s, at, own) = v.streams_own i p old in
          (s, get_elem?-append_some b.objects _ p at, own)
    ];
  }
    where
      stream : Stream D N S
      stream = new_buffered_stream node sub_name (b.stream_id + 1) channel_id sub_spec

      objects : List (Stream D N S)
      objects = b.objects ++ stream ∷ []

      at_end : get_elem? objects (length b.objects) ≡ some stream
      at_end = get_elem?-append_length b.objects stream []

      unused :
          (s : Stream D N S) (p : ℕ)
          → lookup ℕ_discrete s.io.stream_id b.streams ≡ some p
          → b.stream_id + 1 ≢ s.io.stream_id
      unused s p old e = omega (arith, v.streams_fresh s.io.stream_id p old)

  -- From a valid broker, in which the two maps agree, `OpenReader` leaves a valid one.
  pub open_reader-IsValid :
      (b : StreamBroker D N S)
      → IsValid b
      → IsValid (open_reader node sub_name channel_id sub_spec b).0
  unfolding open_reader
  open_reader-IsValid b v = elim (Option-cases (find_sub channel_id b)) [
    | inl e ↦ rw (e, open_reader) (open_stream-IsValid b v)
    | inr (p, e) ↦ rw (e, open_reader) v
  ]

  open_reader_finds :
      (b : StreamBroker D N S)
      → let (b', p) = open_reader node sub_name channel_id sub_spec b in
        lookup Text-discrete channel_id b'.subs ≡ some p
  unfolding open_reader
  open_reader_finds b = elim (Option-cases (lookup Text-discrete channel_id b.subs)) [
    | inl e ↦ rw (e, open_reader) (lookup-insert_self Text-discrete channel_id _ b.subs)
    | inr (p, e) ↦ rw (e, open_reader) e
  ]

  -- In a valid broker `OpenReader` returns a stream of the channel that it is asked for. A second call
  -- for the channel, by whichever node and specification, returns the same stream and changes
  -- nothing, and `GetWriter` finds this stream under the stream's own id.
  pub open_reader_again :
      (b : StreamBroker D N S) (node' : N) (sub_name' : Text) (sub_spec' : S)
      → IsValid b
      → let (b', p) = open_reader node sub_name channel_id sub_spec b in
        (open_reader node' sub_name' channel_id sub_spec' b' ≡ (b', p))
        × ((s : Stream D N S) × (get_elem? b'.objects p ≡ some s)
            × (s.io.channel_id ≡ channel_id)
            × (get_writer s.io.stream_id b' ≡ ok p))
  open_reader_again b node' sub_name' sub_spec' v =
      let (b', p) = open_reader node sub_name channel_id sub_spec b in
      let found = open_reader_finds b in
      let (s, at, own, id) = (open_reader-IsValid b v).subs_streams channel_id p found in
      (
        open_reader_of_find node' sub_name' channel_id sub_spec' b' found,
        (s, at, own, get_writer_of_lookup _ b' id),
      )
