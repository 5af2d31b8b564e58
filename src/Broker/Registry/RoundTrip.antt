-- ===== src/Broker/Registry/RoundTrip.antt =====
-- pkg/broker/broker.go: `OpenReader` for a new channel, and `CloseStream` of that channel.
use onos_mho.Base.{
  ℕ, ◌+◌, ◌≡◌, refl, ap, subst, Text, Text-discrete, ℕ_discrete, none, some, Option-cases, inl, inr,
  arith, get_elem?-append_length,
}
use onos_mho.Base.Dict.{
  Dict, lookup, insert, delete, lookup-insert, lookup-delete, lookup-insert_self,
}
use onos_mho.Base.Result.{Result, ok, err, not_found}
use onos_mho.Broker.Stream.{new_buffered_stream}
use onos_mho.Broker.Registry.{
  StreamBroker, find_sub, open_stream, open_reader, get_writer, drop_stream, close_stream,
}
use onos_mho.Broker.Registry.Laws.{IsValid}
use onos_mho.Broker.Registry.Closing.{close_stream_ok}

lookup-delete-insert :
    {K V : Type 0} (eq : Discrete K) (k j : K) (v : V) (m : Dict K V)
    → lookup eq k m ≡ none
    → lookup eq j (delete eq k (insert eq k v m)) ≡ lookup eq j m
lookup-delete-insert eq k j v m new = elim (eq k j) [
  | yes same ↦
      ground
        (arith, lookup-delete eq k j (insert eq k v m), subst (λ i. lookup eq i m ≡ none) same new)
  | no differs ↦ ground (arith, lookup-delete eq k j (insert eq k v m), lookup-insert eq k j v m)
]

get_writer_of_streams :
    {D N S : Type 0} (i : ℕ) (b b' : StreamBroker D N S)
    → lookup ℕ_discrete i b.streams ≡ lookup ℕ_discrete i b'.streams
    → get_writer i b ≡ get_writer i b'
unfolding get_writer
get_writer_of_streams i b b' e = ap (λ o. elim o [ none ↦ err not_found | some p ↦ ok p ]) e

module _ {D N S : Type 0} (node : N) (sub_name channel_id : Text) (sub_spec : S) where
  open_stream_of_find :
      (b : StreamBroker D N S)
      → find_sub channel_id b ≡ none
      → open_reader node sub_name channel_id sub_spec b
        ≡ open_stream node sub_name channel_id sub_spec b
  unfolding open_reader
  open_stream_of_find b e = rw (e, open_reader) refl

  fresh_id :
      (b : StreamBroker D N S) → IsValid b → lookup ℕ_discrete (b.stream_id + 1) b.streams ≡ none
  fresh_id b v = elim (Option-cases (lookup ℕ_discrete (b.stream_id + 1) b.streams)) [
    | inl e ↦ e
    | inr (p, e) ↦ absurd (omega (arith, v.streams_fresh (b.stream_id + 1) p e))
  ]

  -- In a valid broker, opening a channel that has no stream and closing it again, with an `Unsubscribe`
  -- that succeeds, gives back the stream that was opened, and leaves every lookup as it was: each
  -- channel has the stream that it had, and `GetWriter` answers the same for each id. Only the counter
  -- of the ids has moved, by one.
  pub close_stream-open_reader :
      (unsubscribe : N → Text → Result (Unit {0})) (b : StreamBroker D N S)
      → IsValid b
      → find_sub channel_id b ≡ none
      → unsubscribe node sub_name ≡ ok tt
      → let (b1, stream) = open_reader node sub_name channel_id sub_spec b in
        let (b2, r) = close_stream unsubscribe channel_id b1 in
        (r ≡ ok stream)
        × ((c : Text) → find_sub c b2 ≡ find_sub c b)
        × ((i : ℕ) → get_writer i b2 ≡ get_writer i b)
        × (b2.stream_id ≡ b.stream_id + 1)
  unfolding open_stream drop_stream find_sub get_writer new_buffered_stream
  close_stream-open_reader unsubscribe b v new done =
      let s = new_buffered_stream {D = D} node sub_name (b.stream_id + 1) channel_id sub_spec in
      let (b1, p) = open_stream node sub_name channel_id sub_spec b in
      let closed : close_stream unsubscribe channel_id b1 ≡ (drop_stream p s b1, ok p) =
        close_stream_ok unsubscribe channel_id b1 p s
          (lookup-insert_self Text-discrete channel_id _ b.subs)
          (get_elem?-append_length b.objects s _) done in
      rw (open_stream_of_find b new, closed)
        (
          refl,
          λ c. lookup-delete-insert Text-discrete channel_id c _ b.subs new,
          λ i.
              get_writer_of_streams i (drop_stream p s b1) b
                (lookup-delete-insert ℕ_discrete (b.stream_id + 1) i p b.streams (fresh_id b v)),
          refl,
        )
