-- ===== src/Broker/Registry/Race.antt =====
-- pkg/broker/broker.go: two calls of `OpenReader` at once, and the list of channels.
use onos_mho.Base.{
  ℕ, ◌+◌, ◌*◌, ◌≡◌, ◌∙◌, ap, ◌≢◌, Text, Text-discrete, ℕ_discrete, length, length-append,
  length-replicate, length-map, get_elem?-append_length, [], ◌∷◌, ◌++◌, some, none, arith,
  replicate,
}
use onos_mho.Base.Dict.{keys, lookup-insert_self, lookup-insert_ne, lookup-delete_ne}
use onos_mho.Base.Result.{Result, ok}
use onos_mho.Broker.Stream.{Stream, new_buffered_stream}
use onos_mho.Broker.Registry.{
  StreamBroker, find_sub, open_stream, get_writer, close_stream, channel_ids, drop_stream,
}
use onos_mho.Broker.Registry.Laws.{get_writer_of_lookup}
use onos_mho.Broker.Registry.Closing.{close_stream_ok}

module _ {D N S : Type 0} (node : N) (sub_name channel_id : Text) (sub_spec : S) where
  -- Two calls of `OpenReader` for one channel that both find no stream under the read lock: they
  -- return two different streams, the channel keeps the second, and a successful `CloseStream` of the
  -- channel leaves the first one registered, where `GetWriter` still finds it.
  pub open_race_orphans :
      (unsubscribe : N → Text → Result (Unit {0})) (b : StreamBroker D N S)
      → ((n : N) (name : Text) → unsubscribe n name ≡ ok tt)
      → find_sub channel_id b ≡ none
      → let (b1, p) = open_stream node sub_name channel_id sub_spec b in
        let (b2, q) = open_stream node sub_name channel_id sub_spec b1 in
        let (b3, r) = close_stream unsubscribe channel_id b2 in
        (p ≢ q)
        × (find_sub channel_id b2 ≡ some q)
        × (r ≡ ok q)
        × (get_writer (b.stream_id + 1) b3 ≡ ok p)
  unfolding open_stream find_sub new_buffered_stream drop_stream
  open_race_orphans unsubscribe b answers free = (
    λ same. omega (arith, length-append b.objects (first ∷ [])),
    found,
    ap (λ x. x.1) closed,
    rw closed (
        get_writer_of_lookup (b.stream_id + 1) _ (
          lookup-delete_ne ℕ_discrete _ _ _ later
          ∙ lookup-insert_ne ℕ_discrete _ _ _ _ later
          ∙ lookup-insert_self ℕ_discrete _ _ b.streams)),
  )
    where
      first : Stream D N S
      first = new_buffered_stream node sub_name (b.stream_id + 1) channel_id sub_spec

      second : Stream D N S
      second = new_buffered_stream node sub_name (b.stream_id + 1 + 1) channel_id sub_spec

      b2 : StreamBroker D N S
      b2 =
          (open_stream node sub_name channel_id sub_spec
            (open_stream node sub_name channel_id sub_spec b).0).0

      q : ℕ
      q = length (b.objects ++ first ∷ [])

      found : find_sub channel_id b2 ≡ some q
      found = lookup-insert_self Text-discrete channel_id _ _

      closed : close_stream unsubscribe channel_id b2 ≡ (drop_stream q second b2, ok q)
      closed =
          close_stream_ok unsubscribe channel_id b2 q second found
            (get_elem?-append_length (b.objects ++ first ∷ []) second []) (answers _ _)

      later : b.stream_id + 1 + 1 ≢ b.stream_id + 1
      later e = omega arith

-- `ChannelIDs` returns twice as many ids as there are channels: for each channel an empty id is put in
-- front.
pub length-channel_ids :
    {D N S : Type 0} (b : StreamBroker D N S) → length (channel_ids b) ≡ 2 * length b.subs
unfolding channel_ids
length-channel_ids b = omega (
  arith,
  length-append (replicate (length b.subs) []) (keys b.subs),
  length-replicate {A = Text} (length b.subs) [],
  length-map b.subs (λ p. p.0),
)
