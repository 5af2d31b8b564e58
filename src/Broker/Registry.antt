-- ===== src/Broker/Registry.antt =====
-- pkg/broker/broker.go: the broker's two maps of streams.
-- A `Stream` is a pointer there: here it is an index into `objects`, which holds every stream made so
-- far. What runs under the broker's mutex is one atomic step; `OpenReader` has two such steps, with
-- room for other calls between them. `Unsubscribe` is a call of another package and an argument.
pub mod Laws
pub mod Closing
pub mod Race
pub mod Reach
pub mod RoundTrip
pub mod Shutdown
pub mod Trace
pub mod Refines
use onos_mho.Base.{
  ℕ, suc, ◌+◌, Text, Text-discrete, ℕ_discrete, length, get_elem?, set, replicate, List, [], ◌∷◌,
  ◌++◌, Option, none, some,
}
use onos_mho.Base.Dict.{Dict, lookup, insert, delete, keys, values}
use onos_mho.Base.Result.{Result, ok, err, panic, not_found}
use onos_mho.Broker.Stream.{Stream, new_buffered_stream, close as close_writer}

-- `streamBroker`
pub record StreamBroker (D N S : Type 0) : Type 0 where
  pub subs : Dict Text ℕ
  pub streams : Dict ℕ ℕ
  pub stream_id : ℕ
  pub objects : List (Stream D N S)

module _ {D N S : Type 0} where
  unfoldable pub new_broker : StreamBroker D N S
  new_broker = record { subs = []; streams = []; stream_id = 0; objects = [] }

  -- `make([]e2api.ChannelID, len(b.subs))` and then an `append` for each key.
  unfoldable pub channel_ids : StreamBroker D N S → List Text
  channel_ids b = replicate (length b.subs) [] ++ keys b.subs

  -- The part of `OpenReader` under the read lock.
  unfoldable pub find_sub : Text → StreamBroker D N S → Option ℕ
  find_sub channel_id b = lookup Text-discrete channel_id b.subs

  -- The part of `OpenReader` under the write lock.
  unfoldable pub open_stream : N → Text → Text → S → StreamBroker D N S → StreamBroker D N S × ℕ
  open_stream node sub_name channel_id sub_spec b =
      let stream_id = b.stream_id + 1 in
      let stream = length b.objects in
      (
        record {
          subs = insert Text-discrete channel_id stream b.subs;
          streams = insert ℕ_discrete stream_id stream b.streams;
          stream_id = stream_id;
          objects =
              b.objects ++ new_buffered_stream node sub_name stream_id channel_id sub_spec ∷ [];
        },
        stream,
      )

  -- `OpenReader` with no other call in between; it never returns an error.
  unfoldable pub open_reader : N → Text → Text → S → StreamBroker D N S → StreamBroker D N S × ℕ
  unfolding find_sub open_stream
  open_reader node sub_name channel_id sub_spec b = elim (find_sub channel_id b) [
    | some stream ↦ (b, stream)
    | none ↦ open_stream node sub_name channel_id sub_spec b
  ]

  unfoldable pub get_writer : ℕ → StreamBroker D N S → Result ℕ
  get_writer id b = elim (lookup ℕ_discrete id b.streams) [
    | none ↦ err not_found
    | some stream ↦ ok stream
  ]

  -- `stream.Close()` through the pointer.
  unfoldable pub close_object : ℕ → Stream D N S → List (Stream D N S) → List (Stream D N S)
  close_object stream s objects =
      set objects stream (record s { writer = (close_writer s.writer).0 })

  -- `CloseStream` on a stream that was found, after `Unsubscribe` has succeeded.
  unfoldable pub drop_stream : ℕ → Stream D N S → StreamBroker D N S → StreamBroker D N S
  unfolding close_object
  drop_stream stream s b = record b {
    subs = delete Text-discrete s.io.channel_id b.subs;
    streams = delete ℕ_discrete s.io.stream_id b.streams;
    objects = close_object stream s b.objects;
  }

  -- The rest of `CloseStream` once the map has given `stream`. A pointer to no object is a panic.
  unfoldable pub close_found :
      (N → Text → Result (Unit {0})) → ℕ → StreamBroker D N S → StreamBroker D N S × Result ℕ
  unfolding drop_stream
  close_found unsubscribe stream b = elim (get_elem? b.objects stream) [
    | none ↦ (b, panic)
    | some s ↦ elim (unsubscribe s.io.node s.io.sub_name) [
      | ok _ ↦ (drop_stream stream s b, ok stream)
      | err e ↦ (b, err e)
      | panic ↦ (b, panic)
    ]
  ]

  unfoldable pub close_stream :
      (N → Text → Result (Unit {0})) → Text → StreamBroker D N S → StreamBroker D N S × Result ℕ
  unfolding close_found
  close_stream unsubscribe id b = elim (lookup Text-discrete id b.subs) [
    | none ↦ (b, err not_found)
    | some stream ↦ close_found unsubscribe stream b
  ]

  -- The loop of `Close`: every stream of the map, whose own `Close` never fails.
  unfoldable pub close_all : List ℕ → List (Stream D N S) → List (Stream D N S)
  unfolding close_object
  close_all [] objects = objects
  close_all (stream ∷ rest) objects = elim (get_elem? objects stream) [
    | none ↦ close_all rest objects
    | some s ↦ close_all rest (close_object stream s objects)
  ]

  unfoldable pub close : StreamBroker D N S → StreamBroker D N S × Result (Unit {0})
  unfolding close_all
  close b = (record b { objects = close_all (values b.streams) b.objects }, ok tt)
