-- ===== src/Tests/Streams.antt =====
-- Streams and the broker, on concrete values.
use onos_mho.Base.{
  Text-discrete, inl, true, ℕ, ◌≡◌, refl, ◌≢◌, ◌+◌, Text, codes, get_elem?, false, List, [], ◌∷◌,
  ◌++◌, none, some, arith,
}
use onos_mho.Base.Dict.{lookup}
use onos_mho.Base.Result.{unavailable, Result, ok, err, eof}
use onos_mho.Broker.Stream.{
  BufferedWriter, Stream, waiting, sending, new_buffered_writer, close, drain, recv, Call, sends,
  drains, recvs, run,
}
use onos_mho.Broker.Stream.Fifo.{IsValid, new-IsValid, pending, run_fifo}
use onos_mho.Broker.Stream.Closing.{close_drains, close_while_waiting_hangs}
use onos_mho.Broker.Registry.{
  StreamBroker, new_broker, open_stream, open_reader, find_sub, get_writer, close_stream,
}
use onos_mho.Broker.Registry.Laws.{new_broker-IsValid, open_reader-IsValid, open_reader_again}
use onos_mho.Broker.Registry.Laws as Registry
use onos_mho.Broker.Registry.RoundTrip.{close_stream-open_reader}
use onos_mho.Broker.Registry.Reach.{
  Call as BrokerCall, opens, registers, closes_stream, closes, run as run_broker,
}
use onos_mho.Broker.Registry.Reach.Laws.{run-IsValid}
use onos_mho.Broker.Registry.Refines.{Serves, run_refines}
use onos_mho.Southbound.Forwarding.{forwarding, ended, offered, stream_call, happen_all}
use onos_mho.Southbound.Forwarding.Laws.{refused_ends_forwarding}
use onos_mho.Broker.Registry.Race.{open_race_orphans}

abbrev calls_1 : List (Call ℕ)
calls_1 = sends 1 ∷ sends 2 ∷ drains ∷ recvs ∷ sends 3 ∷ drains ∷ []

run_fifo_example :
    pending new_buffered_writer ++ (run calls_1 new_buffered_writer).1
    ≡ (run calls_1 new_buffered_writer).2 ++ pending (run calls_1 new_buffered_writer).0
run_fifo_example = run_fifo calls_1 new_buffered_writer new-IsValid

-- A writer with two accepted indications, the first of them at the channel.
abbrev filled : BufferedWriter ℕ
filled = record { buffer = 2 ∷ []; closed = false; drain = sending 1 }

filled-IsValid : IsValid filled
filled-IsValid = ground arith

filled_is_awake : filled.drain ≢ waiting
filled_is_awake e = cc

close_drains_example :
    ((run (recvs ∷ drains ∷ recvs ∷ []) (close filled).0).2 ≡ 1 ∷ 2 ∷ [])
    × ((recv (drain (run (recvs ∷ drains ∷ recvs ∷ []) (close filled).0).0)).1 ≡ some (err eof))
close_drains_example = close_drains filled filled-IsValid filled_is_awake

abbrev idle : BufferedWriter ℕ
idle = record { buffer = []; closed = false; drain = waiting }

close_while_waiting_hangs_example :
    let later = run (drains ∷ recvs ∷ sends 1 ∷ []) (close idle).0 in
    (later.0 ≡ (close idle).0) × (later.1 ≡ []) × (later.2 ≡ []) × ((recv later.0).1 ≡ none)
close_while_waiting_hangs_example =
    close_while_waiting_hangs (drains ∷ recvs ∷ sends 1 ∷ []) idle refl

abbrev channel_1 : Text
channel_1 = codes "channel_1"

abbrev sub_1 : Text
sub_1 = codes "onos-mho-subscription"

-- Indications and nodes are numbers, and so are specifications.
abbrev broker_0 : StreamBroker ℕ ℕ ℕ
broker_0 = new_broker

abbrev agrees : ℕ → Text → Result (Unit {0})
agrees node name = ok tt

no_stream : find_sub channel_1 broker_0 ≡ none
unfolding find_sub new_broker lookup
no_stream = refl

open_race_orphans_example :
    let (b1, p) = open_stream 1 sub_1 channel_1 0 broker_0 in
    let (b2, q) = open_stream 1 sub_1 channel_1 0 b1 in
    let (b3, r) = close_stream agrees channel_1 b2 in
    (p ≢ q)
    × (find_sub channel_1 b2 ≡ some q)
    × (r ≡ ok q)
    × (get_writer (broker_0.stream_id + 1) b3 ≡ ok p)
open_race_orphans_example =
    open_race_orphans 1 sub_1 channel_1 0 agrees broker_0 (λ n name. refl) no_stream

close_stream-open_reader_example :
    let (b1, stream) = open_reader 1 sub_1 channel_1 0 broker_0 in
    let (b2, r) = close_stream agrees channel_1 b1 in
    (r ≡ ok stream)
    × ((c : Text) → find_sub c b2 ≡ find_sub c broker_0)
    × ((i : ℕ) → get_writer i b2 ≡ get_writer i broker_0)
    × (b2.stream_id ≡ broker_0.stream_id + 1)
close_stream-open_reader_example =
    close_stream-open_reader 1 sub_1 channel_1 0 agrees broker_0 new_broker-IsValid no_stream refl

abbrev shut : BufferedWriter ℕ
shut = record { buffer = 2 ∷ []; closed = true; drain = sending 1 }

refused_ends_forwarding_example :
    happen_all
      (offered 3 ∷ stream_call recvs ∷ offered 4 ∷ [])
      (record { writer = shut; forwarder = forwarding })
    ≡ record { writer = (run (recvs ∷ []) shut).0; forwarder = ended }
refused_ends_forwarding_example =
    refused_ends_forwarding 3 (stream_call recvs ∷ offered 4 ∷ []) shut (inl refl)

abbrev broker_calls : List (BrokerCall ℕ ℕ)
broker_calls =
    opens 1 sub_1 channel_1 0
    ∷ registers 2 sub_1 channel_1 0
    ∷ closes_stream agrees channel_1
    ∷ closes
    ∷ []

run-IsValid_example :
    let b : StreamBroker ℕ ℕ ℕ = run_broker broker_calls new_broker in
    Registry.IsValid b
    × ((p : ℕ) (s : Stream ℕ ℕ ℕ) → get_elem? b.objects p ≡ some s → s.io.stream_id ≡ p + 1)
    × ((i p : ℕ) → get_writer i b ≡ ok p → i ≡ p + 1)
run-IsValid_example = run-IsValid broker_calls

-- A failed attempt to close it, between its two streams.
abbrev reopened : List (BrokerCall ℕ ℕ)
reopened =
    opens 1 sub_1 channel_1 0
    ∷ closes_stream (λ node name. err unavailable) channel_1
    ∷ opens 3 sub_1 channel_1 0
    ∷ closes_stream agrees channel_1
    ∷ opens 2 sub_1 channel_1 0
    ∷ []

run_refines_example :
    Serves
      (run_broker reopened (new_broker {D = ℕ}))
      channel_1
      (some (record { stream_id = 2; node = 2; sub_name = sub_1 }))
unfolding Text-discrete
run_refines_example = run_refines ℕ ℕ ℕ reopened channel_1
