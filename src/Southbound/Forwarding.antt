-- ===== src/Southbound/Forwarding.antt =====
-- pkg/southbound/e2/manager.go, `sendIndicationOnStream`: from the channel of a subscription to the
-- writer of its stream. It runs beside the stream's own goroutine, its reader and whoever closes it.
pub mod Laws
use onos_mho.Base.{List, [], ◌∷◌, ◌++◌}
use onos_mho.Base.Result.{Result, ok, err, panic}
use onos_mho.Broker.Registry.{StreamBroker, get_writer}
use onos_mho.Broker.Stream.{BufferedWriter, send, Call, step}
use onos_mho.Base.{ℕ}

-- The goroutine: in its loop over the channel, or returned.
pub data Forwarder : Type 0 where
  forwarding ended : Forwarder

pub record Pipe (D : Type 0) : Type 0 where
  pub writer : BufferedWriter D
  pub forwarder : Forwarder

-- An indication is offered at the channel, or something else happens to the stream.
pub data Happening (D : Type 0) : Type 0 where
  offered : D → Happening D
  stream_call : Call D → Happening D

-- `GetWriter`, without which the goroutine returns at once.
unfoldable pub start_forwarding : {D N S : Type 0} → ℕ → StreamBroker D N S → Forwarder
unfolding get_writer
start_forwarding stream_id b = elim (get_writer stream_id b) [
  | ok _ ↦ forwarding
  | err _ ↦ ended
  | panic ↦ ended
]

module _ {D : Type 0} where
  -- One round of the loop: an error of `Send` ends it.
  unfoldable pub forward : D → Pipe D → Pipe D
  unfolding send
  forward msg p =
      let (w, r) = send msg p.writer in
      elim r [
        | ok _ ↦ record p { writer = w }
        | err _ ↦ record { writer = w; forwarder = ended }
        | panic ↦ record { writer = w; forwarder = ended }
      ]

  -- Once the goroutine has returned nobody reads the channel: who offers an indication blocks.
  unfoldable pub offer : Forwarder → D → Pipe D → Pipe D
  unfolding forward
  offer forwarding msg p = forward msg p
  offer ended msg p = p

  unfoldable pub happen : Happening D → Pipe D → Pipe D
  unfolding offer step
  happen (offered msg) p = offer p.forwarder msg p
  happen (stream_call c) p = record p { writer = (step c p.writer).0 }

  unfoldable pub happen_all : List (Happening D) → Pipe D → Pipe D
  unfolding happen
  happen_all [] p = p
  happen_all (h ∷ hs) p = happen_all hs (happen h p)
