-- ===== src/Manager/Northbound.antt =====
-- pkg/manager/manager.go, `startNorthboundServer`: the server's port, and the channel on which `start`
-- waits for it.
use onos_mho.Base.{
  ℕ, ◌-◌, ◌%◌, ltb, Bool, true, false, if◌then◌else◌, Text, List, [], ◌∷◌, Option, none, some,
}
use onos_mho.Base.Result.{Result, ok, err, panic, ◌>>=◌}
use onos_mho.Northbound.Service.{Service, new_service}
use onos_mho.Manager.{Config, Manager}
use onos_mho.Utils.Format.{ℤ, pos, negsuc}

-- The 16 low bits of an `int`, as a signed number: `int16(port)`.
unfoldable pub signed16 : ℕ → ℤ
signed16 bits = if ltb bits 32768 then pos bits else negsuc (65535 - bits)

unfoldable pub int16 : ℤ → ℤ
unfolding signed16
int16 (pos n) = signed16 (n % 65536)
int16 (negsuc n) = signed16 (65535 - n % 65536)

-- What `NewServerCfg` is given, without its last argument, an empty `SecurityConfig`.
pub record ServerArguments : Type 0 where
  pub ca_path : Text
  pub key_path : Text
  pub cert_path : Text
  pub port : ℤ
  pub flag : Bool

-- The server's arguments, and the service that is added to it.
unfoldable pub server_arguments : {A : Type 0} → Config A → ServerArguments
unfolding int16
server_arguments config = record {
  ca_path = config.ca_path;
  key_path = config.key_path;
  cert_path = config.cert_path;
  port = int16 config.grpc_port;
  flag = true;
}

unfoldable pub server_service : {A E R C B M : Type 0} → Manager A E R C B M → Service M
unfolding new_service
server_service m = new_service m.metric_store

-- What the library's `Serve` does, in the goroutine: it calls back once the server listens, and it may
-- return, with an error or without.
pub data Serving : Type 0 where
  started : Serving
  returned : Result (Unit {0}) → Serving

-- `doneCh`, and what `start` has received from it. A receive from the closed channel gives nil.
pub record Done : Type 0 where
  pub closed : Bool
  pub received : Option (Result (Unit {0}))

unfoldable pub waiting : Done
waiting = record { closed = false; received = none }

-- `start` waits for one value.
abbrev pub receive : Option (Result (Unit {0})) → Result (Unit {0}) → Option (Result (Unit {0}))
receive none r = some r
receive (some r) _ = some r

-- What the goroutine does with the channel: it closes it in the callback, and writes an error to it.
-- Either is a panic on a closed channel.
unfoldable pub serve_step : Serving → Done → Result Done
serve_step started d =
    if d.closed then panic else ok (record { closed = true; received = receive d.received (ok tt) })
serve_step (returned (ok _)) d = ok d
serve_step (returned (err e)) d =
    if d.closed then panic else ok (record d { received = receive d.received (err e) })
serve_step (returned panic) d = panic

unfoldable pub serve : List Serving → Done → Result Done
unfolding serve_step
serve [] d = ok d
serve (s ∷ ss) d = do d' ← serve_step s d; serve ss d'
