-- ===== src/Manager/Laws.antt =====
-- pkg/manager/manager.go: what is built from a configuration, and how the start can end.
use onos_mho.Base.{
  ℕ, ◌-◌, ◌≤◌, ◌<◌, ◌≡◌, refl, ◌∙◌, Text, codes, List, [], ◌∷◌, ◌++◌, Option, none, some, true, inl,
  inr, arith,
}
use onos_mho.Base.Result.{Result, ok, err, panic, Error, Result-cases}
use onos_mho.Utils.Format.{ℤ, pos, negsuc}
use onos_mho.Config.{new_config}
use onos_mho.Southbound.Options.{ServiceModelOptions}
use onos_mho.Southbound.Setup.{ClientConfig, zero_manager}
use onos_mho.Manager.{Config, nil_on_error, new_manager}
use onos_mho.Manager.Northbound.{
  int16, server_arguments, Serving, started, returned, Done, waiting, receive, serve, serve_step,
}

-- The value of an `int16`.
abbrev pub InInt16 : ℤ → Type 0
InInt16 (pos n) = n < 32768
InInt16 (negsuc n) = n < 32768

int16_lem :
    (z : ℤ)
    → InInt16 (int16 z)
      × (InInt16 z → int16 z ≡ z)
      × ((n : ℕ) → z ≡ pos n → 32768 ≤ n → n < 65536 → int16 z ≡ negsuc (65535 - n))
unfolding int16
int16_lem (pos m) = (ground arith, λ h. ground arith, λ n e low high. ground arith)
int16_lem (negsuc m) = (ground arith, λ h. ground arith, λ n e. absurd (cc))

-- The port that `startNorthboundServer` gives to the server is an `int16`: the configured `GRPCPort`
-- where that is an `int16`, but a port number from 32768 to 65535 becomes negative, that number less
-- 65536.
pub server_arguments_lem :
    {A : Type 0} (config : Config A)
    → let port = (server_arguments config).port in
      InInt16 port
      × (InInt16 config.grpc_port → port ≡ config.grpc_port)
      × ((n : ℕ) → config.grpc_port ≡ pos n → 32768 ≤ n → n < 65536 → port ≡ negsuc (65535 - n))
unfolding server_arguments
server_arguments_lem config = int16_lem config.grpc_port

module _ {A E R C B M G : Type 0} (register : Text → Result G) (as_app_config : G → Result C)
    (e2client : ClientConfig → E) (subscription_broker : B) (metric_store : M)
    (config : Config A) where
  -- Whether or not the configuration can be read (and unless the configuration library panics), with a
  -- client of the topology service `NewManager` makes an E2 manager with a client for the service
  -- model of the configuration and the address onos-e2t:5150, whatever `E2tEndpoint` is, on the broker
  -- and the store that it made; the controller and the manager have the same store.
  new_manager_lem :
      (client : R) {app_cfg : Option C}
      → nil_on_error (new_config register as_app_config config.config_path) ≡ ok app_cfg
      → let model : ServiceModelOptions = record {
        name = config.sm_name;
        version = config.sm_version;
      } in
        new_manager register as_app_config e2client
          (ok client)
          subscription_broker
          metric_store
          config
        ≡ ok (record {
          app_config = app_cfg;
          config = config;
          e2_manager = record {
            e2client = some (
                e2client (record {
                  service_model = model;
                  app_id = codes "onos-mho";
                  e2t = record { host = codes "onos-e2t"; port = pos 5150 };
                }));
            rnib_client = record { client = some client };
            service_model = model;
            app_config = app_cfg;
            streams = some subscription_broker;
            metric_store = some metric_store;
          };
          mho_ctrl = record { metric_store = metric_store };
          metric_store = metric_store;
        })
  unfolding new_manager
  new_manager_lem client h = rw h refl

  -- Without a client of the topology service the E2 manager is the empty one.
  pub new_manager_zero :
      (e : Error) {app_cfg : Option C}
      → nil_on_error (new_config register as_app_config config.config_path) ≡ ok app_cfg
      → new_manager {R = R} register as_app_config e2client
          (err e)
          subscription_broker
          metric_store
          config
        ≡ ok (record {
          app_config = app_cfg;
          config = config;
          e2_manager = zero_manager;
          mho_ctrl = record { metric_store = metric_store };
          metric_store = metric_store;
        })
  unfolding new_manager
  new_manager_zero e h = rw h refl

-- What a start that waits gets: the first of `started`, which gives nil, and a returned error.
abbrev pub first_answer : List Serving → Option (Result (Unit {0}))
first_answer [] = none
first_answer (started ∷ ss) = some (ok tt)
first_answer (returned (ok _) ∷ ss) = first_answer ss
first_answer (returned (err e) ∷ ss) = some (err e)
first_answer (returned panic ∷ ss) = none

abbrev first_of :
    Option (Result (Unit {0})) → Option (Result (Unit {0})) → Option (Result (Unit {0}))
first_of none later = later
first_of (some r) _ = some r

serve-first_answer :
    (ss : List Serving) (d d' : Done)
    → serve ss d ≡ ok d'
    → d'.received ≡ first_of d.received (first_answer ss)
unfolding serve
serve-first_answer [] d d' h = ground arith
serve-first_answer (started ∷ ss) d d' h = ground (
  arith,
  serve-first_answer ss (record { closed = true; received = receive d.received (ok tt) }) d',
)
serve-first_answer (returned (ok _) ∷ ss) d d' h = serve-first_answer ss d d' h
serve-first_answer (returned (err e) ∷ ss) d d' h =
    ground (arith, serve-first_answer ss (record d { received = receive d.received (err e) }) d')
serve-first_answer (returned panic ∷ ss) d d' h = absurd (cc)

serve-append :
    (ss ts : List Serving) (d d' : Done) → serve ss d ≡ ok d' → serve (ss ++ ts) d ≡ serve ts d'
unfolding serve
serve-append [] ts d d' h = ground arith
serve-append (s ∷ ss) ts d d' h = elim (Result-cases (serve_step s d)) [
  | inl (m, e) ↦
      let h' : serve ss m ≡ ok d' = ground (arith, e) in rw e (serve-append ss ts m d' h')
  | inr (inl (x, e)) ↦ absurd (ground (arith, e))
  | inr (inr e) ↦ absurd (ground (arith, e))
]

late_error :
    (e : Error) (d : Done) (ts : List Serving)
    → d.closed ≡ true
    → serve (returned (err e) ∷ ts) d ≡ panic
unfolding serve
late_error e d ts closed = ground arith

-- As long as the server's goroutine does not panic, the start waits until the server calls back, and
-- then goes on, or until `Serve` fails, and then gets that error, whichever comes first. Once the
-- server has called back, an error with which `Serve` returns is a panic: it is written to the channel
-- that the callback closed.
serve_lem :
    (ss ts : List Serving) (e : Error) (d : Done)
    → serve ss waiting ≡ ok d
    → (d.received ≡ first_answer ss)
      × (d.closed ≡ true → serve (ss ++ returned (err e) ∷ ts) waiting ≡ panic)
unfolding waiting
serve_lem ss ts e d h = (
  serve-first_answer ss waiting d h,
  λ closed. serve-append ss (returned (err e) ∷ ts) waiting d h ∙ late_error e d ts closed,
)
