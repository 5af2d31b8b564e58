-- ===== src/Command.antt =====
-- cmd/onos-mho/onos-mho.go: the program. The library's `flag`, with the arguments of the command line
-- inside, is a parameter: it gives the value of a flag by the flag's name and its default. So is
-- `HandleCertPaths`, whose TLS configuration nobody uses.
pub mod Laws
use onos_mho.Base.{Text, codes, Bool, true, List, [], none}
use onos_mho.Base.Result.{Result, ok, err, panic}
use onos_mho.Utils.Format.{ℤ, pos}
use onos_mho.Southbound.Setup.{ClientConfig}
use onos_mho.Manager.{Config, Manager, Goroutine, new_manager, run}

module _ (string_flag : Text → Text → Text) (int_flag : Text → ℤ → ℤ) where
  -- The configuration that `main` builds from the flags.
  unfoldable pub flag_config : {A : Type 0} → Config A
  flag_config = record {
    ca_path = string_flag (codes "caPath") [];
    key_path = string_flag (codes "keyPath") [];
    cert_path = string_flag (codes "certPath") [];
    config_path = string_flag (codes "configPath") (codes "/etc/onos/config/config.json");
    e2t_endpoint = string_flag (codes "e2tEndpoint") (codes "onos-e2t:5150");
    grpc_port = int_flag (codes "grpcPort") (pos 5150);
    app_config = none;
    sm_name = string_flag (codes "smName") (codes "oran-e2sm-rc");
    sm_version = string_flag (codes "smVersion") (codes "v1");
  }

module _ {A E R C B M : Type 0} (northbound : Manager A E R C B M → Result (Unit {0})) where
  -- `mgr.Run()`, where there is a manager; `northbound` is the answer of its `startNorthboundServer`.
  unfoldable pub run_manager : Result (Manager A E R C B M) → List Goroutine × Result (Unit {0})
  unfolding run
  run_manager (ok m) = run m.e2_manager (northbound m)
  run_manager (err e) = ([], err e)
  run_manager panic = ([], panic)

module _ (string_flag : Text → Text → Text) (int_flag : Text → ℤ → ℤ)
    (handle_cert_paths : Text → Text → Text → Bool → Result (Unit {0})) {A E R C B M G : Type 0}
    (register : Text → Result G) (as_app_config : G → Result C) (e2client : ClientConfig → E)
    (sdk : Result R) (subscription_broker : B) (metric_store : M)
    (northbound : Manager A E R C B M → Result (Unit {0})) where
  -- `main` up to its wait on `ready`, which never ends: what it has started, and whether it is still
  -- there. An error of the certificates is fatal.
  unfoldable pub main : List Goroutine × Result (Unit {0})
  unfolding flag_config run_manager new_manager
  main =
      let cfg : Config A = flag_config string_flag int_flag in
      elim (handle_cert_paths cfg.ca_path cfg.key_path cfg.cert_path true) [
        | ok _ ↦
            run_manager northbound
              (new_manager register as_app_config e2client sdk subscription_broker metric_store cfg)
        | err e ↦ ([], panic)
        | panic ↦ ([], panic)
      ]
