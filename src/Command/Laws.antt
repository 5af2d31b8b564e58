-- ===== src/Command/Laws.antt =====
-- cmd/onos-mho/onos-mho.go: how the program's start can go.
use onos_mho.Base.{◌≡◌, refl, Text, Bool, true, List, [], ◌∷◌, Option}
use onos_mho.Base.Result.{Result, ok, err, panic, Error}
use onos_mho.Utils.Format.{ℤ}
use onos_mho.Rnib.{Topo}
use onos_mho.Config.{new_config}
use onos_mho.Southbound.Connections.{TopoEvent}
use onos_mho.Southbound.Setup.{ClientConfig, connections_loop, zero_manager}
use onos_mho.Manager.Laws.{new_manager_zero}
use onos_mho.Manager.{
  Config, Manager, northbound_server, e2_connections, mho_controller, new_manager, nil_on_error,
  run,
}
use onos_mho.Command.{flag_config, main, run_manager}

module _ (string_flag : Text → Text → Text) (int_flag : Text → ℤ → ℤ)
    (handle_cert_paths : Text → Text → Text → Bool → Result (Unit {0})) {A E R C B M G : Type 0}
    (register : Text → Result G) (as_app_config : G → Result C) (e2client : ClientConfig → E)
    (sdk : Result R) (subscription_broker : B) (metric_store : M)
    (northbound : Manager A E R C B M → Result (Unit {0})) (topo : Topo)
    (watch : R → Result (Unit {0})) (events : List (TopoEvent topo.Object)) where
  -- The certificates are in order, the configuration library does not panic, and the northbound server
  -- listens, but the client of the topology service cannot be made: the program starts all the same,
  -- with its three goroutines, and the goroutine of the E2 manager panics, which ends the program.
  pub main_without_topo_client :
      (e : Error) {app_cfg : Option C}
      → let cfg : Config A = flag_config string_flag int_flag in
        handle_cert_paths cfg.ca_path cfg.key_path cfg.cert_path true ≡ ok tt
        → nil_on_error (new_config register as_app_config cfg.config_path) ≡ ok app_cfg
        → sdk ≡ err e
        → ((m : Manager A E R C B M) → northbound m ≡ ok tt)
        → (m : Manager A E R C B M) × (new_manager register as_app_config e2client sdk
              subscription_broker metric_store cfg
            ≡ ok m)
          × (main string_flag int_flag handle_cert_paths register as_app_config e2client sdk
                subscription_broker metric_store northbound
              ≡ (northbound_server ∷ e2_connections ∷ mho_controller ∷ [], ok tt))
          × (connections_loop topo watch events m.e2_manager ≡ ([], panic))
  unfolding main run_manager run connections_loop
  main_without_topo_client e {app_cfg} certs read refused served =
      let cfg : Config A = flag_config string_flag int_flag in
      let m : Manager A E R C B M = empty_of cfg app_cfg in
      let made : new_manager register as_app_config e2client sdk subscription_broker metric_store
            cfg
          ≡ ok m =
        rw refused (
          new_manager_zero register as_app_config e2client subscription_broker metric_store cfg e
            read) in
      (m, made, rw (certs, main) (rw (made, run_manager) (rw (served m) refl)), refl)
    where
      empty_of : Config A → Option C → Manager A E R C B M
      empty_of cfg app_cfg = record {
        app_config = app_cfg;
        config = cfg;
        e2_manager = zero_manager;
        mho_ctrl = record { metric_store = metric_store };
        metric_store = metric_store;
      }
