-- ===== src/Tests/Setup.antt =====
-- Options, the construction of the managers and the start of the program, on concrete values.
use onos_mho.Base.{ℕ, ◌-◌, ◌≡◌, refl, Text, codes, Bool, true, List, [], ◌∷◌, none, some, arith}
use onos_mho.Base.Result.{Result, ok, err, not_found}
use onos_mho.Utils.Format.{ℤ, pos, negsuc}
use onos_mho.Config.{new_config}
use onos_mho.Southbound.Setup.{ClientConfig}
use onos_mho.Manager.{
  Config, Manager, northbound_server, e2_connections, mho_controller, nil_on_error,
}
use onos_mho.Manager.Northbound.{server_arguments, started, Done, waiting, serve}
use onos_mho.Manager.Laws.{server_arguments_lem}
use onos_mho.Monitor.Options.{
  Setting as MonitorSetting, zero_options as monitor_zero, with_node, with_node_id,
  with_stream_reader, new_monitor,
}
use onos_mho.Monitor.Options.Laws.{specified as monitor_specified, new_monitor-specified}
use onos_mho.Command.{flag_config, main}
use onos_mho.Command.Laws.{main_without_topo_client}
use onos_mho.Tests.Topology.{toy_topo}

abbrev toy_flags : Text → Text → Text
toy_flags name default = default

abbrev toy_int_flags : Text → ℤ → ℤ
toy_int_flags name default = pos 40000

abbrev no_certs : Text → Text → Text → Bool → Result (Unit {0})
no_certs ca key cert optional = ok tt

abbrev toy_register : Text → Result ℕ
toy_register path = ok 1

abbrev toy_as_config : ℕ → Result ℕ
toy_as_config g = ok g

abbrev toy_e2client : ClientConfig → ℕ
toy_e2client c = 5

abbrev toy_config : Config ℕ
toy_config = record {
  ca_path = [];
  key_path = [];
  cert_path = [];
  config_path = codes "path";
  e2t_endpoint = codes "e2t:1";
  grpc_port = pos 40000;
  app_config = none;
  sm_name = codes "rc";
  sm_version = codes "v1";
}

abbrev broker_7 : ℕ
broker_7 = 7

abbrev store_8 : ℕ
store_8 = 8

server_arguments_lem_example : (server_arguments toy_config).port ≡ negsuc (65535 - 40000)
server_arguments_lem_example =
    (server_arguments_lem toy_config).2 40000 refl (ground arith) (ground arith)

abbrev listening : Done
listening = record { closed = true; received = some (ok tt) }

served : serve (started ∷ []) waiting ≡ ok listening
unfolding serve waiting
served = refl

abbrev listens : Manager ℕ ℕ ℕ ℕ ℕ ℕ → Result (Unit {0})
listens m = ok tt

abbrev no_client : Result ℕ
no_client = err not_found

abbrev watches : ℕ → Result (Unit {0})
watches client = ok tt

abbrev default_config : Config ℕ
default_config = flag_config toy_flags toy_int_flags

config_read_by_default :
    nil_on_error (new_config toy_register toy_as_config default_config.config_path) ≡ ok (some 1)
unfolding new_config flag_config
config_read_by_default = refl

main_without_topo_client_example :
    main toy_flags toy_int_flags no_certs toy_register toy_as_config toy_e2client no_client broker_7
      store_8 listens
    ≡ (northbound_server ∷ e2_connections ∷ mho_controller ∷ [], ok tt)
main_without_topo_client_example =
    (main_without_topo_client toy_flags toy_int_flags no_certs toy_register toy_as_config
      toy_e2client no_client broker_7 store_8 listens toy_topo watches [] not_found refl
      config_read_by_default refl (λ m. refl)).2

abbrev monitor_settings : List (MonitorSetting ℕ ℕ ℕ ℕ ℕ)
monitor_settings = with_node (some 1) ∷ with_node_id (codes "n") ∷ with_stream_reader (some 2) ∷ []

new_monitor-specified_example :
    new_monitor monitor_settings ≡ monitor_specified monitor_settings monitor_zero
new_monitor-specified_example = new_monitor-specified monitor_settings
