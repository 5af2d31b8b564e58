-- ===== src/Southbound/Options/Laws.antt =====
-- pkg/southbound/e2/options.go: each field, by the last option that sets it.
use onos_mho.Base.{◌≡◌, refl, ◌∙◌, Text, List, [], ◌∷◌, Option, none, some}
use onos_mho.Base.Settings.{last_set}
use onos_mho.Utils.Format.{ℤ}
use onos_mho.Southbound.Options.{
  Options, Setting, ServiceModelOptions, SubServiceOptions, apply, apply_all, with_e2t_address,
  with_e2t_host, with_e2t_port, with_e2_sub_address, with_service_model, with_app_id,
  with_app_config, with_broker, with_metric_store,
}

module _ {C B M : Type 0} where
  -- What an option makes of each field, if it sets it.
  abbrev pub sets_host : Setting C B M → Option Text
  sets_host (with_e2t_address host port) = some host
  sets_host (with_e2t_host host) = some host
  sets_host _ = none

  abbrev pub sets_port : Setting C B M → Option ℤ
  sets_port (with_e2t_address host port) = some port
  sets_port (with_e2t_port port) = some port
  sets_port _ = none

  abbrev pub sets_e2_sub_service : Setting C B M → Option SubServiceOptions
  sets_e2_sub_service (with_e2_sub_address host port) = some (record { host = host; port = port })
  sets_e2_sub_service _ = none

  abbrev pub sets_service_model : Setting C B M → Option ServiceModelOptions
  sets_service_model (with_service_model name version) =
      some (record { name = name; version = version })
  sets_service_model _ = none

  abbrev pub sets_app_id : Setting C B M → Option Text
  sets_app_id (with_app_id app_id) = some app_id
  sets_app_id _ = none

  abbrev pub sets_config : Setting C B M → Option (Option C)
  sets_config (with_app_config config) = some config
  sets_config _ = none

  abbrev pub sets_broker : Setting C B M → Option (Option B)
  sets_broker (with_broker broker) = some broker
  sets_broker _ = none

  abbrev pub sets_metric_store : Setting C B M → Option (Option M)
  sets_metric_store (with_metric_store store) = some store
  sets_metric_store _ = none

  -- The specification: each field by the last option that sets it, and as in `o` where none does.
  abbrev pub specified : List (Setting C B M) → Options C B M → Options C B M
  specified opts o = record {
    e2t_service = record {
      host = last_set sets_host opts o.e2t_service.host;
      port = last_set sets_port opts o.e2t_service.port;
    };
    e2_sub_service = last_set sets_e2_sub_service opts o.e2_sub_service;
    service_model = last_set sets_service_model opts o.service_model;
    app = record {
      app_id = last_set sets_app_id opts o.app.app_id;
      config = last_set sets_config opts o.app.config;
      broker = last_set sets_broker opts o.app.broker;
      metric_store = last_set sets_metric_store opts o.app.metric_store;
    };
  }

  one_specified :
      (opt : Setting C B M) (opts : List (Setting C B M)) (o : Options C B M)
      → specified opts (apply opt o) ≡ specified (opt ∷ opts) o
  unfolding apply
  one_specified (with_app_id _) opts o = refl
  one_specified _ opts o = refl

  -- After the loop of `NewManager` over a list of options, each field has the value of the last option
  -- of the list that sets it, and the value that it had before where none does.
  apply_all-specified :
      (opts : List (Setting C B M)) (o : Options C B M) → apply_all opts o ≡ specified opts o
  unfolding apply_all
  apply_all-specified [] o = refl
  apply_all-specified (opt ∷ opts) o =
      apply_all-specified opts (apply opt o) ∙ one_specified opt opts o
