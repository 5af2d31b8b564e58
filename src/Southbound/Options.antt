-- ===== src/Southbound/Options.antt =====
-- pkg/southbound/e2/options.go: the options of the E2 manager.
-- `C`, `B` and `M` are the types of configurations, brokers and stores behind their interfaces, of
-- which nil is `none`. A closure of `newOption` is named by the function that makes it.
pub mod Laws
use onos_mho.Base.{Text, List, [], ◌∷◌, Option, none, some}
use onos_mho.Utils.Format.{ℤ, pos}

pub record ServiceOptions : Type 0 where
  pub host : Text
  pub port : ℤ

pub record SubServiceOptions : Type 0 where
  pub host : Text
  pub port : ℤ

pub record ServiceModelOptions : Type 0 where
  pub name : Text
  pub version : Text

pub record AppOptions (C B M : Type 0) : Type 0 where
  pub app_id : Text
  pub config : Option C
  pub broker : Option B
  pub metric_store : Option M

pub record Options (C B M : Type 0) : Type 0 where
  pub e2t_service : ServiceOptions
  pub e2_sub_service : SubServiceOptions
  pub service_model : ServiceModelOptions
  pub app : AppOptions C B M

-- `Options{}`
unfoldable pub zero_options : {C B M : Type 0} → Options C B M
zero_options = record {
  e2t_service = record { host = []; port = pos 0 };
  e2_sub_service = record { host = []; port = pos 0 };
  service_model = record { name = []; version = [] };
  app = record { app_id = []; config = none; broker = none; metric_store = none };
}

pub data Setting (C B M : Type 0) : Type 0 where
  with_e2t_address : Text → ℤ → Setting C B M
  with_e2t_host : Text → Setting C B M
  with_e2t_port : ℤ → Setting C B M
  with_e2_sub_address : Text → ℤ → Setting C B M
  with_service_model : Text → Text → Setting C B M
  with_app_id : Text → Setting C B M
  with_app_config : Option C → Setting C B M
  with_broker : Option B → Setting C B M
  with_metric_store : Option M → Setting C B M

module _ {C B M : Type 0} where
  unfoldable pub apply : Setting C B M → Options C B M → Options C B M
  apply (with_e2t_address host port) o = record o {
    e2t_service = record o.e2t_service { host = host; port = port };
  }
  apply (with_e2t_host host) o = record o { e2t_service = record o.e2t_service { host = host } }
  apply (with_e2t_port port) o = record o { e2t_service = record o.e2t_service { port = port } }
  apply (with_e2_sub_address host port) o = record o {
    e2_sub_service = record o.e2_sub_service { host = host; port = port };
  }
  apply (with_service_model name version) o = record o {
    service_model = record { name = name; version = version };
  }
  apply (with_app_id app_id) o = record o { app = record o.app { app_id = app_id } }
  apply (with_app_config config) o = record o { app = record o.app { config = config } }
  apply (with_broker broker) o = record o { app = record o.app { broker = broker } }
  apply (with_metric_store store) o = record o { app = record o.app { metric_store = store } }

  -- The loop of `NewManager` over its options.
  unfoldable pub apply_all : List (Setting C B M) → Options C B M → Options C B M
  unfolding apply
  apply_all [] options = options
  apply_all (opt ∷ opts) options = apply_all opts (apply opt options)
