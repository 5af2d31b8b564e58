-- ===== src/Monitor/Options.antt =====
-- pkg/monitoring/options.go, and `NewMonitor` of pkg/monitoring/monitor.go.
-- `C`, `R`, `M`, `N` and `S` are the types behind the interfaces that a monitor is given, of which nil
-- is `none`. A closure of `newOption` is named by the function that makes it.
pub mod Laws
use onos_mho.Base.{Text, List, [], ◌∷◌, Option, none, some}

pub record AppOptions (C R M : Type 0) : Type 0 where
  pub config : Option C
  pub rnib_client : Option R
  pub metric_store : Option M

pub record MonitorOptions (N S : Type 0) : Type 0 where
  pub node : Option N
  pub node_id : Text
  pub stream_reader : Option S

pub record Options (C R M N S : Type 0) : Type 0 where
  pub app : AppOptions C R M
  pub monitor : MonitorOptions N S

-- `Options{}`
unfoldable pub zero_options : {C R M N S : Type 0} → Options C R M N S
zero_options = record {
  app = record { config = none; rnib_client = none; metric_store = none };
  monitor = record { node = none; node_id = []; stream_reader = none };
}

pub data Setting (C R M N S : Type 0) : Type 0 where
  with_node_id : Text → Setting C R M N S
  with_stream_reader : Option S → Setting C R M N S
  with_node : Option N → Setting C R M N S
  with_app_config : Option C → Setting C R M N S
  with_rnib_client : Option R → Setting C R M N S
  with_metric_store : Option M → Setting C R M N S

-- `Monitor`
pub record Monitor (C R M S : Type 0) : Type 0 where
  pub stream_reader : Option S
  pub app_config : Option C
  pub metric_store : Option M
  pub node_id : Text
  pub rnib_client : Option R

module _ {C R M N S : Type 0} where
  unfoldable pub apply : Setting C R M N S → Options C R M N S → Options C R M N S
  apply (with_node_id node_id) o = record o { monitor = record o.monitor { node_id = node_id } }
  apply (with_stream_reader reader) o = record o {
    monitor = record o.monitor { stream_reader = reader };
  }
  apply (with_node node) o = record o { monitor = record o.monitor { node = node } }
  apply (with_app_config config) o = record o { app = record o.app { config = config } }
  apply (with_rnib_client client) o = record o { app = record o.app { rnib_client = client } }
  apply (with_metric_store store) o = record o { app = record o.app { metric_store = store } }

  -- The loop of `NewMonitor` over its options.
  unfoldable pub apply_all : List (Setting C R M N S) → Options C R M N S → Options C R M N S
  unfolding apply
  apply_all [] options = options
  apply_all (opt ∷ opts) options = apply_all opts (apply opt options)

  unfoldable pub new_monitor : List (Setting C R M N S) → Monitor C R M S
  unfolding apply_all zero_options
  new_monitor opts =
      let options = apply_all opts zero_options in
      record {
        stream_reader = options.monitor.stream_reader;
        app_config = options.app.config;
        metric_store = options.app.metric_store;
        node_id = options.monitor.node_id;
        rnib_client = options.app.rnib_client;
      }
