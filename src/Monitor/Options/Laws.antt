-- ===== src/Monitor/Options/Laws.antt =====
-- pkg/monitoring/options.go: what `NewMonitor` makes of its options.
use onos_mho.Base.{◌≡◌, refl, ◌∙◌, Text, List, [], ◌∷◌, Option, none, some}
use onos_mho.Base.Settings.{last_set}
use onos_mho.Monitor.Options.{
  Options, Setting, Monitor, apply, apply_all, new_monitor, zero_options, with_node_id,
  with_stream_reader, with_app_config, with_rnib_client, with_metric_store,
}

module _ {C R M N S : Type 0} where
  abbrev pub sets_node_id : Setting C R M N S → Option Text
  sets_node_id (with_node_id node_id) = some node_id
  sets_node_id _ = none

  abbrev pub sets_stream_reader : Setting C R M N S → Option (Option S)
  sets_stream_reader (with_stream_reader reader) = some reader
  sets_stream_reader _ = none

  abbrev pub sets_config : Setting C R M N S → Option (Option C)
  sets_config (with_app_config config) = some config
  sets_config _ = none

  abbrev pub sets_rnib_client : Setting C R M N S → Option (Option R)
  sets_rnib_client (with_rnib_client client) = some client
  sets_rnib_client _ = none

  abbrev pub sets_metric_store : Setting C R M N S → Option (Option M)
  sets_metric_store (with_metric_store store) = some store
  sets_metric_store _ = none

  -- The specification: each field of the monitor by the last option that sets it, and nil or the empty
  -- id where none does.
  abbrev pub specified : List (Setting C R M N S) → Options C R M N S → Monitor C R M S
  specified opts o = record {
    stream_reader = last_set sets_stream_reader opts o.monitor.stream_reader;
    app_config = last_set sets_config opts o.app.config;
    metric_store = last_set sets_metric_store opts o.app.metric_store;
    node_id = last_set sets_node_id opts o.monitor.node_id;
    rnib_client = last_set sets_rnib_client opts o.app.rnib_client;
  }

  one_specified :
      (opt : Setting C R M N S) (opts : List (Setting C R M N S)) (o : Options C R M N S)
      → specified opts (apply opt o) ≡ specified (opt ∷ opts) o
  unfolding apply
  one_specified (with_node_id _) opts o = refl
  one_specified _ opts o = refl

  all_specified :
      (opts : List (Setting C R M N S)) (o : Options C R M N S)
      → specified [] (apply_all opts o) ≡ specified opts o
  unfolding apply_all
  all_specified [] o = refl
  all_specified (opt ∷ opts) o = all_specified opts (apply opt o) ∙ one_specified opt opts o

  -- `NewMonitor` gives each field of the monitor the value of the last option that sets it, and nil or
  -- the empty id where none does. No option sets more than one field, and `WithNode` sets none.
  pub new_monitor-specified :
      (opts : List (Setting C R M N S)) → new_monitor opts ≡ specified opts zero_options
  unfolding new_monitor
  new_monitor-specified opts = all_specified opts zero_options
