-- ===== src/Southbound/Setup.antt =====
-- pkg/southbound/e2/manager.go, `NewManager`, `Start` and `Stop`, and the clients of pkg/rnib/rnib.go.
-- The constructors of the two client libraries are parameters. A nil interface is `none`.
use onos_mho.Base.{Text, List, [], Option, none, some}
use onos_mho.Base.Result.{Result, ok, err, panic, ◌>>=◌}
use onos_mho.Rnib.{Topo}
use onos_mho.Southbound.Options.{
  Options, ServiceOptions, ServiceModelOptions, Setting, zero_options, apply_all,
}
use onos_mho.Southbound.Connections.{TopoEvent, watch_e2_connections}

-- What `e2client.NewClient` is given.
pub record ClientConfig : Type 0 where
  pub service_model : ServiceModelOptions
  pub app_id : Text
  pub e2t : ServiceOptions

-- `rnib.Client`: a structure, whose client of the topology service may be nil.
pub record Client (R : Type 0) : Type 0 where
  pub client : Option R

-- `Manager`
pub record Manager (E R C B M : Type 0) : Type 0 where
  pub e2client : Option E
  pub rnib_client : Client R
  pub service_model : ServiceModelOptions
  pub app_config : Option C
  pub streams : Option B
  pub metric_store : Option M

-- `Manager{}`
unfoldable pub zero_manager : {E R C B M : Type 0} → Manager E R C B M
zero_manager = record {
  e2client = none;
  rnib_client = record { client = none };
  service_model = record { name = []; version = [] };
  app_config = none;
  streams = none;
  metric_store = none;
}

-- `rnib.NewClient`; `sdk` is what `toposdk.NewClient` answers.
unfoldable pub new_client : {R : Type 0} → Result R → Result (Client R)
new_client sdk = do client ← sdk; ok (record { client = some client })

module _ {E R C B M : Type 0} (e2client : ClientConfig → E) (sdk : Result R) where
  -- What `NewManager` returns once its options are applied.
  unfoldable pub manager_of :
      Options C B M → Result (Client R) → Manager E R C B M × Result (Unit {0})
  unfolding zero_manager
  manager_of options (ok rnib_client) = (
    record {
      e2client = some (
          e2client (record {
            service_model = options.service_model;
            app_id = options.app.app_id;
            e2t = options.e2t_service;
          }));
      rnib_client = rnib_client;
      service_model = options.service_model;
      app_config = options.app.config;
      streams = options.app.broker;
      metric_store = options.app.metric_store;
    },
    ok tt,
  )
  manager_of options (err e) = (zero_manager, err e)
  manager_of options panic = (zero_manager, panic)

  unfoldable pub new_manager : List (Setting C B M) → Manager E R C B M × Result (Unit {0})
  unfolding manager_of new_client apply_all zero_options
  new_manager opts = manager_of (apply_all opts zero_options) (new_client sdk)

-- `Client.WatchE2Connections`; `watch` is the `Watch` of the service's client, with the filter of the
-- CONTROLS relations. A call through the nil interface is a panic.
unfoldable pub watch_connections :
    {R : Type 0} → (R → Result (Unit {0})) → Client R → Result (Unit {0})
watch_connections watch c = elim c.client [ none ↦ panic | some client ↦ watch client ]

module _ (topo : Topo) {E R C B M : Type 0} (watch : R → Result (Unit {0}))
    (events : List (TopoEvent topo.Object)) where
  -- The goroutine of `Start`, whose error nobody reads: `watchE2Connections` from its first line, on the
  -- events that come until the channel is closed.
  unfoldable pub connections_loop : Manager E R C B M → List Text × Result (Unit {0})
  unfolding watch_connections
  connections_loop m = elim (watch_connections watch m.rnib_client) [
    | ok _ ↦ watch_e2_connections topo events
    | err e ↦ ([], err e)
    | panic ↦ ([], panic)
  ]

-- `Start` returns once it has started the goroutine.
unfoldable pub start : {E R C B M : Type 0} → Manager E R C B M → Result (Unit {0})
start m = ok tt

-- `panic("implement me")`
unfoldable pub stop : {E R C B M : Type 0} → Manager E R C B M → Result (Unit {0})
stop m = panic
