-- ===== src/Manager.antt =====
-- pkg/manager/manager.go: how the parts are put together and started, and the northbound server.
-- `NewBroker` and `NewStore` give pointers: `B` and `M` are the types of such pointers here.
pub mod Northbound
pub mod Laws
use onos_mho.Base.{
  ℕ, ◌+◌, ◌-◌, ◌%◌, Text, codes, Bool, true, false, if◌then◌else◌, ltb, List, [], ◌∷◌, Option, none,
  some,
}
use onos_mho.Base.Result.{Result, ok, err, panic, ◌>>=◌}
use onos_mho.Config.{new_config}
use onos_mho.Utils.Format.{ℤ, pos, negsuc}
use onos_mho.Southbound.Options.{
  Setting, with_e2t_address, with_service_model, with_app_config, with_app_id, with_broker,
  with_metric_store,
}
use onos_mho.Southbound.Setup.{
  ClientConfig, Manager as E2Manager, new_manager as new_e2_manager, start as start_e2_manager,
}

-- `Config`; its `AppConfig` is a pointer to a type of another package.
pub record Config (A : Type 0) : Type 0 where
  pub ca_path : Text
  pub key_path : Text
  pub cert_path : Text
  pub config_path : Text
  pub e2t_endpoint : Text
  pub grpc_port : ℤ
  pub app_config : Option A
  pub sm_name : Text
  pub sm_version : Text

-- `controller.MHOController`
pub record MhoController (M : Type 0) : Type 0 where
  pub metric_store : M

unfoldable pub new_mho_controller : {M : Type 0} → M → MhoController M
new_mho_controller metric_store = record { metric_store = metric_store }

-- `Manager`
pub record Manager (A E R C B M : Type 0) : Type 0 where
  pub app_config : Option C
  pub config : Config A
  pub e2_manager : E2Manager E R C B M
  pub mho_ctrl : MhoController M
  pub metric_store : M

-- An error of `NewConfig` is only logged: the interface is nil then.
abbrev pub nil_on_error : {C : Type 0} → Result C → Result (Option C)
nil_on_error (ok c) = ok (some c)
nil_on_error (err _) = ok none
nil_on_error panic = panic

-- An error of the E2 manager's constructor is only logged too.
abbrev pub unless_panic : {T : Type 0} → Result (Unit {0}) → T → Result T
unless_panic (ok _) t = ok t
unless_panic (err _) t = ok t
unless_panic panic t = panic

module _ {A C B M : Type 0} where
  -- The options that `NewManager` gives to the E2 manager.
  unfoldable pub e2_settings : Config A → Option C → B → M → List (Setting C B M)
  e2_settings config app_cfg subscription_broker metric_store =
      with_e2t_address (codes "onos-e2t") (pos 5150)
      ∷ with_service_model config.sm_name config.sm_version
      ∷ with_app_config app_cfg
      ∷ with_app_id (codes "onos-mho")
      ∷ with_broker (some subscription_broker)
      ∷ with_metric_store (some metric_store)
      ∷ []

module _ {A E R C B M G : Type 0} (register : Text → Result G) (as_app_config : G → Result C)
    (e2client : ClientConfig → E) (sdk : Result R) (subscription_broker : B)
    (metric_store : M) where
  unfoldable pub new_manager : Config A → Result (Manager A E R C B M)
  unfolding e2_settings new_e2_manager new_mho_controller new_config
  new_manager config = do
    app_cfg ← nil_on_error (new_config register as_app_config config.config_path)
    let made =
        new_e2_manager e2client sdk (e2_settings config app_cfg subscription_broker metric_store)
    unless_panic made.1 (record {
      app_config = app_cfg;
      config = config;
      e2_manager = made.0;
      mho_ctrl = new_mho_controller metric_store;
      metric_store = metric_store;
    })

-- The goroutines that the program starts, in the order of their `go` statements.
pub data Goroutine : Type 0 where
  northbound_server e2_connections mho_controller : Goroutine

-- `start`, by what `startNorthboundServer` answers: what is started then, and what it returns.
unfoldable pub start :
    {E R C B M : Type 0}
    → E2Manager E R C B M
    → Result (Unit {0})
    → List Goroutine × Result (Unit {0})
unfolding start_e2_manager
start m (ok _) = elim (start_e2_manager m) [
  | ok _ ↦ (northbound_server ∷ e2_connections ∷ mho_controller ∷ [], ok tt)
  | err e ↦ (northbound_server ∷ e2_connections ∷ [], err e)
  | panic ↦ (northbound_server ∷ e2_connections ∷ [], panic)
]
start m (err e) = (northbound_server ∷ [], err e)
start m panic = (northbound_server ∷ [], panic)

-- `Run`: an error of `start` is fatal.
abbrev pub fatal : Result (Unit {0}) → Result (Unit {0})
fatal (ok _) = ok tt
fatal (err _) = panic
fatal panic = panic

unfoldable pub run :
    {E R C B M : Type 0}
    → E2Manager E R C B M
    → Result (Unit {0})
    → List Goroutine × Result (Unit {0})
unfolding start
run m northbound = let (started, r) = start m northbound in (started, fatal r)
