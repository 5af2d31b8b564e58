-- ===== src/Config.antt =====
-- pkg/config/config.go: the getters of the configuration.
-- The store of settings and the conversion of a value are of other packages, so they are parameters.
pub mod Laws
use onos_mho.Base.{ℕ, Text, codes, Bool, false, Option, none, some}
use onos_mho.Base.Result.{Result, ok, err, panic, ◌>>=◌}

-- `app.Config` and `configutils.ToUint64`.
pub record AppConfig : Type 1 where
  pub Value : Type 0
  pub get : Text → Result Value
  -- `p.Value.(bool)`, if the value is one.
  pub as_bool : Value → Option Bool
  pub to_uint64 : Value → Result ℕ

abbrev pub reporting_period_config_path : Text
reporting_period_config_path = codes "reportingPeriod"

abbrev pub periodic_config_path : Text
periodic_config_path = codes "periodic"

abbrev pub upon_rcv_meas_config_path : Text
upon_rcv_meas_config_path = codes "uponRcvMeasReport"

abbrev pub upon_change_rrc_status_config_path : Text
upon_change_rrc_status_config_path = codes "uponChangeRrcStatus"

abbrev pub a3_offset_range_config_path : Text
a3_offset_range_config_path = codes "A3OffsetRange"

abbrev pub hysteresis_range_config_path : Text
hysteresis_range_config_path = codes "HysteresisRange"

abbrev pub cell_individual_offset_config_path : Text
cell_individual_offset_config_path = codes "CellIndividualOffset"

abbrev pub frequency_offset_config_path : Text
frequency_offset_config_path = codes "FrequencyOffset"

abbrev pub time_to_trigger_config_path : Text
time_to_trigger_config_path = codes "TimeToTrigger"

-- `NewConfig`; `register` is `configurable.RegisterConfigurable`, and `as_app_config` the assertion
-- that what it registered is an `*app.Config`, a panic where it is not.
unfoldable pub new_config : {R C : Type 0} → (Text → Result R) → (R → Result C) → Text → Result C
new_config register as_app_config config_path = do
  registered ← register config_path
  as_app_config registered

-- `mhoConfig.Watch`; `watch` is the configuration's own.
unfoldable pub watch : {C E : Type 0} → (C → E → Result (Unit {0})) → C → E → Result (Unit {0})
watch app_watch c ch = app_watch c ch

module _ (app_config : AppConfig) where
  unfoldable pub get_reporting_period : Result ℕ
  get_reporting_period = do
    interval ← app_config.get reporting_period_config_path
    app_config.to_uint64 interval

  -- The three Boolean settings: false where the setting is missing or is no Boolean.
  unfoldable pub get_bool : Text → Result Bool
  get_bool path = elim (app_config.get path) [
    | ok p ↦ elim (app_config.as_bool p) [ none ↦ ok false | some b ↦ ok b ]
    | err _ ↦ ok false
    | panic ↦ panic
  ]

  unfoldable pub get_periodic : Result Bool
  unfolding get_bool
  get_periodic = get_bool periodic_config_path

  unfoldable pub get_upon_rcv_meas : Result Bool
  unfolding get_bool
  get_upon_rcv_meas = get_bool upon_rcv_meas_config_path

  unfoldable pub get_upon_change_rrc_status : Result Bool
  unfolding get_bool
  get_upon_change_rrc_status = get_bool upon_change_rrc_status_config_path

  -- The five numeric settings: 0 where the setting is missing or is no number.
  unfoldable pub get_number : Text → Result ℕ
  get_number path = elim (app_config.get path) [
    | ok x ↦ elim (app_config.to_uint64 x) [ ok val ↦ ok val | err _ ↦ ok 0 | panic ↦ panic ]
    | err _ ↦ ok 0
    | panic ↦ panic
  ]

  unfoldable pub get_a3_offset_range : Result ℕ
  unfolding get_number
  get_a3_offset_range = get_number a3_offset_range_config_path

  unfoldable pub get_hysteresis_range : Result ℕ
  unfolding get_number
  get_hysteresis_range = get_number hysteresis_range_config_path

  unfoldable pub get_cell_individual_offset : Result ℕ
  unfolding get_number
  get_cell_individual_offset = get_number cell_individual_offset_config_path

  unfoldable pub get_frequency_offset : Result ℕ
  unfolding get_number
  get_frequency_offset = get_number frequency_offset_config_path

  unfoldable pub get_time_to_trigger : Result ℕ
  unfolding get_number
  get_time_to_trigger = get_number time_to_trigger_config_path
