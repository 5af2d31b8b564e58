-- ===== src/Config/Laws.antt =====
-- pkg/config/config.go: what the getters without an error result answer.
use onos_mho.Base.{◌≡◌, ◌≢◌, Text, false, Option-cases, inl, inr, arith}
use onos_mho.Base.Result.{Result, ok, panic, Result-cases}
use onos_mho.Config.{
  AppConfig, get_bool, get_number, get_periodic, get_upon_rcv_meas, get_upon_change_rrc_status,
  get_a3_offset_range, get_hysteresis_range, get_cell_individual_offset, get_frequency_offset,
  get_time_to_trigger,
}

abbrev pub Answers : {A : Type 0} → Result A → Type 0
Answers {A} r = (a : A) × (r ≡ ok a)

module _ (app_config : AppConfig) (get_returns : (path : Text) → app_config.get path ≢ panic)
    (to_uint64_returns : (v : app_config.Value) → app_config.to_uint64 v ≢ panic) where
  get_bool-Answers : (path : Text) → Answers (get_bool app_config path)
  unfolding get_bool
  get_bool-Answers path = elim (Result-cases (app_config.get path)) [
    | inl (p, e) ↦ elim (Option-cases (app_config.as_bool p)) [
      | inl none_there ↦ (false, ground (arith, e, none_there))
      | inr (b, there) ↦ (b, ground (arith, e, there))
    ]
    | inr (inl (x, e)) ↦ (false, ground (arith, e))
    | inr (inr e) ↦ absurd (get_returns path e)
  ]

  get_number-Answers : (path : Text) → Answers (get_number app_config path)
  unfolding get_number
  get_number-Answers path = elim (Result-cases (app_config.get path)) [
    | inl (v, e) ↦ elim (Result-cases (app_config.to_uint64 v)) [
      | inl (n, u) ↦ (n, ground (arith, e, u))
      | inr (inl (x, u)) ↦ (0, ground (arith, e, u))
      | inr (inr u) ↦ absurd (to_uint64_returns v u)
    ]
    | inr (inl (x, e)) ↦ (0, ground (arith, e))
    | inr (inr e) ↦ absurd (get_returns path e)
  ]

  -- Where the calls of the configuration library do not panic, each getter that has no error result
  -- returns a value, whatever is stored under its path and whether anything is.
  getters_answer :
      (Answers (get_periodic app_config)
        × Answers (get_upon_rcv_meas app_config)
        × Answers (get_upon_change_rrc_status app_config))
      × (Answers (get_a3_offset_range app_config)
          × Answers (get_hysteresis_range app_config)
          × Answers (get_cell_individual_offset app_config)
          × Answers (get_frequency_offset app_config)
          × Answers (get_time_to_trigger app_config))
  unfolding get_periodic get_upon_rcv_meas get_upon_change_rrc_status get_a3_offset_range
      get_hysteresis_range get_cell_individual_offset get_frequency_offset get_time_to_trigger
  getters_answer = (
    (get_bool-Answers _, get_bool-Answers _, get_bool-Answers _),
    (
      get_number-Answers _,
      get_number-Answers _,
      get_number-Answers _,
      get_number-Answers _,
      get_number-Answers _,
    ),
  )
