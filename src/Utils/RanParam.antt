-- ===== src/Utils/RanParam.antt =====
-- pkg/utils/ranparam/parser.go: the search for a RAN parameter in a nested structure.
pub mod Laws
use onos_mho.Base.{ℕ, zero, suc, ite, if◌then◌else◌, List, [], ◌∷◌, none, some}
use onos_mho.Base.Result.{Result, ok, err, panic, not_found}
use onos_mho.Utils.Format.{ℤ, ℤ-discrete}
use onos_mho.Utils.Ies.{Ies}

module _ (ies : Ies) where
  open ies use {
    RanparameterValueType, RanparameterStructureItem, RanparameterValue, is_structure, sequence,
    structure_item_id, structure_item_type, element_false,
  }

  -- The loop over the items; `inner` is the recursive call, on an item's value type. The read of
  -- `RanParameterId.Value` panics where the identifier is nil.
  unfoldable pub find_in :
      (RanparameterValueType → Result RanparameterValue)
      → ℤ
      → List RanparameterStructureItem
      → Result RanparameterValue
  find_in inner ran_param_id [] = err not_found
  find_in inner ran_param_id (i ∷ rest) = elim (structure_item_id i) [
    | none ↦ panic
    | some id ↦
        ite (ℤ-discrete id ran_param_id) (ok (element_false (structure_item_type i)))
          (elim (inner (structure_item_type i)) [
            | ok v ↦ ok v
            | err _ ↦ find_in inner ran_param_id rest
            | panic ↦ panic
          ])
  ]

  -- `GetRanParameterValue`, to a depth of `fuel` nested structures; past it the answer is `panic` too, as
  -- that of a stack overflow.
  unfoldable pub get_ran_parameter_value : ℕ → RanparameterValueType → ℤ → Result RanparameterValue
  unfolding find_in
  get_ran_parameter_value zero item ran_param_id = panic
  get_ran_parameter_value (suc fuel) item ran_param_id =
      let inner = λ (t : RanparameterValueType). get_ran_parameter_value fuel t ran_param_id in
      if is_structure item then find_in inner ran_param_id (sequence item) else err not_found
