-- ===== src/Utils/Subscription.antt =====
-- pkg/utils/subscription/subscription.go: the event trigger and the action of the subscription.
use onos_mho.Base.{ℕ, Text, List, [], ◌∷◌}
use onos_mho.Base.Result.{Result, ok, ◌>>=◌, ◌>>◌}
use onos_mho.Definition.{
  ric_insert_style_type_id, ric_insert_indication_id, ric_action_id,
  call_process_type_id_mobility_management, call_breakpoint_id_handover_preparation,
}
use onos_mho.Utils.Ies.{Ies, PduBuilder}

-- `ActionType`: the one that the program uses, and the others.
pub data ActionType : Type 0 where
  insert other : ActionType

-- `e2api.Action`, with the fields that are set.
pub record Action : Type 0 where
  pub id : ℕ
  pub type : ActionType
  pub payload : Text

module _ (ies : Ies) (pdu : PduBuilder ies) where
  unfoldable pub create_event_trigger_definition : Result Text
  create_event_trigger_definition = do
    trigger ←
        pdu.create_event_trigger call_process_type_id_mobility_management
          call_breakpoint_id_handover_preparation
    pdu.validate_trigger trigger
    pdu.marshal_trigger trigger

  unfoldable pub create_subscription_action : Result (List Action)
  create_subscription_action = do
    ad ← pdu.create_action_definition ric_insert_style_type_id ric_insert_indication_id (1 ∷ [])
    pdu.validate_action ad
    payload ← pdu.marshal_action ad
    ok (record { id = ric_action_id; type = insert; payload = payload } ∷ [])
