-- ===== src/Store/Types.antt =====
-- pkg/store/types.go and event.go: entries, events, metric values and their states.
use onos_mho.Base.{Text, codes}

-- `EventType`: the constants of the `iota` block.
pub data EventType : Type 0 where
  none created updated deleted : EventType

-- `MHOState`.
pub data MhoState : Type 0 where
  state_created waiting approved denied done : MhoState

unfoldable pub EventType-discrete : Discrete EventType
EventType-discrete = hlevel

unfoldable pub MhoState-discrete : Discrete MhoState
MhoState-discrete = hlevel

-- The two `String` methods.
unfoldable pub event_type_string : EventType → Text
event_type_string none = codes "None"
event_type_string created = codes "Created"
event_type_string updated = codes "Updated"
event_type_string deleted = codes "Deleted"

unfoldable pub mho_state_string : MhoState → Text
mho_state_string state_created = codes "StateCreated"
mho_state_string waiting = codes "Waiting"
mho_state_string approved = codes "Approved"
mho_state_string denied = codes "Denied"
mho_state_string done = codes "Done"

-- `Entry`: the `interface{}` value is a type parameter.
pub record Entry (V : Type 0) : Type 0 where
  pub key : Text
  pub value : V

-- `Event`: its four `interface{}` fields hold what `Put` fills in.
pub record Event (V : Type 0) : Type 0 where
  pub key : Text
  pub value : Entry V
  pub type : EventType
  pub event_mho_state : MhoState

-- `MetricValue`; `U` is the UE identity message of the service model.
pub record MetricValue (U : Type 0) : Type 0 where
  pub raw_ue_id : U
  pub tgt_cell_id : Text
  pub state : MhoState
  pub call_process_id : Text
  pub e2_node_id : Text
