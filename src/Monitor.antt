-- ===== src/Monitor.antt =====
-- pkg/monitoring/monitor.go: how an indication of an E2 node becomes an entry of the store.
pub mod Laws
pub mod Loop
pub mod Options
pub mod Errors
use onos_mho.Base.{
  ℕ, Text, Text-discrete, Bool, true, false, if◌then◌else◌, ite, is_yes, List, [], ◌∷◌, Option,
  none, some,
}
use onos_mho.Base.Result.{Result, ok, err, panic, Error, not_supported, ◌>>=◌, ◌>>◌}
use onos_mho.Store.Types.{MetricValue, MhoState, MhoState-discrete, state_created, denied, Entry}
use onos_mho.Store.{get, has_entry}
use onos_mho.Memory.{Memory, put_metric, put_new, deref}
use onos_mho.Utils.Ies.{Ies}
use onos_mho.Utils.Id.{generate_gnb_ue_id_string}

-- `e2api.Indication`: the three fields that are read.
pub record Indication : Type 0 where
  pub header : Text
  pub payload : Text
  pub call_process_id : Text

-- What the handler takes from an indication.
pub record Report (U : Type 0) : Type 0 where
  pub key : Text
  pub ue_id : U
  pub tgt_cell_id : Text
  pub call_process_id : Text

-- `l[0]`
abbrev pub first : {A : Type 0} → List A → Result A
first [] = panic
first (x ∷ _) = ok x

abbrev supported : {A : Type 0} → Option A → Result A
supported none = err not_supported
supported (some a) = ok a

module _ (ies : Ies) where
  -- The path to the target cell in the message, three structures deep.
  unfoldable pub tgt_cell_id : ies.Message → Result Text
  tgt_cell_id message = do
    primary ← first (ies.requested_list message)
    target ← first (ies.sequence (ies.message_item_type primary))
    nr_cell ← first (ies.sequence (ies.structure_item_type target))
    nrcgi ← first (ies.sequence (ies.structure_item_type nr_cell))
    ok (ies.printable_string (ies.element_false (ies.structure_item_type nrcgi)))

  -- The part of `processInsertIndicationHeader2Message5` that reads the indication.
  unfoldable pub read_indication : Indication → Result (Report ies.Ueid)
  unfolding tgt_cell_id
  read_indication indication = do
    header ← ies.unmarshal_header indication.header
    message ← ies.unmarshal_message indication.payload
    let ue_id = ies.header_ue_id header
    ueid ← supported (ies.gnb_ueid ue_id)
    cell ← tgt_cell_id message
    ok (record {
      key = generate_gnb_ue_id_string ies ueid;
      ue_id = ue_id;
      tgt_cell_id = cell;
      call_process_id = indication.call_process_id;
    })

module _ {U : Type 0} where
  -- The new value of a report from a node.
  unfoldable pub metric_value : Report U → Text → MetricValue U
  metric_value r node_id = record {
    raw_ue_id = r.ue_id;
    tgt_cell_id = r.tgt_cell_id;
    state = state_created;
    call_process_id = r.call_process_id;
    e2_node_id = node_id;
  }

-- What the handler decides to write: a new value, the stored pointer again, or nothing.
pub data Plan : Type 0 where
  insert leave : Plan
  again : ℕ → Plan

module _ {U : Type 0} where
  -- The comparison of a stored value with the report.
  unfoldable pub compare_metric : Report U → ℕ → MetricValue U → Plan
  compare_metric r p nv =
      ite (Text-discrete nv.tgt_cell_id r.tgt_cell_id)
        (ite (MhoState-discrete nv.state denied) (again p) leave) insert

module _ {U I C : Type 0} where
  -- `Get` and the comparison, for a key that is there.
  unfoldable pub plan_stored : Report U → Memory U I C → Result Plan
  unfolding compare_metric
  plan_stored r m = do v ← get r.key m.store; nv ← deref v.value m; ok (compare_metric r v.value nv)

  unfoldable pub plan : Report U → Memory U I C → Result Plan
  unfolding plan_stored
  plan r m = if has_entry r.key m.store then plan_stored r m else ok insert

  -- The `Put` that follows.
  unfoldable pub commit : Report U → Text → Plan → Memory U I C → Memory U I C × Result (Unit {0})
  unfolding metric_value
  commit r node_id insert m = put_new r.key (metric_value r node_id) state_created m
  commit r node_id (again p) m = put_metric r.key p denied m
  commit r node_id leave m = (m, ok tt)

  -- The handler on a report, with no other call in between.
  unfoldable pub process_report : Report U → Text → Memory U I C → Memory U I C × Result (Unit {0})
  unfolding plan commit
  process_report r node_id m = elim (plan r m) [
    | ok p ↦ commit r node_id p m
    | err e ↦ (m, err e)
    | panic ↦ (m, panic)
  ]

module _ (ies : Ies) {I C : Type 0} where
  unfoldable pub process_indication :
      Indication → Text → Memory ies.Ueid I C → Memory ies.Ueid I C × Result (Unit {0})
  unfolding read_indication process_report
  process_indication indication node_id m = elim (read_indication ies indication) [
    | ok r ↦ process_report r node_id m
    | err e ↦ (m, err e)
    | panic ↦ (m, panic)
  ]
