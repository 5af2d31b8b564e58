-- ===== src/Tests/Topology.antt =====
-- The topology service and the E2 connections, on concrete values.
use onos_mho.Base.{
  ℕ, ◌≡◌, refl, Text, Text-discrete, codes, true, is_yes, if◌then◌else◌, All, List, [], ◌∷◌,
}
use onos_mho.Base.Result.{Result, ok, err, panic, not_found}
use onos_mho.Broker.Registry.{StreamBroker, new_broker}
use onos_mho.Rnib.{
  Topo, get_e2_node_aspects, has_oid, has_rc_ran_function, append_ids, get_cells, collect_cells,
  some_cells,
}
use onos_mho.Rnib.Laws.{matching}
use onos_mho.Southbound.Connections.{
  rc_oid, SubscriptionSpec, TopoEvent, added, removed, watch_e2_connections, subscription_spec,
  on_topo_event, on_joined, TopoEventType-discrete,
}
use onos_mho.Southbound.Connections.Laws.{watch_e2_connections-All, removal_ends_watch, HasFunction}
use onos_mho.Tests.{toy_ies, toy_pdu, cell_a, node_1, node_2}

-- Every node has the RAN function; node 2 has no cell.
abbrev cells_of : Text → List Text
cells_of id = if is_yes (Text-discrete id node_1) then cell_a ∷ [] else []

abbrev pub toy_topo : Topo
toy_topo = record {
  Object = Text;
  E2Node = Text;
  E2Cell = Text;
  RanFunction = Text;
  RcRanFunction = Text;
  ServiceModelInfo = Text;
  get = λ id. ok id;
  list_controls = ok (node_1 ∷ node_2 ∷ []);
  list_contained = λ id. ok (cells_of id);
  tgt_entity_id = λ object. ok object;
  is_e2_cell = λ object. true;
  node_aspect = λ object. ok object;
  cell_aspect = λ object. ok object;
  service_models = λ e2_node. e2_node ∷ [];
  oid = λ sm. rc_oid;
  name = λ sm. codes "oran-e2sm-rc";
  ran_functions = λ sm. sm ∷ [];
  type_url = λ f. f;
  get_type_url = λ f. f;
  unmarshal_any = λ f. ok f;
}

both_match : matching toy_topo rc_oid (node_1 ∷ node_2 ∷ []) ≡ ok (node_1 ∷ node_2 ∷ [])
unfolding append_ids has_rc_ran_function get_e2_node_aspects has_oid Text-discrete
both_match = refl

cells_1 : get_cells toy_topo node_1 ≡ ok (cell_a ∷ [])
unfolding get_cells collect_cells some_cells Text-discrete
cells_1 = refl

abbrev joins : Text → TopoEvent Text
joins id = record { type = added; object = id }

abbrev leaves : Text → TopoEvent Text
leaves id = record { type = removed; object = id }

watch_e2_connections-All_example :
    All (HasFunction toy_topo) (watch_e2_connections toy_topo (joins node_1 ∷ joins node_2 ∷ [])).0
watch_e2_connections-All_example =
    watch_e2_connections-All toy_topo (joins node_1 ∷ joins node_2 ∷ [])

has_function_2 : has_rc_ran_function toy_topo node_2 rc_oid ≡ ok true
unfolding has_rc_ran_function get_e2_node_aspects has_oid Text-discrete
has_function_2 = refl

no_cells_2 : get_cells toy_topo node_2 ≡ err not_found
unfolding get_cells collect_cells some_cells Text-discrete
no_cells_2 = refl

joined_2 : (watch_e2_connections toy_topo (joins node_2 ∷ [])).1 ≡ ok tt
unfolding watch_e2_connections on_topo_event on_joined has_rc_ran_function get_e2_node_aspects
    has_oid Text-discrete TopoEventType-discrete
joined_2 = refl

removal_ends_watch_example :
    watch_e2_connections toy_topo (joins node_2 ∷ leaves node_2 ∷ joins node_1 ∷ [])
    ≡ ((watch_e2_connections toy_topo (joins node_2 ∷ [])).0, err not_found)
removal_ends_watch_example =
    removal_ends_watch toy_topo (joins node_2 ∷ []) (joins node_1 ∷ []) (leaves node_2) node_2
      not_found joined_2 refl refl has_function_2 no_cells_2

abbrev the_node : Text → Text
the_node id = id

abbrev answers_channel : Text → Text → SubscriptionSpec → Result Text
answers_channel n name spec = ok (codes "channel_1")

abbrev same_text : Text → Text
same_text t = t

abbrev no_streams : StreamBroker ℕ Text SubscriptionSpec
no_streams = new_broker

abbrev lower_name : Text
lower_name = codes "oran-e2sm-rc"

abbrev made_spec : SubscriptionSpec
made_spec = elim (subscription_spec toy_topo toy_ies toy_pdu same_text lower_name node_1) [
  | ok spec ↦ spec
  | err _ ↦ record { actions = []; event_trigger = [] }
  | panic ↦ record { actions = []; event_trigger = [] }
]
