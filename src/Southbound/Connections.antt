-- ===== src/Southbound/Connections.antt =====
-- pkg/southbound/e2/manager.go, `getRanFunction`, `createSubscription` and `watchE2Connections`: from
-- the news of an E2 node to its subscription and its watcher.
pub mod Laws
use onos_mho.Base.{
  ℕ, Text, Text-discrete, codes, Bool, true, false, ◌&&◌, is_yes, if◌then◌else◌, ite, List, [], ◌∷◌,
  ◌++◌, Option, none, some,
}
use onos_mho.Base.Result.{Result, ok, err, panic, Error, not_found, ◌>>=◌}
use onos_mho.Broker.Registry.{StreamBroker, open_reader}
use onos_mho.Rnib.{Topo, get_e2_node_aspects, has_rc_ran_function, get_cells}
use onos_mho.Utils.Ies.{Ies, PduBuilder}
use onos_mho.Utils.Subscription.{
  Action, create_event_trigger_definition, create_subscription_action,
}

-- `oid`, the identifier of the service model.
abbrev pub rc_oid : Text
rc_oid = codes "1.3.6.1.4.1.53148.1.1.2.3"

abbrev pub subscription_name : Text
subscription_name = codes "onos-mho-subscription"

-- `e2api.SubscriptionSpec`, with the fields that are set.
pub record SubscriptionSpec : Type 0 where
  pub actions : List Action
  pub event_trigger : Text

-- `topoapi.EventType`.
pub data TopoEventType : Type 0 where
  none_type added updated_type removed : TopoEventType

unfoldable pub TopoEventType-discrete : Discrete TopoEventType
TopoEventType-discrete = hlevel

-- `topoapi.Event`, with the fields that are read.
pub record TopoEvent (O : Type 0) : Type 0 where
  pub type : TopoEventType
  pub object : O

-- The goroutines' node, if there is one.
abbrev pub started : Option Text → List Text
started none = []
started (some id) = id ∷ []

module _ (topo : Topo) where
  open topo use {Object, RanFunction, RcRanFunction, ServiceModelInfo}

  -- The inner loop of `getRanFunction`, to where it returns. A nil function would panic; none is.
  unfoldable pub first_function : List RanFunction → Option RanFunction
  first_function [] = none
  first_function (f ∷ rest) =
      ite (Text-discrete (topo.type_url f) (topo.get_type_url f)) (some f) (first_function rest)

  -- `to_lower` is `strings.ToLower`, `name` the configured name of the service model.
  unfoldable pub get_ran_function :
      (Text → Text) → Text → List ServiceModelInfo → Result RcRanFunction
  unfolding first_function
  get_ran_function to_lower name [] = err not_found
  get_ran_function to_lower name (sm ∷ rest) =
      let others = get_ran_function to_lower name rest in
      if is_yes (Text-discrete (to_lower (topo.name sm)) name)
        && is_yes (Text-discrete (topo.oid sm) rc_oid)
      then elim (first_function (topo.ran_functions sm)) [
        | none ↦ others
        | some f ↦ topo.unmarshal_any f
      ]
      else others

  -- The branch of `watchE2Connections` for an event of type ADDED or NONE, and the one for REMOVED:
  -- the node to subscribe to and to watch, if any.
  unfoldable pub on_joined : Object → Result (Option Text)
  unfolding has_rc_ran_function
  on_joined object = do
    e2_node_id ← topo.tgt_entity_id object
    found ← has_rc_ran_function topo e2_node_id rc_oid
    ok (if found then some e2_node_id else none)

  unfoldable pub on_left : Object → Result (Option Text)
  unfolding has_rc_ran_function get_cells
  on_left object = do
    e2_node_id ← topo.tgt_entity_id object
    found ← has_rc_ran_function topo e2_node_id rc_oid
    if found then (get_cells topo e2_node_id >>= λ cells. ok none) else ok none

  unfoldable pub on_topo_event : TopoEvent Object → Result (Option Text)
  unfolding on_joined on_left
  on_topo_event e = ite (TopoEventType-discrete e.type added) (on_joined e.object) (
      ite (TopoEventType-discrete e.type none_type) (on_joined e.object)
        (ite (TopoEventType-discrete e.type removed) (on_left e.object) (ok none)))

  -- The loop over the events of the channel, until it is closed: the nodes for which the two
  -- goroutines are started, and how the loop ends.
  unfoldable pub watch_e2_connections : List (TopoEvent Object) → List Text × Result (Unit {0})
  unfolding on_topo_event
  watch_e2_connections [] = ([], ok tt)
  watch_e2_connections (e ∷ es) =
      let rest = watch_e2_connections es in
      elim (on_topo_event e) [
        | ok o ↦ (started o ++ rest.0, rest.1)
        | err x ↦ ([], err x)
        | panic ↦ ([], panic)
      ]

-- An error of the action's builder is only logged: the actions are nil then.
abbrev pub actions_or_nil : Result (List Action) → Result (List Action)
actions_or_nil (ok actions) = ok actions
actions_or_nil (err _) = ok []
actions_or_nil panic = panic

module _ (topo : Topo) (ies : Ies) (pdu : PduBuilder ies) (to_lower : Text → Text)
    (name : Text) where
  -- The part of `createSubscription` up to the specification.
  unfoldable pub subscription_spec : Text → Result SubscriptionSpec
  unfolding get_ran_function
  subscription_spec e2_node_id = do
    event_trigger ← create_event_trigger_definition ies pdu
    aspects ← get_e2_node_aspects topo e2_node_id
    ran_function ← get_ran_function topo to_lower name (topo.service_models aspects)
    actions ← actions_or_nil (create_subscription_action ies pdu)
    ok (record { actions = actions; event_trigger = event_trigger })

  -- `node` is `e2client.Node`, and `subscribe` a node's `Subscribe`, which gives the channel's id.
  module _ {N : Type 0} (node : Text → N)
      (subscribe : N → Text → SubscriptionSpec → Result Text) where
    -- The specification, and `Subscribe` with it.
    unfoldable pub subscribe_node : Text → Result (SubscriptionSpec × Text)
    unfolding subscription_spec
    subscribe_node e2_node_id = do
      spec ← subscription_spec e2_node_id
      channel_id ← subscribe (node e2_node_id) subscription_name spec
      ok (spec, channel_id)

    module _ {D : Type 0} where
      -- `createSubscription`, up to the start of the monitor on the reader that it gives.
      unfoldable pub create_subscription :
          Text → StreamBroker D N SubscriptionSpec → StreamBroker D N SubscriptionSpec × Result ℕ
      unfolding subscribe_node
      create_subscription e2_node_id b = elim (subscribe_node e2_node_id) [
        | ok (spec, channel_id) ↦
            let (b', stream) = open_reader (node e2_node_id) subscription_name channel_id spec b in
            (b', ok stream)
        | err e ↦ (b, err e)
        | panic ↦ (b, panic)
      ]
