-- ===== src/Southbound/Connections/Laws.antt =====
-- pkg/southbound/e2/manager.go: which nodes are subscribed to, and what a subscription sets up.
use onos_mho.Base.{
  ℕ, ◌≡◌, refl, sym, ap, ◌∙◌, Text, true, List, [], ◌∷◌, ◌++◌, append_assoc, append-nil, All,
  All-append, Option, none, some, inl, inr, arith,
}
use onos_mho.Base.Result.{Result, ok, err, Error, Result-cases, and_then-Passes}
use onos_mho.Broker.Stream.{Stream}
use onos_mho.Broker.Registry.{StreamBroker, find_sub}
use onos_mho.Rnib.{Topo, get_e2_node_aspects, has_rc_ran_function, get_cells}
use onos_mho.Utils.Ies.{Ies, PduBuilder}
use onos_mho.Utils.Subscription.{create_event_trigger_definition, create_subscription_action}
use onos_mho.Southbound.Connections.{
  rc_oid, subscription_name, SubscriptionSpec, removed, TopoEvent, on_joined, on_left,
  on_topo_event, started, watch_e2_connections, actions_or_nil, get_ran_function,
}

module _ (topo : Topo) where
  open topo use {Object, RanFunction, RcRanFunction, ServiceModelInfo}

  -- The node has the RAN function.
  abbrev pub HasFunction : Text → Type 0
  HasFunction id = has_rc_ran_function topo id rc_oid ≡ ok true

  on_joined-All :
      (object : Object) (o : Option Text)
      → on_joined topo object ≡ ok o
      → All HasFunction (started o)
  unfolding on_joined
  on_joined-All object none h = tt
  on_joined-All object (some id) h =
      let chain_id = and_then-Passes _ (topo.tgt_entity_id object) h in
      let id' = chain_id.value in
      let at = chain_id.returned in
      let h1 = chain_id.rest in
      let chain_found = and_then-Passes _ (has_rc_ran_function topo id' rc_oid) h1 in
      let found = chain_found.value in
      let has = chain_found.returned in
      let h2 = chain_found.rest in
      let same : id' ≡ id = ground arith in
      let yes_found : found ≡ true = ground arith in
      (ap (λ i. has_rc_ran_function topo i rc_oid) (sym same) ∙ has ∙ ap ok yes_found, tt)

  on_left_none : (object : Object) (o : Option Text) → on_left topo object ≡ ok o → o ≡ none
  unfolding on_left
  on_left_none object o h =
      let chain_id = and_then-Passes _ (topo.tgt_entity_id object) h in
      let id = chain_id.value in
      let at = chain_id.returned in
      let h1 = chain_id.rest in
      let chain_found = and_then-Passes _ (has_rc_ran_function topo id rc_oid) h1 in
      let found = chain_found.value in
      let has = chain_found.returned in
      let h2 = chain_found.rest in
      elim (Result-cases (get_cells topo id)) [
        | inl (cells, g) ↦ ground (arith, g)
        | inr (inl (x, g)) ↦ ground (arith, g)
        | inr (inr g) ↦ ground (arith, g)
      ]

  on_topo_event-All :
      (e : TopoEvent Object) (o : Option Text)
      → on_topo_event topo e ≡ ok o
      → All HasFunction (started o)
  unfolding on_topo_event
  on_topo_event-All e none h = tt
  on_topo_event-All e (some id) h = elim (Result-cases (on_left topo e.object)) [
    | inl (o, l) ↦ on_joined-All e.object (some id) (ground (arith, l, on_left_none e.object o l))
    | inr (inl (x, l)) ↦ on_joined-All e.object (some id) (ground (arith, l))
    | inr (inr l) ↦ on_joined-All e.object (some id) (ground (arith, l))
  ]

  -- Whatever events come, each node that is subscribed to and watched has the RAN function.
  pub watch_e2_connections-All :
      (es : List (TopoEvent Object)) → All HasFunction (watch_e2_connections topo es).0
  unfolding watch_e2_connections
  watch_e2_connections-All [] = tt
  watch_e2_connections-All (e ∷ es) = elim (Result-cases (on_topo_event topo e)) [
    | inl (o, h) ↦
        rw (h, watch_e2_connections)
          (All-append HasFunction (started o) (watch_e2_connections topo es).0
            (on_topo_event-All e o h) (watch_e2_connections-All es))
    | inr (inl (x, h)) ↦ rw (h, watch_e2_connections) tt
    | inr (inr h) ↦ rw (h, watch_e2_connections) tt
  ]

  on_removed :
      (e : TopoEvent Object) (id : Text) (x : Error)
      → e.type ≡ removed
      → topo.tgt_entity_id e.object ≡ ok id
      → HasFunction id
      → get_cells topo id ≡ err x
      → on_topo_event topo e ≡ err x
  unfolding on_topo_event on_left
  on_removed e id x t at has cells = ground arith

  watch-append :
      (es fs : List (TopoEvent Object))
      → (watch_e2_connections topo es).1 ≡ ok tt
      → watch_e2_connections topo (es ++ fs) ≡ (
        (watch_e2_connections topo es).0 ++ (watch_e2_connections topo fs).0,
        (watch_e2_connections topo fs).1,
      )
  unfolding watch_e2_connections
  watch-append [] fs h = refl
  watch-append (e ∷ es) fs h = elim (Result-cases (on_topo_event topo e)) [
    | inl (o, at) ↦
        let h' : (watch_e2_connections topo es).1 ≡ ok tt = rw (at, watch_e2_connections) at h in
        rw (at, watch_e2_connections)
          (rw (watch-append es fs h') (
            ap (λ l. (l, (watch_e2_connections topo fs).1))
              (sym (
                append_assoc (started o) (watch_e2_connections topo es).0
                  (watch_e2_connections topo fs).0))))
    | inr (inl (x, at)) ↦ absurd (ground (arith, at))
    | inr (inr at) ↦ absurd (ground (arith, at))
  ]

  -- After the removal of a node with the RAN function for whose cells the service has an error, such as
  -- that there are none any more, no event is handled: no node that connects later is subscribed to.
  pub removal_ends_watch :
      (before after : List (TopoEvent Object)) (e : TopoEvent Object) (id : Text) (x : Error)
      → (watch_e2_connections topo before).1 ≡ ok tt
      → e.type ≡ removed
      → topo.tgt_entity_id e.object ≡ ok id
      → HasFunction id
      → get_cells topo id ≡ err x
      → watch_e2_connections topo (before ++ e ∷ after)
        ≡ ((watch_e2_connections topo before).0, err x)
  unfolding watch_e2_connections
  removal_ends_watch before after e id x h t at has cells =
      watch-append before (e ∷ after) h
      ∙ (rw (on_removed e id x t at has cells, watch_e2_connections)
          (ap (λ l. (l, err x)) (append-nil (watch_e2_connections topo before).0)))

module _ (topo : Topo) (ies : Ies) (pdu : PduBuilder ies) (to_lower : Text → Text) (name : Text)
    {D N : Type 0} (node : Text → N) (subscribe : N → Text → SubscriptionSpec → Result Text)
    (id : Text) (b : StreamBroker D N SubscriptionSpec) where
  -- What `createSubscription` has asked for, and got, where it subscribes with `spec` and is answered
  -- `channel_id`: the builders' trigger and actions (none, if their builder has an error), the node's
  -- aspects and the RAN function of the service model.
  abbrev pub Subscribed : SubscriptionSpec → Text → Type 0
  Subscribed spec channel_id =
      (aspects : topo.E2Node) × (ran_function : topo.RcRanFunction)
      × (create_event_trigger_definition ies pdu ≡ ok spec.event_trigger)
      × (get_e2_node_aspects topo id ≡ ok aspects)
      × (get_ran_function topo to_lower name (topo.service_models aspects) ≡ ok ran_function)
      × (actions_or_nil (create_subscription_action ies pdu) ≡ ok spec.actions)
      × (subscribe (node id) subscription_name spec ≡ ok channel_id)

  -- The stream that the reader opens: the one that stands under the channel, or else a new one, for
  -- this node, name and specification.
  abbrev pub Opens :
      SubscriptionSpec
      → Text
      → Stream D N SubscriptionSpec
      → ℕ
      → StreamBroker D N SubscriptionSpec
      → Type 0
  Opens spec channel_id s p b' =
      ((q : ℕ) → find_sub channel_id b ≡ some q → (p ≡ q) × (b' ≡ b))
      × (find_sub channel_id b ≡ none
          → (s.io.node ≡ node id) × (s.io.sub_name ≡ subscription_name) × (s.io.sub_spec ≡ spec))
