-- ===== src/Memory.antt =====
-- The state that the components share: the metric store of pkg/store, whose values are pointers, and
-- the `MetricValue`s that they point to.
-- A pointer is an index into `metrics`, which holds every value allocated so far. The controller and
-- the E2 manager write a value's state through the pointer that `Get` gives them, so they change what
-- every holder of the pointer reads.
pub mod Laws
use onos_mho.Base.{◌≡◌, ℕ, ◌+◌, Text, length, get_elem?, set, List, [], ◌∷◌, ◌++◌, map, none, some}
use onos_mho.Base.Result.{Result, ok, err, panic}
use onos_mho.Store.Types.{MetricValue, MhoState, EventType, Entry, Event}
use onos_mho.Store.{Store, put, get}
use onos_mho.Store.Watching.{Watchers}

-- `U` is the type of UE identities, `I` of uuids, `C` of channels.
pub record Memory (U I C : Type 0) : Type 0 where
  pub metrics : List (MetricValue U)
  pub store : Store ℕ I C

-- What an event tells its watchers, apart from the entry, which they look up again.
abbrev pub Signal : Type 0
Signal = Text × EventType × MhoState

abbrev pub signal : Event ℕ → Signal
signal e = (e.key, e.type, e.event_mho_state)

module _ {U I C : Type 0} where
  -- The events that the store has sent so far, the oldest first.
  abbrev pub events : Memory U I C → List (Event ℕ)
  events m = m.store.watchers.senders

  abbrev pub signals : Memory U I C → List Signal
  signals m = map signal (events m)

  -- `metricStore.Put`, whose result the callers test for an error alone.
  unfoldable pub put_metric : Text → ℕ → MhoState → Memory U I C → Memory U I C × Result (Unit {0})
  put_metric key p state m =
      let (store, r) = put key p state m.store in
      (record m { store = store }, elim r [ ok _ ↦ ok tt | err e ↦ err e | panic ↦ panic ])

  -- `&store.MetricValue{...}`, and the `Put` of it.
  unfoldable pub put_new :
      Text → MetricValue U → MhoState → Memory U I C → Memory U I C × Result (Unit {0})
  unfolding put_metric
  put_new key value state m =
      put_metric key (length m.metrics) state (record m { metrics = m.metrics ++ value ∷ [] })

  -- Reading through a pointer, `v.Value.(*store.MetricValue)`: a nil `v` is a panic.
  unfoldable pub deref : ℕ → Memory U I C → Result (MetricValue U)
  deref p m = elim (get_elem? m.metrics p) [ none ↦ panic | some nv ↦ ok nv ]

  -- `nv.State = state`
  unfoldable pub set_state : ℕ → MhoState → Memory U I C → Memory U I C
  set_state p state m = elim (get_elem? m.metrics p) [
    | none ↦ m
    | some nv ↦ record m { metrics = set m.metrics p (record nv { state = state }) }
  ]

  -- The key holds the pointer `p`, which leads to the value `nv`.
  abbrev pub At : Memory U I C → Text → ℕ → MetricValue U → Type 0
  At m key p nv =
      (get key m.store ≡ ok (record { key = key; value = p })) × (get_elem? m.metrics p ≡ some nv)
