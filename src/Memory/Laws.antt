-- ===== src/Memory/Laws.antt =====
-- What the operations on the shared state do to the value under each key, and which events they send.
use mathlib.Core.List.{map-append}
use onos_mho.Base.{
  ℕ, ◌+◌, ◌≡◌, refl, ◌∙◌, ap, sym, ◌≢◌, Text, length, length-map, length-append, get_elem?-of_map,
  get_elem?, get_elem?-append_some, get_elem?-append_length, get_elem?-set_ne, get_elem?-set_self,
  set, [], ◌∷◌, ◌++◌, map, some, if◌then◌else◌, Option-cases, inl, inr, true, arith,
}
use onos_mho.Base.Result.{ok}
use onos_mho.Store.Types.{MetricValue, MhoState, EventType, Event}
use onos_mho.Store.{has_entry}
use onos_mho.Store.Laws.{get-put, put_sends, put_ok, has_entry-get, has_entry-put}
use onos_mho.Memory.{Memory, Signal, events, signals, signal, put_metric, put_new, At, set_state}

module _ {U I C : Type 0} where
  -- The signal of a write to a key.
  abbrev pub write_signal : Text → MhoState → Memory U I C → Signal
  write_signal key state m =
      (key, if has_entry key m.store then EventType.updated else EventType.created, state)

  pub put_metric_ok :
      (key : Text) (p : ℕ) (state : MhoState) (m : Memory U I C)
      → (put_metric key p state m).1 ≡ ok tt
  unfolding put_metric
  put_metric_ok key p state m = rw (put_ok key p state m.store, put_metric)

  pub signals-put_metric :
      (key : Text) (p : ℕ) (state : MhoState) (m : Memory U I C)
      → signals (put_metric key p state m).0 ≡ signals m ++ write_signal key state m ∷ []
  unfolding put_metric
  signals-put_metric key p state m =
      ap (map signal) (put_sends key p state m.store) ∙ map-append signal _ _

  -- A write leads the key to the pointer that is written, and leaves the other keys alone.
  pub put_metric-At :
      (key : Text) (p : ℕ) (state : MhoState) (m : Memory U I C) {nv : MetricValue U}
      → get_elem? m.metrics p ≡ some nv
      → At (put_metric key p state m).0 key p nv
  unfolding put_metric
  put_metric-At key p state m e = (ground (arith, get-put key key p state m.store), e)

  pub put_metric-At_ne :
      (key j : Text) (p q : ℕ) (state : MhoState) (m : Memory U I C) {nv : MetricValue U}
      → key ≢ j
      → At m j q nv
      → At (put_metric key p state m).0 j q nv
  unfolding put_metric
  put_metric-At_ne key j p q state m n h = (ground (arith, get-put key j p state m.store, h.0), h.1)

  pub put_new_ok :
      (key : Text) (value : MetricValue U) (state : MhoState) (m : Memory U I C)
      → (put_new key value state m).1 ≡ ok tt
  unfolding put_new
  put_new_ok key value state m =
      put_metric_ok key _ state (record m { metrics = m.metrics ++ value ∷ [] })

  pub signals-put_new :
      (key : Text) (value : MetricValue U) (state : MhoState) (m : Memory U I C)
      → signals (put_new key value state m).0 ≡ signals m ++ write_signal key state m ∷ []
  unfolding put_new
  signals-put_new key value state m =
      signals-put_metric key _ state (record m { metrics = m.metrics ++ value ∷ [] })

  pub put_new-At :
      (key : Text) (value : MetricValue U) (state : MhoState) (m : Memory U I C)
      → At (put_new key value state m).0 key (length m.metrics) value
  unfolding put_new
  put_new-At key value state m =
      put_metric-At key _ state _ (get_elem?-append_length m.metrics value [])

  pub put_new-At_ne :
      (key j : Text) (value : MetricValue U) (q : ℕ) (state : MhoState) (m : Memory U I C)
      {nv : MetricValue U}
      → key ≢ j
      → At m j q nv
      → At (put_new key value state m).0 j q nv
  unfolding put_new
  put_new-At_ne key j value q state m n h =
      put_metric-At_ne key j _ q state _ n (h.0, get_elem?-append_some m.metrics _ q h.1)

  -- A write through a pointer changes what every holder of the pointer reads, and nothing else.
  pub set_state_lem :
      (p : ℕ) (state : MhoState) (m : Memory U I C) {nv : MetricValue U}
      → get_elem? m.metrics p ≡ some nv
      → set_state p state m ≡ record m { metrics = set m.metrics p (record nv { state = state }) }
  unfolding set_state
  set_state_lem p state m e = rw (e, set_state)

  pub set_state_self :
      (p : ℕ) (state : MhoState) (m : Memory U I C) {nv : MetricValue U}
      → get_elem? m.metrics p ≡ some nv
      → get_elem? (set_state p state m).metrics p ≡ some (record nv { state = state })
  set_state_self p state m e = rw (set_state_lem p state m e) (get_elem?-set_self m.metrics p _ e)

  pub set_state-At :
      (key : Text) (p : ℕ) (state : MhoState) (m : Memory U I C) {nv : MetricValue U}
      → At m key p nv
      → At (set_state p state m) key p (record nv { state = state })
  set_state-At key p state m h =
      rw (set_state_lem p state m h.1) (h.0, get_elem?-set_self m.metrics p _ h.1)

  pub set_state-At_ne :
      (j : Text) (p q : ℕ) (state : MhoState) (m : Memory U I C) {nv mv : MetricValue U}
      → p ≢ q
      → get_elem? m.metrics p ≡ some nv
      → At m j q mv
      → At (set_state p state m) j q mv
  set_state-At_ne j p q state m n e h =
      rw (set_state_lem p state m e) (h.0, get_elem?-set_ne m.metrics p q _ n ∙ h.1)

  pub signals-set_state :
      (p : ℕ) (state : MhoState) (m : Memory U I C) → signals (set_state p state m) ≡ signals m
  unfolding set_state
  signals-set_state p state m = elim (Option-cases (get_elem? m.metrics p)) [
    | inl e ↦ rw (e, set_state)
    | inr (nv, e) ↦ rw (e, set_state)
  ]

  pub has_entry-At :
      (key : Text) (p : ℕ) (m : Memory U I C) {nv : MetricValue U}
      → At m key p nv
      → has_entry key m.store ≡ true
  has_entry-At key p m h = has_entry-get key m.store h.0

  pub has_entry-put_metric :
      (key j : Text) (p : ℕ) (state : MhoState) (m : Memory U I C)
      → key ≢ j
      → has_entry j (put_metric key p state m).0.store ≡ has_entry j m.store
  unfolding put_metric
  has_entry-put_metric key j p state m n = ground (arith, has_entry-put key j p state m.store)

  pub store-set_state :
      (p : ℕ) (state : MhoState) (m : Memory U I C) → (set_state p state m).store ≡ m.store
  unfolding set_state
  store-set_state p state m = elim (Option-cases (get_elem? m.metrics p)) [
    | inl e ↦ rw (e, set_state) refl
    | inr (nv, e) ↦ rw (e, set_state) refl
  ]

  -- The event that an operation sends stands behind those sent before.
  pub sent_event :
      (m m' : Memory U I C) {s : Signal}
      → signals m' ≡ signals m ++ s ∷ []
      → (e : Event ℕ) × (get_elem? (events m') (length (events m)) ≡ some e)
        × (signal e ≡ s)
        × (length (events m') ≡ length (events m) + 1)
  sent_event m m' {s} sent =
      let (e, found, same) = get_elem?-of_map signal (events m') (signals m) s sent in
      (
        e,
        ap (get_elem? (events m')) (sym (length-map (events m) signal)) ∙ found,
        same,
        omega (
          arith,
          length-map (events m) signal,
          length-map (events m') signal,
          length-append (signals m) (s ∷ []),
          ap length sent,
        ),
      )

  -- A write of a state and the `Put` that follows leave the other keys alone.
  pub set_state-put_metric-At_ne :
      (key j : Text) (p q : ℕ) (state : MhoState) (m : Memory U I C) {nv mv : MetricValue U}
      → key ≢ j
      → p ≢ q
      → get_elem? m.metrics p ≡ some nv
      → At m j q mv
      → At (put_metric key p state (set_state p state m)).0 j q mv
  set_state-put_metric-At_ne key j p q state m n np e h =
      put_metric-At_ne key j p q state (set_state p state m) n
        (set_state-At_ne j p q state m np e h)

  pub has_entry-set_state-put_metric :
      (key j : Text) (p : ℕ) (state : MhoState) (m : Memory U I C)
      → key ≢ j
      → has_entry j (put_metric key p state (set_state p state m)).0.store ≡ has_entry j m.store
  has_entry-set_state-put_metric key j p state m n =
      has_entry-put_metric key j p state (set_state p state m) n
      ∙ ap (has_entry j) (store-set_state p state m)

  pub has_entry-put_new :
      (key j : Text) (value : MetricValue U) (state : MhoState) (m : Memory U I C)
      → key ≢ j
      → has_entry j (put_new key value state m).0.store ≡ has_entry j m.store
  unfolding put_new
  has_entry-put_new key j value state m n =
      has_entry-put_metric key j _ state (record m { metrics = m.metrics ++ value ∷ [] }) n
