-- ===== src/System/Totality.antt =====
-- The handlers read the store through pointers that may be nil: pkg/controller/mho.go and
-- pkg/southbound/e2/manager.go go on after an error of `Get`. Here: what they find in a state that the
-- system can reach.
use mathlib.Core.List.{Memᴰ}
use onos_mho.Base.{
  ℕ, ◌≡◌, subst, Text, Text-discrete, true, get_elem?, [], ◌∷◌, ◌++◌, All, All-append, All-map,
  All-Mem, some, Option-cases, inl, inr, Bool-cases, arith,
}
use onos_mho.Base.Result.{Result, ok, Result-cases}
use onos_mho.Base.Dict.{lookup}
use onos_mho.Store.{Store, has_entry, get, new_store}
use onos_mho.Store.Laws.{put_sends, has_entry-put, has_entry-get}
use onos_mho.Store.Types.{
  Event, Entry, MhoState, MetricValue, state_created, denied, approved, done,
}
use onos_mho.Store.Watching.{new_watchers}
use onos_mho.Memory.{Memory, events, put_metric, put_new, set_state, deref}
use onos_mho.Memory.Laws.{store-set_state}
use onos_mho.Utils.Ies.{Ies, PduBuilder}
use onos_mho.Monitor.{Report, Plan, insert, leave, again, metric_value, commit, plan, plan_stored}
use onos_mho.Controller.{plan_approval}
use onos_mho.Southbound.Handover.{plan_control}
use onos_mho.System.{
  System, Task, Reach, report, approval, control, work, here, next, start, remove_at, perform,
  reporting, approving, finishing, publishing, controlling,
}
use onos_mho.System.Plans.{ok_inj, control_step-cases}
use onos_mho.System.Invariant.Reach.{Reach-Inv, Owned-of_get}

module _ {U I C : Type 0} where
  -- The key of each event that was sent is in the store.
  abbrev pub KeysHeld : Memory U I C → Type 0
  KeysHeld m = All (λ (e : Event ℕ). has_entry e.key m.store ≡ true) (events m)

  put_metric-KeysHeld :
      (key : Text) (p : ℕ) (state : MhoState) (m : Memory U I C)
      → KeysHeld m
      → KeysHeld (put_metric key p state m).0
  unfolding put_metric
  put_metric-KeysHeld key p state m h = rw (put_sends key p state m.store) (
      All-append _ (events m) _
        (All-map _ _ (events m)
          (λ (e : Event ℕ) held. ground (arith, has_entry-put key e.key p state m.store)) h)
        (ground (arith, has_entry-put key key p state m.store), tt))

  set_state-KeysHeld :
      (p : ℕ) (state : MhoState) (m : Memory U I C) → KeysHeld m → KeysHeld (set_state p state m)
  set_state-KeysHeld p state m h = rw (store-set_state p state m) h

  commit-KeysHeld :
      (r : Report U) (node_id : Text) (p : Plan) (m : Memory U I C)
      → KeysHeld m
      → KeysHeld (commit r node_id p m).0
  unfolding commit put_new
  commit-KeysHeld r node_id insert m h =
      put_metric-KeysHeld r.key _ state_created
        (record m { metrics = m.metrics ++ metric_value r node_id ∷ [] }) h
  commit-KeysHeld r node_id leave m h = h
  commit-KeysHeld r node_id (again p) m h = put_metric-KeysHeld r.key p denied m h

module _ (ies : Ies) (pdu : PduBuilder ies) {I C : Type 0} where
  perform-KeysHeld :
      (t : Task ies.Ueid) (s : System ies.Ueid I C) {u : System ies.Ueid I C}
      → KeysHeld s.memory
      → perform ies pdu t s ≡ ok u
      → KeysHeld u.memory
  unfolding perform
  perform-KeysHeld (reporting r node_id p) s h e =
      subst (λ (u : System ies.Ueid I C). KeysHeld u.memory) (ok_inj e)
        (commit-KeysHeld r node_id p s.memory h)
  perform-KeysHeld (approving key p) s h e =
      subst (λ (u : System ies.Ueid I C). KeysHeld u.memory) (ok_inj e)
        (set_state-KeysHeld p approved s.memory h)
  perform-KeysHeld (finishing key p) s h e =
      subst (λ (u : System ies.Ueid I C). KeysHeld u.memory) (ok_inj e)
        (set_state-KeysHeld p done s.memory h)
  perform-KeysHeld (publishing key p state) s h e =
      subst (λ (u : System ies.Ueid I C). KeysHeld u.memory) (ok_inj e)
        (put_metric-KeysHeld key p state s.memory h)
  perform-KeysHeld (controlling node_id key p nv) s h e =
      elim (control_step-cases ies pdu node_id key p nv s e) [
        | inl same ↦ subst (λ (u : System ies.Ueid I C). KeysHeld u.memory) same h
        | inr (call, _, same) ↦ subst (λ (u : System ies.Ueid I C). KeysHeld u.memory) same h
      ]

  module _ (Received : Report ies.Ueid → Text → Type 0) where
    Reach-KeysHeld : {s : System ies.Ueid I C} → Reach ies pdu Received s → KeysHeld s.memory
    unfolding start new_store new_watchers
    Reach-KeysHeld here = tt
    Reach-KeysHeld (next r (report _ _ _ _ _)) = Reach-KeysHeld r
    Reach-KeysHeld (next r (approval _ _ _ _)) = Reach-KeysHeld r
    Reach-KeysHeld (next r (control _ _ _ _ _ _)) = Reach-KeysHeld r
    Reach-KeysHeld (next {s} r (work i t _ e)) =
        perform-KeysHeld t (record s { tasks = remove_at i s.tasks }) (Reach-KeysHeld r) e

-- An answer, and neither an error nor a panic.
abbrev pub Answers : {A : Type 0} → Result A → Type 0
Answers {A} r = (a : A) × (r ≡ ok a)

get_of_has_entry :
    {V I C : Type 0} (key : Text) (s : Store V I C) → has_entry key s ≡ true → Answers (get key s)
unfolding has_entry get
get_of_has_entry key s h = elim (Option-cases (lookup Text-discrete key s.records)) [
  | inl e ↦ absurd (ground (arith, e))
  | inr (v, e) ↦ (v, ground (arith, e))
]

module _ {U I C : Type 0} (m : Memory U I C) {v : Entry ℕ} where
  plan_approval-Answers : (e : Event ℕ) → get e.key m.store ≡ ok v → Answers (plan_approval e m)
  unfolding plan_approval
  plan_approval-Answers e g = elim (Result-cases (plan_approval e m)) [
    | inl (o, h) ↦ (o, h)
    | inr (inl (x, h)) ↦ absurd (ground (arith, g))
    | inr (inr h) ↦ absurd (ground (arith, g))
  ]

  plan_control-Answers :
      (node_id : Text) (e : Event ℕ) {nv : MetricValue U}
      → get e.key m.store ≡ ok v
      → get_elem? m.metrics v.value ≡ some nv
      → Answers (plan_control node_id e m)
  unfolding plan_control deref
  plan_control-Answers node_id e g at = elim (Result-cases (plan_control node_id e m)) [
    | inl (o, h) ↦ (o, h)
    | inr (inl (x, h)) ↦ absurd (ground (arith, g, at))
    | inr (inr h) ↦ absurd (ground (arith, g, at))
  ]

  plan-Answers :
      (r : Report U) {nv : MetricValue U}
      → get r.key m.store ≡ ok v
      → get_elem? m.metrics v.value ≡ some nv
      → Answers (plan r m)
  unfolding plan plan_stored deref
  plan-Answers r g at = elim (Result-cases (plan r m)) [
    | inl (o, h) ↦ (o, h)
    | inr (inl (x, h)) ↦ absurd (ground (arith, g, at, has_entry-get r.key m.store g))
    | inr (inr h) ↦ absurd (ground (arith, g, at, has_entry-get r.key m.store g))
  ]

module _ (ies : Ies) (pdu : PduBuilder ies) (Received : Report ies.Ueid → Text → Type 0)
    {I C : Type 0} {s : System ies.Ueid I C} (reach : Reach ies pdu Received s) where
  -- However the handlers are interleaved, none of them panics, or fails, on what it finds in the store:
  -- a monitor with any report, and the controller and each node's watcher with any event that was sent,
  -- however late it reaches them.
  pub handlers_answer :
      ((r : Report ies.Ueid) → Answers (plan r s.memory))
      × ((e : Event ℕ) → Memᴰ e (events s.memory) → Answers (plan_approval e s.memory))
      × ((node_id : Text) (e : Event ℕ)
          → Memᴰ e (events s.memory)
          → Answers (plan_control node_id e s.memory))
  unfolding plan
  handlers_answer =
      let held = Reach-KeysHeld ies pdu Received reach in
      let found = λ (e : Event ℕ) (sent : Memᴰ e (events s.memory)).
        get_of_has_entry e.key s.memory.store (
          All-Mem (λ (e : Event ℕ). has_entry e.key s.memory.store ≡ true) (events s.memory) held
            sent) in
      let owned = λ (key : Text) (v : Entry ℕ) (g : get key s.memory.store ≡ ok v).
        Owned-of_get ies pdu Received key s (Reach-Inv ies pdu Received reach) g in
      (
        λ r. elim (Bool-cases (has_entry r.key s.memory.store)) [
          | inl there ↦
              let (v, g) = get_of_has_entry r.key s.memory.store there in
              let (nv, at, _, _) = owned r.key v g in plan-Answers s.memory r g at
          | inr gone ↦ (insert, rw gone)
        ],
        λ e sent. let (v, g) = found e sent in plan_approval-Answers s.memory e g,
        λ node_id e sent.
            let (v, g) = found e sent in
            let (nv, at, _, _) = owned e.key v g in plan_control-Answers s.memory node_id e g at,
      )
