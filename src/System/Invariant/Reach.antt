-- ===== src/System/Invariant/Reach.antt =====
-- The invariant in every state that the system can reach.
use onos_mho.Base.{
  ℕ, zero, suc, ◌≡◌, subst, Text, Text-discrete, get_elem?, List, [], ◌∷◌, All, All-get_elem?, some,
}
use onos_mho.Base.Dict.{All-lookup}
use onos_mho.Base.Result.{ok}
use onos_mho.Store.{get, new_store}
use onos_mho.Store.Types.{MetricValue, Event, Entry}
use onos_mho.Utils.Ies.{Ies, PduBuilder}
use onos_mho.Monitor.{Report, Plan, insert, leave, again, plan}
use onos_mho.Southbound.Handover.{plan_control}
use onos_mho.System.{
  System, reporting, controlling, remove_at, Step, report, approval, control, work, Reach, here,
  next, start,
}
use onos_mho.System.Plans.{lookup_of_get, plan_approval-some, plan_control-some, plan_again}
use onos_mho.Store.Watching.{new_watchers}
use onos_mho.System.Invariant.{IsLive, Owned, EntryOk, TaskOk, Inv, report_of}
use onos_mho.System.Invariant.Steps.{task-Inv, perform-Inv}

pub All-remove_at :
    {A : Type 0} (P : A → Type 0) (i : ℕ) (xs : List A) → All P xs → All P (remove_at i xs)
All-remove_at P i [] h = tt
All-remove_at P zero (x ∷ xs) h = h.1
All-remove_at P (suc i) (x ∷ xs) h = (h.0, All-remove_at P i xs h.1)

module _ (ies : Ies) (pdu : PduBuilder ies) (Received : Report ies.Ueid → Text → Type 0)
    {I C : Type 0} where
  removed-Inv :
      (i : ℕ) (s : System ies.Ueid I C)
      → Inv ies pdu Received s
      → Inv ies pdu Received (record s { tasks = remove_at i s.tasks })
  removed-Inv i s v = record {
    records = v.records;
    tasks = All-remove_at _ i s.tasks v.tasks;
    sent = v.sent;
    values = v.values;
    calls = v.calls;
  }

  pub Owned-of_get :
      (key : Text) (s : System ies.Ueid I C) {v : Entry ℕ}
      → Inv ies pdu Received s
      → get key s.memory.store ≡ ok v
      → Owned ies Received s.memory key v.value
  Owned-of_get key s w g =
      All-lookup Text-discrete (EntryOk ies Received s.memory) key s.memory.store.records w.records
        (lookup_of_get key s.memory.store g)

  reporting_ok :
      (r : Report ies.Ueid) (node_id : Text) (p : Plan) (s : System ies.Ueid I C)
      → Inv ies pdu Received s
      → Received r node_id
      → plan r s.memory ≡ ok p
      → TaskOk ies Received s.memory (reporting r node_id p)
  reporting_ok r node_id insert s v received e = received
  reporting_ok r node_id leave s v received e = tt
  reporting_ok r node_id (again q) s v received e =
      let (nv, at, is_denied) = plan_again r s.memory e in
      (All-get_elem? (λ (nv : MetricValue ies.Ueid). IsLive nv.state) s.memory.metrics q v.values
          at).1
        is_denied

  received_of :
      (key : Text) (p : ℕ) (nv : MetricValue ies.Ueid) (s : System ies.Ueid I C)
      → Owned ies Received s.memory key p
      → get_elem? s.memory.metrics p ≡ some nv
      → Received (report_of key nv) nv.e2_node_id
  received_of key p nv s (mv, at', received, _) at =
      let same : mv ≡ nv = cc in
      subst (λ (v : MetricValue ies.Ueid). Received (report_of key v) v.e2_node_id) same received

  control_ok :
      (node_id : Text) (e : Event ℕ) (p : ℕ) (nv : MetricValue ies.Ueid) (s : System ies.Ueid I C)
      → Inv ies pdu Received s
      → plan_control node_id e s.memory ≡ ok (some (p, nv))
      → TaskOk ies Received s.memory (controlling node_id e.key p nv)
  control_ok node_id e p nv s w h =
      let (v, g, is_p, at, from) = plan_control-some node_id e s.memory h in
      let own = subst (Owned ies Received s.memory e.key) is_p (Owned-of_get e.key s w g) in
      (own, subst (Received (report_of e.key nv)) from (received_of e.key p nv s own at))

  pub Step-Inv :
      {s t : System ies.Ueid I C}
      → Step ies pdu Received s t
      → Inv ies pdu Received s
      → Inv ies pdu Received t
  Step-Inv {s} (report r node_id p received e) v =
      task-Inv ies pdu Received _ s v (reporting_ok r node_id p s v received e)
  Step-Inv {s} (approval e p _ h) v =
      let (w, g, is_p) = plan_approval-some e s.memory h in
      task-Inv ies pdu Received _ s v
        (subst (Owned ies Received s.memory e.key) is_p (Owned-of_get e.key s v g))
  Step-Inv {s} (control node_id e p nv _ h) v =
      task-Inv ies pdu Received _ s v (control_ok node_id e p nv s v h)
  Step-Inv {s} (work i t at e) v =
      perform-Inv ies pdu Received t (record s { tasks = remove_at i s.tasks }) (removed-Inv i s v)
        (All-get_elem? (TaskOk ies Received s.memory) s.tasks i v.tasks at) e

  start-Inv : Inv ies pdu Received (start {U = ies.Ueid} {I = I} {C = C})
  unfolding start new_store new_watchers
  start-Inv = record { records = tt; tasks = tt; sent = tt; values = tt; calls = tt }

  -- Every state that the system can reach keeps the invariant.
  pub Reach-Inv : {s : System ies.Ueid I C} → Reach ies pdu Received s → Inv ies pdu Received s
  Reach-Inv here = start-Inv
  Reach-Inv (next r st) = Step-Inv st (Reach-Inv r)
