-- ===== src/System/Invariant/Steps.antt =====
-- The invariant and each single step of the running system.
use onos_mho.Base.{
  ℕ, ◌≡◌, refl, sym, ap, ◌∙◌, subst, Text, Text-discrete, length, get_elem?,
  get_elem?-append_length, [], ◌∷◌, ◌++◌, All, All-append, All-map, All-set, Option-cases, inl, inr,
}
use onos_mho.Base.Dict.{All-insert}
use onos_mho.Base.Result.{ok}
use onos_mho.Store.Laws.{put_records, put_sends}
use onos_mho.Store.Types.{MetricValue, Event, MhoState, approved, done, state_created}
use onos_mho.Memory.{Memory, events, set_state, put_metric, put_new}
use onos_mho.Memory.Laws.{store-set_state}
use onos_mho.Utils.Ies.{Ies, PduBuilder}
use onos_mho.Monitor.{Report, Plan, insert, leave, again, metric_value, commit}
use onos_mho.Southbound.Handover.{control_call}
use onos_mho.System.{
  System, Task, reporting, approving, finishing, publishing, controlling, perform,
}
use onos_mho.System.Plans.{ok_inj, control_step-cases}
use onos_mho.System.Invariant.{
  IsLive, Extends, Owned, EntryOk, TaskOk, FromReport, Inv, Owned-mono, TaskOk-mono, alloc-Extends,
  same-Extends, set_state-Extends, report_of,
}

live_created : IsLive state_created
live_created = (λ e. cc, λ e. cc)

live_approved : IsLive approved
live_approved = (λ e. cc, λ e. cc)

live_done : IsLive done
live_done = (λ e. cc, λ e. cc)

module _ {U I C : Type 0} (p : ℕ) (state : MhoState) (m : Memory U I C) where
  values-set_state :
      IsLive state
      → All (λ (nv : MetricValue U). IsLive nv.state) m.metrics
      → All (λ (nv : MetricValue U). IsLive nv.state) (set_state p state m).metrics
  unfolding set_state
  values-set_state live h = elim (Option-cases (get_elem? m.metrics p)) [
    | inl e ↦ rw (e, set_state) h
    | inr (nv, e) ↦ rw (e, set_state) (All-set _ m.metrics p _ h live)
  ]

-- A control message does not depend on the state of the value.
control_call-report :
    (ies : Ies) (pdu : PduBuilder ies) (node_id key : Text) (nv : MetricValue ies.Ueid)
    → control_call ies pdu node_id nv
      ≡ control_call ies pdu node_id (metric_value (report_of key nv) node_id)
unfolding control_call metric_value
control_call-report ies pdu node_id key nv = refl

module _ (ies : Ies) (pdu : PduBuilder ies) (Received : Report ies.Ueid → Text → Type 0)
    {I C : Type 0} where
  -- A change of the memory that only extends it, with the records, events and values as required.
  Inv-memory :
      (s : System ies.Ueid I C) (m' : Memory ies.Ueid I C)
      → Inv ies pdu Received s
      → Extends s.memory m'
      → All (EntryOk ies Received m') m'.store.records
      → All (λ (e : Event ℕ). IsLive e.event_mho_state) (events m')
      → All (λ (nv : MetricValue ies.Ueid). IsLive nv.state) m'.metrics
      → Inv ies pdu Received (record s { memory = m' })
  Inv-memory s m' v x records sent values = record {
    records = records;
    tasks = All-map _ _ s.tasks (TaskOk-mono ies Received s.memory m' x) v.tasks;
    sent = sent;
    values = values;
    calls = v.calls;
  }

  put_metric-Inv :
      (key : Text) (p : ℕ) (state : MhoState) (s : System ies.Ueid I C)
      → Inv ies pdu Received s
      → Owned ies Received s.memory key p
      → IsLive state
      → Inv ies pdu Received (record s { memory = (put_metric key p state s.memory).0 })
  unfolding put_metric
  put_metric-Inv key p state s v own live =
      let m' = (put_metric key p state s.memory).0 in
      Inv-memory s m' v (same-Extends s.memory m' refl)
        (rw (put_records key p state s.memory.store) (
          All-insert Text-discrete (EntryOk ies Received s.memory) key _ s.memory.store.records own
            v.records))
        (rw (put_sends key p state s.memory.store) (
          All-append (λ (e : Event ℕ). IsLive e.event_mho_state) (events s.memory) _ v.sent
            (live, tt)))
        v.values

  alloc-Inv :
      (value : MetricValue ies.Ueid) (s : System ies.Ueid I C)
      → Inv ies pdu Received s
      → IsLive value.state
      → Inv ies pdu Received
          (record s { memory = record (s.memory) { metrics = s.memory.metrics ++ value ∷ [] } })
  alloc-Inv value s v live =
      let m' = record (s.memory) { metrics = s.memory.metrics ++ value ∷ [] } in
      let x = alloc-Extends s.memory m' value refl in
      Inv-memory s m' v x
        (All-map _ _ s.memory.store.records
          (λ e. Owned-mono ies Received s.memory m' x e.0 e.1.value) v.records)
        v.sent
        (All-append (λ (nv : MetricValue ies.Ueid). IsLive nv.state) s.memory.metrics _ v.values
          (live, tt))

  set_state-Inv :
      (p : ℕ) (state : MhoState) (s : System ies.Ueid I C)
      → Inv ies pdu Received s
      → IsLive state
      → Inv ies pdu Received (record s { memory = set_state p state s.memory })
  set_state-Inv p state s v live =
      let m' = set_state p state s.memory in
      let x = set_state-Extends p state s.memory live in
      Inv-memory s m' v x
        (subst (All (EntryOk ies Received (set_state p state s.memory)))
          (sym (ap (λ st. st.records) (store-set_state p state s.memory)))
          (All-map _ _ s.memory.store.records
            (λ e. Owned-mono ies Received s.memory m' x e.0 e.1.value) v.records))
        (subst (All (λ (e : Event ℕ). IsLive e.event_mho_state))
          (sym (ap (λ st. st.watchers.senders) (store-set_state p state s.memory))) v.sent)
        (values-set_state p state s.memory live v.values)

  report-Inv :
      (r : Report ies.Ueid) (node_id : Text) (p : Plan) (s : System ies.Ueid I C)
      → Inv ies pdu Received s
      → TaskOk ies Received s.memory (reporting r node_id p)
      → Inv ies pdu Received (record s { memory = (commit r node_id p s.memory).0 })
  unfolding commit put_new metric_value
  report-Inv r node_id insert s v h =
      put_metric-Inv r.key (length s.memory.metrics) state_created _
        (alloc-Inv (metric_value r node_id) s v live_created)
        (
          metric_value r node_id,
          get_elem?-append_length s.memory.metrics (metric_value r node_id) [],
          h,
          live_created,
        )
        live_created
  report-Inv r node_id leave s v h = v
  report-Inv r node_id (again q) s v h = absurd h

  pub task-Inv :
      (t : Task ies.Ueid) (s : System ies.Ueid I C)
      → Inv ies pdu Received s
      → TaskOk ies Received s.memory t
      → Inv ies pdu Received (record s { tasks = t ∷ s.tasks })
  task-Inv t s v h = record {
    records = v.records;
    tasks = (h, v.tasks);
    sent = v.sent;
    values = v.values;
    calls = v.calls;
  }

  pub perform-Inv :
      (t : Task ies.Ueid) (s : System ies.Ueid I C) {u : System ies.Ueid I C}
      → Inv ies pdu Received s
      → TaskOk ies Received s.memory t
      → perform ies pdu t s ≡ ok u
      → Inv ies pdu Received u
  unfolding perform
  perform-Inv (reporting r node_id p) s v h e =
      subst (Inv ies pdu Received) (ok_inj e) (report-Inv r node_id p s v h)
  perform-Inv (approving key p) s v h e =
      let m' = set_state p approved s.memory in
      let x = set_state-Extends p approved s.memory live_approved in
      subst (Inv ies pdu Received) (ok_inj e) (
        task-Inv _ _ (set_state-Inv p approved s v live_approved)
          (Owned-mono ies Received s.memory m' x key p h, live_approved))
  perform-Inv (finishing key p) s v h e =
      let m' = set_state p done s.memory in
      let x = set_state-Extends p done s.memory live_done in
      subst (Inv ies pdu Received) (ok_inj e) (
        task-Inv _ _ (set_state-Inv p done s v live_done)
          (Owned-mono ies Received s.memory m' x key p h, live_done))
  perform-Inv (publishing key p state) s v h e =
      subst (Inv ies pdu Received) (ok_inj e) (put_metric-Inv key p state s v h.0 h.1)
  perform-Inv (controlling node_id key p nv) s v h e =
      elim (control_step-cases ies pdu node_id key p nv s e) [
        | inl same ↦ subst (Inv ies pdu Received) same v
        | inr (call, built, same) ↦ subst (Inv ies pdu Received) same (record {
          records = v.records;
          tasks = (h.0, v.tasks);
          sent = v.sent;
          values = v.values;
          calls = All-append (FromReport ies pdu Received) s.calls _ v.calls (
            (
              report_of key nv,
              node_id,
              h.1,
              sym (control_call-report ies pdu node_id key nv) ∙ built,
            ),
            tt,
          );
        })
      ]
