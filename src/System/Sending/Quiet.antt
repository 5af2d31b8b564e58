-- ===== src/System/Sending/Quiet.antt =====
-- A value that no event tells of: what the handlers and the goroutines of `Send` do to it.
use onos_mho.Base.{
  ℕ, ◌≡◌, ◌≢◌, refl, sym, ap, ◌∙◌, subst, Text, Text-discrete, length, get_elem?,
  get_elem?-append_some, get_elem?-lt_length, [], ◌∷◌, ◌++◌, All, All-append, none, some, inl, inr,
  arith,
}
use onos_mho.Base.Result.{ok, Result-cases}
use onos_mho.Store.Types.{
  MetricValue, Event, Entry, MhoState, approved, done, denied, state_created,
}
use onos_mho.Store.{Store, get}
use onos_mho.Store.Laws.{put_sends, get-put}
use onos_mho.Memory.{Memory, At, events, put_metric, put_new, set_state}
use onos_mho.Memory.Laws.{put_metric-At_ne, store-set_state}
use onos_mho.Utils.Ies.{Ies, PduBuilder}
use onos_mho.Monitor.{
  Report, Plan, insert, leave, again, metric_value, plan, commit, process_report,
}
use onos_mho.Monitor.Laws.{process_report_known}
use onos_mho.Controller.{plan_approval, approve, control_handover}
use onos_mho.Southbound.Handover.{plan_control, control_call, finish, watch_mho_change}
use onos_mho.System.Plans.{plan_approval-some, plan_control-some, plan_again}
use onos_mho.System.Evolution.{set_state_other}

module _ {U I C : Type 0} (key : Text) (p : ℕ) (nv : MetricValue U) where
  -- The key leads to the value, no other key does, and no event about it waits to be sent.
  pub record Quiet (m : Memory U I C) : Type 0 where
    pub held : At m key p nv
    pub alone : (j : Text) {v : Entry ℕ} → key ≢ j → get j m.store ≡ ok v → v.value ≢ p
    pub unsent : All (λ (e : Event ℕ). e.key ≢ key) (events m)

  get_of_records : (s t : Store ℕ I C) (j : Text) → s.records ≡ t.records → get j s ≡ get j t
  unfolding get
  get_of_records s t j same = rw same refl

  -- A change that leaves the records of the store and the value itself alone.
  pub same-Quiet :
      (m m' : Memory U I C)
      → Quiet m
      → m'.store.records ≡ m.store.records
      → get_elem? m'.metrics p ≡ some nv
      → All (λ (e : Event ℕ). e.key ≢ key) (events m')
      → Quiet m'
  same-Quiet m m' q same at unsent = record {
    held = (get_of_records m'.store m.store key same ∙ q.held.0, at);
    alone = λ j n g. q.alone j n (sym (get_of_records m'.store m.store j same) ∙ g);
    unsent = unsent;
  }

  pub put_metric-Quiet :
      (j : Text) (q : ℕ) (state : MhoState) (m : Memory U I C)
      → j ≢ key
      → q ≢ p
      → Quiet m
      → Quiet (put_metric j q state m).0
  unfolding put_metric
  put_metric-Quiet j q state m other differs v = record {
    held = put_metric-At_ne j key q p state m other v.held;
    alone = λ i {v = w} n g. elim (Text-discrete j i) [
      | yes same ↦ ground (arith, get-put j i q state m.store)
      | no ne ↦
          let old : get i m.store ≡ ok w = ground (arith, get-put j i q state m.store) in
          v.alone i n old
    ];
    unsent =
        rw (put_sends j q state m.store)
          (All-append (λ (e : Event ℕ). e.key ≢ key) (events m) _ v.unsent (other, tt));
  }

  set_state-Quiet :
      (q : ℕ) (state : MhoState) (m : Memory U I C) → q ≢ p → Quiet m → Quiet (set_state q state m)
  set_state-Quiet q state m differs v =
      let same = store-set_state q state m in
      same-Quiet m (set_state q state m) v (ap (λ s. s.records) same)
        (set_state_other q p state m differs v.held.1)
        (subst (λ (s : Store ℕ I C). All (λ (e : Event ℕ). e.key ≢ key) s.watchers.senders)
          (sym same) v.unsent)

  commit-Quiet :
      (r : Report U) (node_id : Text) (x : Plan) (m : Memory U I C)
      → r.key ≢ key
      → plan r m ≡ ok x
      → nv.state ≢ denied
      → Quiet m
      → Quiet (commit r node_id x m).0
  unfolding commit put_new
  commit-Quiet r node_id insert m other planned live v =
      let m' = record m { metrics = m.metrics ++ metric_value r node_id ∷ [] } in
      put_metric-Quiet r.key (length m.metrics) state_created m' other
        (λ same. omega (arith, get_elem?-lt_length m.metrics p v.held.1, same))
        (same-Quiet m m' v refl (get_elem?-append_some m.metrics _ p v.held.1) v.unsent)
  commit-Quiet r node_id leave m other planned live v = v
  commit-Quiet r node_id (again q) m other planned live v =
      let (mv, at, is_denied) = plan_again r m planned in
      put_metric-Quiet r.key q denied m other (λ same. live (ground (arith, at, v.held.1))) v

  pub process_report-Quiet :
      (r : Report U) (node_id : Text) (m : Memory U I C)
      → (r.key ≡ key → r.tgt_cell_id ≡ nv.tgt_cell_id)
      → nv.state ≢ denied
      → Quiet m
      → Quiet (process_report r node_id m).0
  unfolding process_report
  process_report-Quiet r node_id m repeats live v = elim (Text-discrete r.key key) [
    | yes same ↦
        let h : At m r.key p nv = subst (λ k. At m k p nv) (sym same) v.held in
        let (_, _, known) = process_report_known r node_id m p h in
        let (_, _, unchanged) = known (sym (repeats same)) in subst Quiet (sym (unchanged live)) v
    | no other ↦ elim (Result-cases (plan r m)) [
      | inl (x, e) ↦ rw (e, process_report) (commit-Quiet r node_id x m other e live v)
      | inr (inl (x, e)) ↦ rw (e, process_report) v
      | inr (inr e) ↦ rw (e, process_report) v
    ]
  ]

  pub control_handover-Quiet :
      (e : Event ℕ) (m : Memory U I C) → e.key ≢ key → Quiet m → Quiet (control_handover e m).0
  unfolding control_handover approve
  control_handover-Quiet e m other v = elim (Result-cases (plan_approval e m)) [
    | inl (some q, h) ↦
        let (w, g, is_q) = plan_approval-some e m h in
        let differs : q ≢ p = λ same. v.alone e.key (λ k. other (sym k)) g (is_q ∙ same) in
        rw (h, control_handover)
          (put_metric-Quiet e.key q approved _ other differs
            (set_state-Quiet q approved m differs v))
    | inl (none, h) ↦ rw (h, control_handover) v
    | inr (inl (x, h)) ↦ rw (h, control_handover) v
    | inr (inr h) ↦ rw (h, control_handover) v
  ]

module _ (ies : Ies) (pdu : PduBuilder ies) {I C : Type 0} (key : Text) (p : ℕ)
    (nv : MetricValue ies.Ueid) where
  pub watch_mho_change-Quiet :
      (node_id : Text) (e : Event ℕ) (m : Memory ies.Ueid I C)
      → e.key ≢ key
      → Quiet key p nv m
      → Quiet key p nv (watch_mho_change ies pdu node_id e m).0
  unfolding watch_mho_change finish
  watch_mho_change-Quiet node_id e m other v = elim (Result-cases (plan_control node_id e m)) [
    | inl (some (q, mv), h) ↦
        let (w, g, is_q, _, _) = plan_control-some node_id e m h in
        let differs : q ≢ p = λ same. v.alone e.key (λ k. other (sym k)) g (is_q ∙ same) in
        elim (Result-cases (control_call ies pdu node_id mv)) [
          | inl (call, b) ↦
              rw (h, watch_mho_change)
                (rw b (
                  put_metric-Quiet key p nv e.key q done _ other differs
                    (set_state-Quiet key p nv q done m differs v)))
          | inr (inl (x, b)) ↦ rw (h, watch_mho_change) (rw b v)
          | inr (inr b) ↦ rw (h, watch_mho_change) (rw b v)
        ]
    | inl (none, h) ↦ rw (h, watch_mho_change) v
    | inr (inl (x, h)) ↦ rw (h, watch_mho_change) v
    | inr (inr h) ↦ rw (h, watch_mho_change) v
  ]
