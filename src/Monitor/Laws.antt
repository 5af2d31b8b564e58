-- ===== src/Monitor/Laws.antt =====
-- pkg/monitoring/monitor.go: each branch of the indication handler.
use onos_mho.Base.{
  ℕ, ◌≡◌, refl, ap, ◌∙◌, ◌≢◌, Text, Text-discrete, length, get_elem?, get_elem?-append_some, some,
  [], ◌∷◌, ◌++◌, inl, inr, false, arith,
}
use onos_mho.Base.Result.{ok, Result-cases}
use onos_mho.Store.Types.{
  MetricValue, MhoState, MhoState-discrete, updated, created, state_created, denied,
}
use onos_mho.Store.{has_entry}
use onos_mho.Memory.{Memory, At, signals, put_new, put_metric, deref}
use onos_mho.Memory.Laws.{
  put_metric_ok, put_new_ok, signals-put_metric, signals-put_new, put_metric-At, put_metric-At_ne,
  put_new-At, put_new-At_ne, has_entry-At, has_entry-put_metric, has_entry-put_new, write_signal,
}
use onos_mho.Monitor.{
  Report, Plan, insert, leave, again, metric_value, plan, commit, process_report, plan_stored,
  compare_metric,
}

module _ {U I C : Type 0} (r : Report U) (node_id : Text) (m : Memory U I C) where
  commit_frame :
      (p : Plan) {j : Text} {q : ℕ} {mv : MetricValue U}
      → r.key ≢ j
      → At m j q mv
      → At (commit r node_id p m).0 j q mv
  unfolding commit
  commit_frame insert {j} {q} n h = put_new-At_ne r.key j _ q state_created m n h
  commit_frame leave n h = h
  commit_frame (again p) {j} {q} n h = put_metric-At_ne r.key j p q denied m n h

  pub commit_keeps :
      (p : Plan) (q : ℕ) {mv : MetricValue U}
      → get_elem? m.metrics q ≡ some mv
      → get_elem? (commit r node_id p m).0.metrics q ≡ some mv
  unfolding commit put_new put_metric
  commit_keeps insert q h = get_elem?-append_some m.metrics _ q h
  commit_keeps leave q h = h
  commit_keeps (again p) q h = h

  commit-has_entry :
      (p : Plan) {j : Text}
      → r.key ≢ j
      → has_entry j (commit r node_id p m).0.store ≡ has_entry j m.store
  unfolding commit
  commit-has_entry insert {j} n =
      has_entry-put_new r.key j (metric_value r node_id) state_created m n
  commit-has_entry leave n = refl
  commit-has_entry (again p) {j} n = has_entry-put_metric r.key j p denied m n

  pub process_of_plan :
      {p : Plan} → plan r m ≡ ok p → process_report r node_id m ≡ commit r node_id p m
  unfolding process_report
  process_of_plan e = rw (e, process_report)

  pub plan_new : has_entry r.key m.store ≡ false → plan r m ≡ ok insert
  unfolding plan
  plan_new e = rw e

  plan_known :
      (p : ℕ) {nv : MetricValue U} → At m r.key p nv → plan r m ≡ ok (compare_metric r p nv)
  unfolding plan plan_stored deref
  plan_known p h = rw (has_entry-At r.key p m h) (rw (h.0, plan_stored) (rw (h.1, deref)))

  known_other :
      (p : ℕ) {nv : MetricValue U}
      → At m r.key p nv
      → nv.tgt_cell_id ≢ r.tgt_cell_id
      → process_report r node_id m ≡ put_new r.key (metric_value r node_id) state_created m
  unfolding compare_metric commit
  known_other p {nv} h n =
      let chosen : compare_metric r p nv ≡ insert = ground arith in
      process_of_plan (plan_known p h ∙ ap ok chosen)

  known_denied :
      (p : ℕ) {nv : MetricValue U}
      → At m r.key p nv
      → nv.tgt_cell_id ≡ r.tgt_cell_id
      → nv.state ≡ denied
      → process_report r node_id m ≡ put_metric r.key p denied m
  unfolding compare_metric commit
  known_denied p {nv} h e d =
      let chosen : compare_metric r p nv ≡ again p = ground arith in
      process_of_plan (plan_known p h ∙ ap ok chosen)

  known_other_state :
      (p : ℕ) {nv : MetricValue U}
      → At m r.key p nv
      → nv.tgt_cell_id ≡ r.tgt_cell_id
      → nv.state ≢ denied
      → process_report r node_id m ≡ (m, ok tt)
  unfolding compare_metric commit
  known_other_state p {nv} h e n =
      let chosen : compare_metric r p nv ≡ leave = ground arith in
      process_of_plan (plan_known p h ∙ ap ok chosen)

  -- A report for a key that the store does not have adds a value in the state `StateCreated` with the
  -- report's contents, and sends one `Created` event.
  pub process_report_new :
      has_entry r.key m.store ≡ false
      → let (m', e) = process_report r node_id m in
        (e ≡ ok tt)
        × At m' r.key (length m.metrics) (metric_value r node_id)
        × (signals m' ≡ signals m ++ (r.key, created, state_created) ∷ [])
  unfolding commit
  process_report_new e = rw (process_of_plan (plan_new e)) (
    put_new_ok r.key _ state_created m,
    put_new-At r.key _ state_created m,
    signals-put_new r.key _ state_created m ∙ (rw e),
  )

  known_signal :
      (p : ℕ) {nv : MetricValue U} (state : MhoState)
      → At m r.key p nv
      → signals m ++ write_signal r.key state m ∷ [] ≡ signals m ++ (r.key, updated, state) ∷ []
  known_signal p state h = rw (has_entry-At r.key p m h)

  -- A report for a known key is accepted. With another target cell it replaces the value by a new one
  -- in the state `StateCreated`, and sends one `Updated` event. With the same target cell the value
  -- stays: in the state `Denied` its `Updated` event is sent again, and in any other state nothing
  -- happens at all.
  pub process_report_known :
      (p : ℕ) {nv : MetricValue U}
      → At m r.key p nv
      → let (m', e) = process_report r node_id m in
        (e ≡ ok tt)
        × (nv.tgt_cell_id ≢ r.tgt_cell_id
            → At m' r.key (length m.metrics) (metric_value r node_id)
              × (signals m' ≡ signals m ++ (r.key, updated, state_created) ∷ []))
        × (nv.tgt_cell_id ≡ r.tgt_cell_id
            → At m' r.key p nv
              × (nv.state ≡ denied → signals m' ≡ signals m ++ (r.key, updated, denied) ∷ [])
              × (nv.state ≢ denied → m' ≡ m))
  process_report_known p {nv} h = elim (Text-discrete nv.tgt_cell_id r.tgt_cell_id) [
    | no n ↦ rw (known_other p h n) (
      put_new_ok r.key _ state_created m,
      λ _. (
        put_new-At r.key _ state_created m,
        signals-put_new r.key _ state_created m ∙ known_signal p state_created h,
      ),
      λ e. absurd (n e),
    )
    | yes e ↦ elim (MhoState-discrete nv.state denied) [
      | yes d ↦ rw (known_denied p h e d) (
        put_metric_ok r.key p denied m,
        λ n. absurd (n e),
        λ _. (
          put_metric-At r.key p denied m h.1,
          λ _. signals-put_metric r.key p denied m ∙ known_signal p denied h,
          λ n. absurd (n d),
        ),
      )
      | no n ↦
          rw (known_other_state p h e n)
            (refl, λ n'. absurd (n' e), λ _. (h, λ d. absurd (n d), λ _. refl))
    ]
  ]

  -- A report says nothing of other UEs: whatever another key holds, it holds afterwards.
  pub process_report_frame :
      (j : Text) (q : ℕ) {mv : MetricValue U}
      → r.key ≢ j
      → At m j q mv
      → At (process_report r node_id m).0 j q mv
  unfolding process_report
  process_report_frame j q n h = elim (Result-cases (plan r m)) [
    | inl (p, e) ↦ rw (e, process_report) (commit_frame p n h)
    | inr (inl (x, e)) ↦ rw (e, process_report) h
    | inr (inr e) ↦ rw (e, process_report) h
  ]

  -- Values that are allocated stay as they are.
  pub process_report_keeps :
      (q : ℕ) {mv : MetricValue U}
      → get_elem? m.metrics q ≡ some mv
      → get_elem? (process_report r node_id m).0.metrics q ≡ some mv
  unfolding process_report
  process_report_keeps q h = elim (Result-cases (plan r m)) [
    | inl (p, e) ↦ rw (e, process_report) (commit_keeps p q h)
    | inr (inl (x, e)) ↦ rw (e, process_report) h
    | inr (inr e) ↦ rw (e, process_report) h
  ]

  pub process_report-has_entry :
      (j : Text)
      → r.key ≢ j
      → has_entry j (process_report r node_id m).0.store ≡ has_entry j m.store
  unfolding process_report
  process_report-has_entry j n = elim (Result-cases (plan r m)) [
    | inl (p, e) ↦ rw (e, process_report) (commit-has_entry p n)
    | inr (inl (x, e)) ↦ rw (e, process_report) refl
    | inr (inr e) ↦ rw (e, process_report) refl
  ]
