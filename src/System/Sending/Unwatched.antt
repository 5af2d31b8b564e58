-- ===== src/System/Sending/Unwatched.antt =====
-- pkg/manager/manager.go starts the controller last: what becomes of a report that comes before anybody
-- watches the store.
use onos_mho.Base.{
  ℕ, ◌≡◌, ◌≢◌, ◌<◌, sym, ap, ◌∙◌, subst, Text, length, get_elem?, get_elem?-append_length, List, [],
  ◌∷◌, ◌++◌, All, append-nil, some, false, arith,
}
use onos_mho.Base.Dict.{values}
use onos_mho.Base.Result.{Result, ok, and_then-Passes}
use onos_mho.Store.{has_entry, get}
use onos_mho.Store.Laws.{put_sends, put_watchers, get-put}
use onos_mho.Store.Types.{Event, Entry, state_created, denied}
use onos_mho.Store.Watching.{Watcher, deliveries}
use onos_mho.Memory.{Memory, At, events, put_new, put_metric}
use onos_mho.Utils.Ies.{Ies, PduBuilder}
use onos_mho.Monitor.{Report, metric_value, commit, process_report}
use onos_mho.Monitor.Laws.{process_of_plan, plan_new, process_report_new}
use onos_mho.System.{remove_at}
use onos_mho.System.Sending.{Sending, Move, reports, sends, run_sender, move, run_moves}
use onos_mho.System.Sending.Quiet.{Quiet}
use onos_mho.System.Sending.Laws.{
  after-ok, Elsewhere, Repeats, Unseen, run_moves-Unseen, ok-injective, remove_at-length,
}

module _ {U I C : Type 0} where
  -- The watchers of the metric store, to whom an event goes that is delivered now.
  abbrev pub watchers : Memory U I C → List (Watcher I C)
  watchers m = values m.store.watchers.watchers

  -- The pointers that the store holds are those of values that were allocated.
  abbrev pub Allocated : Memory U I C → Type 0
  Allocated m = (j : Text) (v : Entry ℕ) → get j m.store ≡ ok v → v.value < length m.metrics

  new_report :
      (r : Report U) (node_id : Text) (m : Memory U I C)
      → has_entry r.key m.store ≡ false
      → process_report r node_id m ≡ put_new r.key (metric_value r node_id) state_created m
  unfolding commit
  new_report r node_id m new = process_of_plan r node_id m (plan_new r node_id m new)

  module _ (r : Report U) (node_id : Text) (m : Memory U I C)
      (new : has_entry r.key m.store ≡ false) where
    -- The `Put` of the new value sends its event, and leaves the other keys and the watchers alone.
    new_sends : (e : Event ℕ) × (events (process_report r node_id m).0 ≡ events m ++ e ∷ [])
    unfolding put_new put_metric
    new_sends = (
      _,
      ap (λ (x : Memory U I C × Result (Unit {0})). events x.0) (new_report r node_id m new)
          ∙ put_sends r.key (length m.metrics) state_created m.store,
    )

    new_watchers_lem : watchers (process_report r node_id m).0 ≡ watchers m
    unfolding put_new put_metric
    new_watchers_lem =
        ap (λ (x : Memory U I C × Result (Unit {0})). watchers x.0) (new_report r node_id m new)
        ∙ ap values (put_watchers r.key (length m.metrics) state_created m.store)

    new_others :
        (j : Text) {v : Entry ℕ}
        → r.key ≢ j
        → get j (process_report r node_id m).0.store ≡ ok v
        → get j m.store ≡ ok v
    unfolding put_new put_metric
    new_others j n g =
        let put_at =
          sym (
            ap (λ (x : Memory U I C × Result (Unit {0})). get j x.0.store)
              (new_report r node_id m new))
          ∙ g in
        ground (arith, put_at, get-put r.key j (length m.metrics) state_created m.store)

    new_Quiet :
        (ws : List (Event ℕ))
        → Allocated m
        → All (λ (e : Event ℕ). e.key ≢ r.key) ws
        → let m1 = (process_report r node_id m).0 in
          let waiting = record (m1.store.watchers) { senders = ws } in
          Quiet r.key
            (length m.metrics)
            (metric_value r node_id)
            (record m1 { store = record (m1.store) { watchers = waiting } })
    unfolding get
    new_Quiet ws allocated unsent =
        let (_, held, _) = process_report_new r node_id m new in
        record {
          held = held;
          alone = λ j {v} n g same. omega (arith, allocated j v (new_others j n g));
          unsent = unsent;
        }

created_not_denied : state_created ≢ denied
created_not_denied e = cc

module _ (ies : Ies) (pdu : PduBuilder ies) {I C : Type 0} (uuid_eq : Discrete I)
    (r : Report ies.Ueid) (node_id : Text) (s : Sending ies.Ueid I C)
    (nobody : watchers s.memory ≡ []) (new : has_entry r.key s.memory.store ≡ false)
    (allocated : Allocated s.memory)
    (unsent : All (λ (e : Event ℕ). e.key ≢ r.key) (events s.memory))
    (undelivered : All (Elsewhere r.key) s.inbox) where
  -- The goroutine of `Send` for the report runs next.
  sent-Unseen : Unseen ies pdu uuid_eq r.key (length s.memory.metrics) (metric_value r node_id) (
      run_sender
        (length (events s.memory))
        (record s { memory = (process_report r node_id s.memory).0 }))
  unfolding run_sender
  sent-Unseen =
      let m = s.memory in
      let m1 = (process_report r node_id m).0 in
      let n = length (events m) in
      let (e, sent) = new_sends r node_id m new in
      let at : get_elem? (events m1) n ≡ some e =
        ap (λ l. get_elem? l n) sent ∙ get_elem?-append_length (events m) e [] in
      let left : remove_at n (events m1) ≡ events m =
        ap (remove_at n) sent ∙ remove_at-length (events m) e in
      let none_told : deliveries e (watchers m1) ≡ [] =
        ap (deliveries e) (new_watchers_lem r node_id m new ∙ nobody) in
      rw (at, run_sender)
        (
          new_Quiet r node_id m new (remove_at n (events m1)) allocated
              (subst (All (λ (e : Event ℕ). e.key ≢ r.key)) (sym left) unsent),
          subst (λ l. All (Elsewhere r.key) (s.inbox ++ l)) (sym none_told)
              (subst (All (Elsewhere r.key)) (sym (append-nil s.inbox)) undelivered),
        )

  -- The first report of a UE comes, and the goroutine of `Send` for its event runs, while nobody watches
  -- the store, as when the controller's goroutine has not registered yet. Then, whatever comes
  -- afterwards, as long as nothing panics and the reports of this UE name the same target cell: watchers
  -- that register or leave, reports, goroutines of `Send`, and rounds of the controller and of the nodes'
  -- watchers on the events that are delivered, in any order. The report is never decided: the UE's entry
  -- stays as it was made, in the state `StateCreated`, and there is no event about the UE, either
  -- delivered to a channel or still to be sent. That is where, before the report, no such event was there,
  -- and the store's pointers were allocated.
  pub unwatched_report_stays :
      (xs : List (Move ies.Ueid I C)) {t : Sending ies.Ueid I C}
      → All (Repeats r.key r.tgt_cell_id) xs
      → run_moves ies pdu uuid_eq (reports r node_id ∷ sends (length (events s.memory)) ∷ xs) s
        ≡ ok t
      → At t.memory r.key (length s.memory.metrics) (metric_value r node_id)
        × All (λ (e : Event ℕ). e.key ≢ r.key) (events t.memory)
        × All (Elsewhere r.key) t.inbox
  unfolding run_moves move metric_value
  unwatched_report_stays xs repeats ends =
      let n = length (events s.memory) in
      let first = and_then-Passes _ (move ies pdu uuid_eq (reports r node_id) s) ends in
      let second =
        and_then-Passes (λ u. run_moves ies pdu uuid_eq xs u)
          (move ies pdu uuid_eq (sends n) first.value) first.rest in
      let unseen =
        Unseen ies pdu uuid_eq r.key (length s.memory.metrics) (metric_value r node_id) in
      let reported = after-ok (process_report r node_id s.memory).1 _ first.returned in
      let told : unseen second.value =
        subst unseen (ok-injective second.returned)
          (subst (λ v. unseen (run_sender n v)) reported sent-Unseen) in
      let (quiet, inbox) =
        run_moves-Unseen ies pdu uuid_eq r.key (length s.memory.metrics) (metric_value r node_id) xs
          second.value created_not_denied repeats told second.rest in
      (quiet.held, quiet.unsent, inbox)
