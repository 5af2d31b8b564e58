-- ===== src/System/Sending.antt =====
-- pkg/store/watcher.go, `Send`, with the handlers of pkg/monitoring, pkg/controller and pkg/southbound/e2:
-- an event reaches the watchers that are registered when the goroutine that `Send` has started for it
-- runs, whether they registered before the write or after it.
pub mod Quiet
pub mod Laws
pub mod Unwatched
use onos_mho.Base.{ℕ, Text, get_elem?, List, [], ◌∷◌, ◌++◌, none, some}
use onos_mho.Base.Dict.{values}
use onos_mho.Base.Result.{Result, ok, err, panic, ◌>>=◌}
use onos_mho.Store.{watch, watch_done}
use onos_mho.Store.Types.{Event}
use onos_mho.Store.Watching.{Watcher, deliveries}
use onos_mho.Memory.{Memory, events}
use onos_mho.Utils.Ies.{Ies, PduBuilder}
use onos_mho.Monitor.{Report, process_report}
use onos_mho.Controller.{control_handover}
use onos_mho.Southbound.Handover.{watch_mho_change}
use onos_mho.System.{remove_at}

-- The `senders` of the memory's store are the goroutines of `Send` that have not run yet. `inbox` are the
-- events that were written to channels and that no handler has taken yet.
pub record Sending (U I C : Type 0) : Type 0 where
  pub memory : Memory U I C
  pub inbox : List (C × Event ℕ)

-- What may happen next.
pub data Move (U I C : Type 0) : Type 0 where
  -- A monitor processes a report from a node.
  reports : Report U → Text → Move U I C
  -- A watcher registers, or its context is done; the range visits the watchers in the order given.
  registers : I → C → Move U I C
  leaves : I → C → List (Watcher I C) → Move U I C
  -- The goroutine at this place among those of `Send` runs.
  sends : ℕ → Move U I C
  -- The controller, or the watcher of a node, takes the event at this place of the inbox.
  controls : ℕ → Move U I C
  hands_over : Text → ℕ → Move U I C

-- What a call leaves, unless it panics: then the process ends. Errors are logged.
unfoldable pub after : {A : Type 0} → Result (Unit {0}) → A → Result A
after (ok _) a = ok a
after (err _) a = ok a
after panic a = panic

module _ {U I C : Type 0} where
  -- The goroutine of `Send` at a place: it writes its event to each registered watcher, and ends.
  unfoldable pub run_sender : ℕ → Sending U I C → Sending U I C
  unfolding deliveries
  run_sender i s = elim (get_elem? (events s.memory) i) [
    | none ↦ s
    | some e ↦
        let store = s.memory.store in
        let ws = store.watchers in
        let waiting = record ws { senders = remove_at i ws.senders } in
        record {
          memory = record (s.memory) { store = record store { watchers = waiting } };
          inbox = s.inbox ++ deliveries e (values ws.watchers);
        }
  ]

  -- One round of the loop of `controlHandover`, on an event of the inbox.
  unfoldable pub take_control : ℕ → Sending U I C → Result (Sending U I C)
  unfolding control_handover after
  take_control i s = elim (get_elem? s.inbox i) [
    | none ↦ ok s
    | some (ch, e) ↦
        let (m, r) = control_handover e s.memory in
        after r (record { memory = m; inbox = remove_at i s.inbox })
  ]

module _ (ies : Ies) (pdu : PduBuilder ies) {I C : Type 0} where
  -- One round of the loop of `watchMHOChanges`, on an event of the inbox.
  unfoldable pub take_handover : Text → ℕ → Sending ies.Ueid I C → Result (Sending ies.Ueid I C)
  unfolding watch_mho_change after
  take_handover node_id i s = elim (get_elem? s.inbox i) [
    | none ↦ ok s
    | some (ch, e) ↦
        let (m, calls, r) = watch_mho_change ies pdu node_id e s.memory in
        after r (record { memory = m; inbox = remove_at i s.inbox })
  ]

module _ (ies : Ies) (pdu : PduBuilder ies) {I C : Type 0} (uuid_eq : Discrete I) where
  unfoldable pub move : Move ies.Ueid I C → Sending ies.Ueid I C → Result (Sending ies.Ueid I C)
  unfolding process_report watch watch_done run_sender take_control take_handover after
  move (reports r node_id) s =
      let (m, e) = process_report r node_id s.memory in after e (record s { memory = m })
  move (registers id ch) s =
      let (store, e) = watch uuid_eq id ch s.memory.store in
      after e (record s { memory = record (s.memory) { store = store } })
  move (leaves id ch order) s =
      let store = watch_done uuid_eq id ch order s.memory.store in
      ok (record s { memory = record (s.memory) { store = store } })
  move (sends i) s = ok (run_sender i s)
  move (controls i) s = take_control i s
  move (hands_over node_id i) s = take_handover ies pdu node_id i s

  unfoldable pub run_moves :
      List (Move ies.Ueid I C) → Sending ies.Ueid I C → Result (Sending ies.Ueid I C)
  unfolding move
  run_moves [] s = ok s
  run_moves (x ∷ xs) s = do s' ← move x s; run_moves xs s'
