-- ===== src/System/Sending/Laws.antt =====
-- A report whose event nobody has seen, among everything that may happen next.
use onos_mho.Base.{
  ℕ, ◌≡◌, ◌≢◌, refl, ap, subst, Text, length, get_elem?, List, [], ◌∷◌, ◌++◌, All, All-append,
  All-get_elem?, Option-cases, inl, inr,
}
use onos_mho.Base.Dict.{values}
use onos_mho.Base.Result.{Result, ok, err, panic, and_then-Passes}
use onos_mho.Store.{watch, watch_done}
use onos_mho.Store.Types.{MetricValue, Event, denied}
use onos_mho.Store.Watching.{Watcher, deliveries, add_watcher, remove_watcher}
use onos_mho.Memory.{events}
use onos_mho.Utils.Ies.{Ies, PduBuilder}
use onos_mho.Monitor.{process_report}
use onos_mho.Controller.{control_handover}
use onos_mho.Southbound.Handover.{watch_mho_change}
use onos_mho.System.{remove_at}
use onos_mho.System.Invariant.Reach.{All-remove_at}
use onos_mho.System.Sending.{
  Sending, Move, reports, registers, leaves, sends, controls, hands_over, after, run_sender,
  take_control, take_handover, move, run_moves,
}
use onos_mho.System.Sending.Quiet.{
  Quiet, same-Quiet, process_report-Quiet, control_handover-Quiet, watch_mho_change-Quiet,
}

-- Nothing follows a panic.
pub after-ok : {A : Type 0} (r : Result (Unit {0})) (a : A) {b : A} → after r a ≡ ok b → a ≡ b
unfolding after
after-ok (ok _) a e = cc
after-ok (err _) a e = cc
after-ok panic a e = absurd (cc)

pub ok-injective : {A : Type 0} {a b : A} → Result.ok a ≡ ok b → a ≡ b
ok-injective e = cc

pub remove_at-length :
    {A : Type 0} (xs : List A) (x : A) → remove_at (length xs) (xs ++ x ∷ []) ≡ xs
remove_at-length [] x = refl
remove_at-length (y ∷ xs) x = ap (λ l. y ∷ l) (remove_at-length xs x)

module _ {C : Type 0} (key : Text) where
  -- A delivery that is about another key.
  abbrev pub Elsewhere : C × Event ℕ → Type 0
  Elsewhere d = d.1.key ≢ key

  deliveries-Elsewhere :
      {I : Type 0} (e : Event ℕ) (ws : List (Watcher I C))
      → e.key ≢ key
      → All Elsewhere (deliveries e ws)
  unfolding deliveries
  deliveries-Elsewhere e [] n = tt
  deliveries-Elsewhere e (w ∷ ws) n = (n, deliveries-Elsewhere e ws n)

-- The report of the move, if it is one, names this target cell if it is about this key.
abbrev pub Repeats : {U I C : Type 0} → Text → Text → Move U I C → Type 0
Repeats key cell (reports x node_id) = x.key ≡ key → x.tgt_cell_id ≡ cell
Repeats key cell (registers id ch) = Unit {0}
Repeats key cell (leaves id ch order) = Unit {0}
Repeats key cell (sends i) = Unit {0}
Repeats key cell (controls i) = Unit {0}
Repeats key cell (hands_over node_id i) = Unit {0}

module _ (ies : Ies) (pdu : PduBuilder ies) {I C : Type 0} (uuid_eq : Discrete I) (key : Text)
    (p : ℕ) (nv : MetricValue ies.Ueid) where
  -- No event about the key waits, in a goroutine of `Send` or in a channel, and the value stands.
  abbrev pub Unseen : Sending ies.Ueid I C → Type 0
  Unseen s = Quiet key p nv s.memory × All (Elsewhere key) s.inbox

  run_sender-Unseen : (i : ℕ) (s : Sending ies.Ueid I C) → Unseen s → Unseen (run_sender i s)
  unfolding run_sender
  run_sender-Unseen i s (q, h) = elim (Option-cases (get_elem? (events s.memory) i)) [
    | inl at ↦ rw (at, run_sender) (q, h)
    | inr (e, at) ↦
        let other = All-get_elem? (λ (e : Event ℕ). e.key ≢ key) (events s.memory) i q.unsent at in
        rw (at, run_sender)
          (
            same-Quiet key p nv s.memory _ q refl q.held.1
                (All-remove_at (λ (e : Event ℕ). e.key ≢ key) i (events s.memory) q.unsent),
            All-append (Elsewhere key) s.inbox _ h
                (deliveries-Elsewhere key e (values s.memory.store.watchers.watchers) other),
          )
  ]

  take_control-Unseen :
      (i : ℕ) (s : Sending ies.Ueid I C) {t : Sending ies.Ueid I C}
      → Unseen s
      → take_control i s ≡ ok t
      → Unseen t
  unfolding take_control
  take_control-Unseen i s (q, h) ends = elim (Option-cases (get_elem? s.inbox i)) [
    | inl at ↦ subst Unseen (ok-injective (rw (at, take_control) at ends)) (q, h)
    | inr ((ch, e), at) ↦
        let (m, r) = control_handover e s.memory in
        let other = All-get_elem? (Elsewhere key) s.inbox i h at in
        subst Unseen (after-ok r _ (rw (at, take_control) at ends)) (
          control_handover-Quiet key p nv e s.memory other q,
          All-remove_at (Elsewhere key) i s.inbox h,
        )
  ]

  take_handover-Unseen :
      (node_id : Text) (i : ℕ) (s : Sending ies.Ueid I C) {t : Sending ies.Ueid I C}
      → Unseen s
      → take_handover ies pdu node_id i s ≡ ok t
      → Unseen t
  unfolding take_handover
  take_handover-Unseen node_id i s (q, h) ends = elim (Option-cases (get_elem? s.inbox i)) [
    | inl at ↦ subst Unseen (ok-injective (rw (at, take_handover) at ends)) (q, h)
    | inr ((ch, e), at) ↦
        let (m, calls, r) = watch_mho_change ies pdu node_id e s.memory in
        let other = All-get_elem? (Elsewhere key) s.inbox i h at in
        subst Unseen (after-ok r _ (rw (at, take_handover) at ends)) (
          watch_mho_change-Quiet ies pdu key p nv node_id e s.memory other q,
          All-remove_at (Elsewhere key) i s.inbox h,
        )
  ]

  move-Unseen :
      (x : Move ies.Ueid I C) (s : Sending ies.Ueid I C) {t : Sending ies.Ueid I C}
      → nv.state ≢ denied
      → Repeats key nv.tgt_cell_id x
      → Unseen s
      → move ies pdu uuid_eq x s ≡ ok t
      → Unseen t
  unfolding move watch watch_done add_watcher remove_watcher
  move-Unseen (reports r node_id) s live repeats (q, h) ends =
      let (m, e) = process_report r node_id s.memory in
      subst Unseen (after-ok e _ ends)
        (process_report-Quiet key p nv r node_id s.memory repeats live q, h)
  move-Unseen (registers id ch) s live repeats (q, h) ends =
      subst Unseen (after-ok (watch uuid_eq id ch s.memory.store).1 _ ends)
        (same-Quiet key p nv s.memory _ q refl q.held.1 q.unsent, h)
  move-Unseen (leaves id ch order) s live repeats (q, h) ends =
      subst Unseen (ok-injective ends) (same-Quiet key p nv s.memory _ q refl q.held.1 q.unsent, h)
  move-Unseen (sends i) s live repeats v ends =
      subst Unseen (ok-injective ends) (run_sender-Unseen i s v)
  move-Unseen (controls i) s live repeats v ends = take_control-Unseen i s v ends
  move-Unseen (hands_over node_id i) s live repeats v ends = take_handover-Unseen node_id i s v ends

  pub run_moves-Unseen :
      (xs : List (Move ies.Ueid I C)) (s : Sending ies.Ueid I C) {t : Sending ies.Ueid I C}
      → nv.state ≢ denied
      → All (Repeats key nv.tgt_cell_id) xs
      → Unseen s
      → run_moves ies pdu uuid_eq xs s ≡ ok t
      → Unseen t
  unfolding run_moves
  run_moves-Unseen [] s live repeats v ends = subst Unseen (ok-injective ends) v
  run_moves-Unseen (x ∷ xs) s live repeats v ends =
      let first = and_then-Passes _ (move ies pdu uuid_eq x s) ends in
      run_moves-Unseen xs first.value live repeats.1
        (move-Unseen x s live repeats.0 v first.returned) first.rest
