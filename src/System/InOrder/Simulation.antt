-- ===== src/System/InOrder/Simulation.antt =====
-- The program with its events in order is one of the runs of the handlers side by side.
use onos_mho.Base.{
  refl, get_elem?-Mem, Option-cases, ℕ, zero, suc, ◌+◌, ◌≡◌, subst, inl, inr, Text, get_elem?, List,
  [], ◌∷◌, ◌++◌, All, append_assoc, append-nil,
}
use onos_mho.Base.Dict.{lookup}
use onos_mho.Base.Result.{ok, and_then-Passes}
use onos_mho.Store.{new_store, has_entry}
use onos_mho.Store.Watching.{new_watchers}
use onos_mho.Memory.{Memory, events}
use onos_mho.Utils.Ies.{Ies, PduBuilder}
use onos_mho.Monitor.{Report, process_report}
use onos_mho.Controller.{control_handover}
use onos_mho.Southbound.Handover.{ControlCall}
use onos_mho.System.{Reach, here, start}
use onos_mho.System.InOrder.{Reported, handle, deliver, receive, receive_all}
use onos_mho.System.InOrder.Delivery.{Served}
use onos_mho.System.InOrder.Spec.{Agrees, messages, cells_after}
use onos_mho.System.InOrder.Laws.{receive_all-refines}
use onos_mho.System.Plans.{ok_inj}
use onos_mho.System.InOrder.Rests.{at_rest, report-Rests, control-RestsWith, watch_all-Rests}

module _ (ies : Ies) (pdu : PduBuilder ies) {I C : Type 0}
    (Received : Report ies.Ueid → Text → Type 0) (nodes : List Text) where
  -- A memory and what is sent on the way to it, the program being at rest there.
  abbrev Reached : List ControlCall → ℕ × Memory ies.Ueid I C × List ControlCall → Type 0
  Reached calls out = Reach ies pdu Received (at_rest out.1 (calls ++ out.2))

  deliver-Reached :
      (rounds at : ℕ) (m : Memory ies.Ueid I C) (calls : List ControlCall)
      (out : ℕ × Memory ies.Ueid I C × List ControlCall)
      → Reach ies pdu Received (at_rest m calls)
      → deliver ies pdu nodes rounds at m ≡ ok out
      → Reached calls out
  unfolding deliver handle
  deliver-Reached zero at m calls out h ends =
      subst (Reached calls) (ok_inj ends) (rw (append-nil calls) h)
  deliver-Reached (suc rounds) at m calls out h ends =
      elim (Option-cases (get_elem? (events m) at)) [
        | inl none_left ↦
            subst (Reached calls) (ok_inj (rw (none_left, deliver) at ends))
              (rw (append-nil calls) h)
        | inr (e, found) ↦
            let handled =
              and_then-Passes _ (handle ies pdu nodes e m) (rw (found, deliver) at ends) in
            let (m1, r) = control_handover e m in
            let watched = and_then-Passes _ r handled.returned in
            let rest =
              and_then-Passes _ (deliver ies pdu nodes rounds (at + 1) handled.value.0)
                handled.rest in
            let v = rest.value in
            let after_control =
              control-RestsWith ies pdu Received e m calls (h, get_elem?-Mem (events m) at found) in
            let after_watch =
              watch_all-Rests ies pdu Received e nodes m1 calls handled.value after_control
                watched.rest in
            let reached =
              deliver-Reached rounds (at + 1) handled.value.0 (calls ++ handled.value.1) v
                after_watch rest.returned in
            subst (Reached calls) (ok_inj rest.rest)
              (rw (← append_assoc calls handled.value.1 v.2) reached)
      ]

  receive-Reached :
      (x : Reported ies.Ueid) (at : ℕ) (m : Memory ies.Ueid I C) (calls : List ControlCall)
      (out : ℕ × Memory ies.Ueid I C × List ControlCall)
      → Received x.0 x.1
      → Reach ies pdu Received (at_rest m calls)
      → receive ies pdu nodes x at m ≡ ok out
      → Reached calls out
  unfolding receive
  receive-Reached x at m calls out received h ends =
      let (m1, r) = process_report x.0 x.1 m in
      let reported = and_then-Passes _ r ends in
      deliver-Reached 3 at m1 calls out
        (report-Rests ies pdu Received x.0 x.1 m calls received h reported.returned) reported.rest

  receive_all_reachable :
      (xs : List (Reported ies.Ueid)) (at : ℕ) (m : Memory ies.Ueid I C) (calls : List ControlCall)
      (out : ℕ × Memory ies.Ueid I C × List ControlCall)
      → All (λ x. Received x.0 x.1) xs
      → Reach ies pdu Received (at_rest m calls)
      → receive_all ies pdu nodes xs at m ≡ ok out
      → Reach ies pdu Received (at_rest out.1 (calls ++ out.2))
  unfolding receive_all
  receive_all_reachable [] at m calls out received h ends =
      subst (Reached calls) (ok_inj ends) (rw (append-nil calls) h)
  receive_all_reachable (x ∷ xs) at m calls out received h ends =
      let first = and_then-Passes _ (receive ies pdu nodes x at m) ends in
      let rest =
        and_then-Passes _ (receive_all ies pdu nodes xs first.value.0 first.value.1) first.rest in
      let v = rest.value in
      let after_first = receive-Reached x at m calls first.value received.0 h first.returned in
      let reached =
        receive_all_reachable xs first.value.0 first.value.1 (calls ++ first.value.2) v received.1
          after_first rest.returned in
      subst (Reached calls) (ok_inj rest.rest) (rw (← append_assoc calls first.value.2 v.2) reached)

  -- Whatever reports come, if each one's node is watched once and the builders make its message: there
  -- is a run of the system, in which the handlers run side by side, that starts with an empty store and
  -- ends with no handler on its way, in which the control messages sent are exactly those of the reports
  -- that name another cell than the last report of the same UE before them, in this order, and the store
  -- holds the last target cell of each UE, done.
  pub run_with_messages :
      (call_of : Reported ies.Ueid → ControlCall) (xs : List (Reported ies.Ueid))
      → All (λ x. Received x.0 x.1) xs
      → All (λ x. Served ies pdu nodes x (call_of x)) xs
      → (m' : Memory ies.Ueid I C) × Reach ies pdu Received (at_rest m' (messages call_of xs []))
        × Agrees (cells_after xs []) m'
  unfolding start new_store new_watchers has_entry lookup
  run_with_messages call_of xs received served =
      let m = start.memory in
      let (m', ends, _, agrees) =
        receive_all-refines ies pdu nodes call_of xs [] m served (λ key. refl) in
      (m', receive_all_reachable xs 0 m [] _ received here ends, agrees)
