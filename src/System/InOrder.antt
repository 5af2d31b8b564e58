-- ===== src/System/InOrder.antt =====
-- The program where every event reaches its watchers before the next report comes, and in the order in
-- which the store sent them: the monitors, the controller and the watchers of the connected nodes.
pub mod Spec
pub mod Handling
pub mod Delivery
pub mod Laws
pub mod Rests
pub mod Simulation
pub mod Indications
use onos_mho.Base.{ℕ, zero, suc, ◌+◌, Text, get_elem?, List, [], ◌∷◌, ◌++◌, none, some}
use onos_mho.Base.Result.{Result, ok, err, panic, ◌>>=◌, ◌>>◌}
use onos_mho.Store.Types.{Event}
use onos_mho.Memory.{Memory, events}
use onos_mho.Utils.Ies.{Ies, PduBuilder}
use onos_mho.Monitor.{Indication, process_indication, Report, process_report}
use onos_mho.Controller.{control_handover}
use onos_mho.Southbound.Handover.{ControlCall, watch_mho_change}

-- A report, and the node that it comes from.
abbrev pub Reported : Type 0 → Type 0
Reported U = Report U × Text

module _ (ies : Ies) (pdu : PduBuilder ies) {I C : Type 0} where
  -- The watchers of the nodes take the event, one after the other.
  unfoldable pub watch_all :
      List Text → Event ℕ → Memory ies.Ueid I C → Result (Memory ies.Ueid I C × List ControlCall)
  unfolding watch_mho_change
  watch_all [] e m = ok (m, [])
  watch_all (node_id ∷ nodes) e m =
      let (m1, calls, r) = watch_mho_change ies pdu node_id e m in
      do r; rest ← watch_all nodes e m1; ok (rest.0, calls ++ rest.1)

  -- The controller takes the event, and then the watchers of the nodes.
  unfoldable pub handle :
      List Text → Event ℕ → Memory ies.Ueid I C → Result (Memory ies.Ueid I C × List ControlCall)
  unfolding control_handover watch_all
  handle nodes e m = let (m1, r) = control_handover e m in do r; watch_all nodes e m1

  -- The events from `next` on, those that are sent on the way included; `rounds` bounds their number.
  unfoldable pub deliver :
      List Text → ℕ → ℕ → Memory ies.Ueid I C → Result (ℕ × Memory ies.Ueid I C × List ControlCall)
  unfolding handle
  deliver nodes zero next m = ok (next, m, [])
  deliver nodes (suc rounds) next m = elim (get_elem? (events m) next) [
    | none ↦ ok (next, m, [])
    | some e ↦ do
      handled ← handle nodes e m
      rest ← deliver nodes rounds (next + 1) handled.0
      ok (rest.0, rest.1, handled.1 ++ rest.2)
  ]

  -- A report, and the events that follow from it: three at most.
  unfoldable pub receive :
      List Text
      → Reported ies.Ueid
      → ℕ
      → Memory ies.Ueid I C
      → Result (ℕ × Memory ies.Ueid I C × List ControlCall)
  unfolding process_report deliver
  receive nodes x next m = let (m1, r) = process_report x.0 x.1 m in do r; deliver nodes 3 next m1

  unfoldable pub receive_all :
      List Text
      → List (Reported ies.Ueid)
      → ℕ
      → Memory ies.Ueid I C
      → Result (ℕ × Memory ies.Ueid I C × List ControlCall)
  unfolding receive
  receive_all nodes [] next m = ok (next, m, [])
  receive_all nodes (x ∷ xs) next m = do
    first ← receive nodes x next m
    rest ← receive_all nodes xs first.0 first.1
    ok (rest.0, rest.1, first.2 ++ rest.2)

  -- The same from the indications themselves: each one, with the node that sends it.
  unfoldable pub receive_indication :
      List Text
      → Indication × Text
      → ℕ
      → Memory ies.Ueid I C
      → Result (ℕ × Memory ies.Ueid I C × List ControlCall)
  unfolding process_indication deliver
  receive_indication nodes x next m =
      let (m1, r) = process_indication ies x.0 x.1 m in do r; deliver nodes 3 next m1

  unfoldable pub receive_indications :
      List Text
      → List (Indication × Text)
      → ℕ
      → Memory ies.Ueid I C
      → Result (ℕ × Memory ies.Ueid I C × List ControlCall)
  unfolding receive_indication
  receive_indications nodes [] next m = ok (next, m, [])
  receive_indications nodes (x ∷ xs) next m = do
    first ← receive_indication nodes x next m
    rest ← receive_indications nodes xs first.0 first.1
    ok (rest.0, rest.1, first.2 ++ rest.2)
