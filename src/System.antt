-- ===== src/System.antt =====
-- How the monitors (pkg/monitoring), the controller (pkg/controller) and the watchers of the E2 nodes
-- (pkg/southbound/e2) run side by side over the shared metric store.
-- A handler reads the store, and writes it in later steps; between these, steps of other handlers may
-- come. A watcher of the store may take any event that was sent, in any order and more than once,
-- which covers the goroutines that `Send` starts. `Received` says which reports came in, and
-- from which node.
pub mod Pipeline
pub mod Plans
pub mod Invariant
pub mod Lifecycle
pub mod Evolution
pub mod Totality
pub mod Queries
pub mod Node
pub mod InOrder
pub mod Races
pub mod Sending
use mathlib.Core.List.{Memᴰ}
use onos_mho.Base.{ℕ, zero, suc, ◌≡◌, Text, get_elem?, List, [], ◌∷◌, ◌++◌, Option, none, some}
use onos_mho.Base.Result.{Result, ok, err, panic}
use onos_mho.Store.{new_store}
use onos_mho.Store.Types.{MetricValue, Event, MhoState, approved, done}
use onos_mho.Memory.{Memory, events, put_metric, set_state}
use onos_mho.Utils.Ies.{Ies, PduBuilder}
use onos_mho.Monitor.{Report, Plan, plan, commit}
use onos_mho.Controller.{plan_approval}
use onos_mho.Southbound.Handover.{ControlCall, plan_control, control_call}

-- A handler that has read the store, by what it does next.
pub data Task (U : Type 0) : Type 0 where
  -- A monitor is about to write what it decided.
  reporting : Report U → Text → Plan → Task U
  -- The controller, or a node's watcher, is about to set the state of a value.
  approving finishing : Text → ℕ → Task U
  -- It has set the state, and is about to call `Put`.
  publishing : Text → ℕ → MhoState → Task U
  -- A node's watcher is about to send the control message of a value.
  controlling : Text → Text → ℕ → MetricValue U → Task U

pub record System (U I C : Type 0) : Type 0 where
  pub memory : Memory U I C
  pub tasks : List (Task U)
  pub calls : List ControlCall

abbrev pub remove_at : {A : Type 0} → ℕ → List A → List A
remove_at i [] = []
remove_at zero (x ∷ xs) = xs
remove_at (suc i) (x ∷ xs) = x ∷ remove_at i xs

unfoldable pub start : {U I C : Type 0} → System U I C
start = record { memory = record { metrics = []; store = new_store }; tasks = []; calls = [] }

module _ (ies : Ies) (pdu : PduBuilder ies) {I C : Type 0} where
  -- A node's watcher makes the control message of a value and sends it; it is then to set the state.
  -- Where a builder panics the process ends, so that no state follows.
  unfoldable pub control_step :
      Text → Text → ℕ → MetricValue ies.Ueid → System ies.Ueid I C → Result (System ies.Ueid I C)
  control_step node_id key p nv s = elim (control_call ies pdu node_id nv) [
    | ok call ↦ ok (record s { tasks = finishing key p ∷ s.tasks; calls = s.calls ++ call ∷ [] })
    | err _ ↦ ok s
    | panic ↦ panic
  ]

  -- The next step of a task, which is no longer among those of the state.
  unfoldable pub perform : Task ies.Ueid → System ies.Ueid I C → Result (System ies.Ueid I C)
  unfolding control_step
  perform (reporting r node_id p) s = ok (record s { memory = (commit r node_id p s.memory).0 })
  perform (approving key p) s = ok (record s {
    memory = set_state p approved s.memory;
    tasks = publishing key p approved ∷ s.tasks;
  })
  perform (finishing key p) s =
      ok (record s { memory = set_state p done s.memory; tasks = publishing key p done ∷ s.tasks })
  perform (publishing key p state) s =
      ok (record s { memory = (put_metric key p state s.memory).0 })
  perform (controlling node_id key p nv) s = control_step node_id key p nv s

  pub data Step (Received : Report ies.Ueid → Text → Type 0) (s : System ies.Ueid I C)
      : System ies.Ueid I C → Type 0 where
    report :
        (r : Report ies.Ueid) (node_id : Text) (p : Plan)
        → Received r node_id
        → plan r s.memory ≡ ok p
        → Step Received s (record s { tasks = reporting r node_id p ∷ s.tasks })
    approval :
        (e : Event ℕ) (p : ℕ)
        → Memᴰ e (events s.memory)
        → plan_approval e s.memory ≡ ok (some p)
        → Step Received s (record s { tasks = approving e.key p ∷ s.tasks })
    control :
        (node_id : Text) (e : Event ℕ) (p : ℕ) (nv : MetricValue ies.Ueid)
        → Memᴰ e (events s.memory)
        → plan_control node_id e s.memory ≡ ok (some (p, nv))
        → Step Received s (record s { tasks = controlling node_id e.key p nv ∷ s.tasks })
    work :
        {u : System ies.Ueid I C} (i : ℕ) (t : Task ies.Ueid)
        → get_elem? s.tasks i ≡ some t
        → perform t (record s { tasks = remove_at i s.tasks }) ≡ ok u
        → Step Received s u

  pub data Reach (Received : Report ies.Ueid → Text → Type 0) : System ies.Ueid I C → Type 0 where
    here : Reach Received start
    next : {s t : System ies.Ueid I C} → Reach Received s → Step Received s t → Reach Received t
