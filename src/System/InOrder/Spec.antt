-- ===== src/System/InOrder/Spec.antt =====
-- What the program is to do where events are delivered in order, and what its store then holds.
use onos_mho.Base.{
  ℕ, ◌≡◌, ◌∙◌, ite, Text, Text-discrete, List, [], ◌∷◌, ◌++◌, Option, none, some, false,
}
use onos_mho.Base.Dict.{Dict, lookup, insert}
use onos_mho.Store.{has_entry}
use onos_mho.Store.Types.{MetricValue, EventType, created, updated, state_created, approved, done}
use onos_mho.Memory.{Memory, At, Signal}
use onos_mho.Southbound.Handover.{ControlCall}
use onos_mho.System.InOrder.{Reported}

-- The last target cell of each UE, the messages that the reports call for, and the events that the store
-- sends on the way.
module _ {U : Type 0} where
  abbrev pub cells_after : List (Reported U) → Dict Text Text → Dict Text Text
  cells_after [] cells = cells
  cells_after (x ∷ xs) cells = cells_after xs (insert Text-discrete x.0.key x.0.tgt_cell_id cells)

  abbrev pub message_for : (Reported U → ControlCall) → Reported U → Option Text → List ControlCall
  message_for call_of x none = call_of x ∷ []
  message_for call_of x (some cell) = ite (Text-discrete cell x.0.tgt_cell_id) [] (call_of x ∷ [])

  abbrev pub messages :
      (Reported U → ControlCall) → List (Reported U) → Dict Text Text → List ControlCall
  messages call_of [] cells = []
  messages call_of (x ∷ xs) cells =
      message_for call_of x (lookup Text-discrete x.0.key cells)
      ++ messages call_of xs (insert Text-discrete x.0.key x.0.tgt_cell_id cells)

  -- A report that is written, its approval and its end.
  abbrev pub three_events : Reported U → EventType → List Signal
  three_events x t =
      (x.0.key, t, state_created) ∷ (x.0.key, updated, approved) ∷ (x.0.key, updated, done) ∷ []

  abbrev pub events_for : Reported U → Option Text → List Signal
  events_for x none = three_events x created
  events_for x (some cell) = ite (Text-discrete cell x.0.tgt_cell_id) [] (three_events x updated)

  abbrev pub events_of : List (Reported U) → Dict Text Text → List Signal
  events_of [] cells = []
  events_of (x ∷ xs) cells =
      events_for x (lookup Text-discrete x.0.key cells)
      ++ events_of xs (insert Text-discrete x.0.key x.0.tgt_cell_id cells)

module _ {U I C : Type 0} where
  -- What the store holds for a UE, by the UE's last target cell.
  abbrev pub HoldsCell : Memory U I C → Text → Option Text → Type 0
  HoldsCell m key none = has_entry key m.store ≡ false
  HoldsCell m key (some cell) =
      (p : ℕ) × (nv : MetricValue U) × At m key p nv × (nv.tgt_cell_id ≡ cell) × (nv.state ≡ done)

  abbrev pub Agrees : Dict Text Text → Memory U I C → Type 0
  Agrees cells m = (key : Text) → HoldsCell m key (lookup Text-discrete key cells)

module _ {U I C : Type 0} (m m' : Memory U I C) (key : Text) where
  pub HoldsCell-frame :
      (has_entry key m'.store ≡ has_entry key m.store)
      → ((p : ℕ) (nv : MetricValue U) → At m key p nv → At m' key p nv)
      → (cell : Option Text) → HoldsCell m key cell
      → HoldsCell m' key cell
  HoldsCell-frame same keeps none h = same ∙ h
  HoldsCell-frame same keeps (some cell) (p, nv, h, c, d) = (p, nv, keeps p nv h, c, d)
