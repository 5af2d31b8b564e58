-- ===== src/Monitor/Loop.antt =====
-- pkg/monitoring/monitor.go, `Start`: the goroutine that reads indications, and the call that waits
-- for its first error.
-- The channel `errCh` has no buffer: the goroutine that writes to it goes on only once `Start` has
-- read, and `Start` reads at most once. `zero_indication` is what `Recv` returns beside an error.
pub mod Laws
use onos_mho.Base.{ℕ, Text, List, [], ◌∷◌, Option, none, some}
use onos_mho.Base.Result.{Result, ok, err, panic, Error, canceled}
use onos_mho.Memory.{Memory}
use onos_mho.Monitor.{Indication, process_indication}
use onos_mho.Utils.Ies.{Ies}

-- Where the goroutine stands: in `Recv`, at the write of an error of `Recv`, at the write of an error
-- of `processIndication`, or nowhere, when a panic has ended the process.
pub data Reader : Type 0 where
  receiving : Reader
  recv_failed process_failed : Error → Reader
  panicked : Reader

-- `Start`: in its `select`, or returned.
pub data Waiter : Type 0 where
  selecting : Waiter
  returned : Error → Waiter

pub record Loop (U I C : Type 0) : Type 0 where
  pub reader : Reader
  pub waiter : Waiter
  pub memory : Memory U I C

-- What can happen: `Recv` returns, the write to `errCh` meets the read, or the context is done.
pub data Event : Type 0 where
  received : Indication → Event
  failed : Error → Event
  handover cancel : Event

abbrev pub zero_indication : Indication
zero_indication = record { header = []; payload = []; call_process_id = [] }

-- `Start` on a store.
unfoldable pub start : {U I C : Type 0} → Memory U I C → Loop U I C
start m = record { reader = receiving; waiter = selecting; memory = m }

-- Where the goroutine stands after `processIndication`.
abbrev pub after : Result (Unit {0}) → Reader
after (ok _) = receiving
after (err e) = process_failed e
after panic = panicked

module _ (ies : Ies) (node_id : Text) {I C : Type 0} where
  -- `processIndication`, and the test of its error.
  unfoldable pub process : Indication → Loop ies.Ueid I C → Loop ies.Ueid I C
  unfolding process_indication
  process indication l =
      let (m, r) = process_indication ies indication node_id l.memory in
      record l { reader = after r; memory = m }

  -- The write of the goroutine meets the read of `Start`. After an error of `Recv` the goroutine goes
  -- on with what `Recv` returned beside it.
  unfoldable pub meet : Reader → Loop ies.Ueid I C → Loop ies.Ueid I C
  unfolding process
  meet receiving l = l
  meet (recv_failed e) l = process zero_indication (record l { waiter = returned e })
  meet (process_failed e) l = record l { waiter = returned e; reader = receiving }
  meet panicked l = l

  unfoldable pub receive : Reader → Result Indication → Loop ies.Ueid I C → Loop ies.Ueid I C
  unfolding process
  receive receiving (ok indication) l = process indication l
  receive receiving (err e) l = record l { reader = recv_failed e }
  receive receiving panic l = record l { reader = panicked }
  receive _ _ l = l

  -- An event that cannot happen where the two stand changes nothing.
  unfoldable pub step : Event → Loop ies.Ueid I C → Loop ies.Ueid I C
  unfolding receive meet
  step (received indication) l = receive l.reader (ok indication) l
  step (failed e) l = receive l.reader (err e) l
  step handover l = elim l.waiter [ selecting ↦ meet l.reader l | returned _ ↦ l ]
  step cancel l = elim l.waiter [
    | selecting ↦ record l { waiter = returned canceled }
    | returned _ ↦ l
  ]

  unfoldable pub run : List Event → Loop ies.Ueid I C → Loop ies.Ueid I C
  unfolding step
  run [] l = l
  run (e ∷ es) l = run es (step e l)
