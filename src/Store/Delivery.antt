-- ===== src/Store/Delivery.antt =====
-- pkg/store/watcher.go, `Send`: the goroutine's writes, on channels that `Watch` of pkg/store/store.go
-- closes once a watcher's context is done.
pub mod Laws
use onos_mho.Base.{Bool, true, false, if◌then◌else◌, List, [], ◌∷◌, ite}
use onos_mho.Base.Result.{Result, ok, panic, ◌>>=◌}
use onos_mho.Store.Types.{Event}
use onos_mho.Store.Watching.{Watcher}

module _ {C : Type 0} (channel_eq : Discrete C) where
  unfoldable pub is_closed : C → List C → Bool
  is_closed ch [] = false
  is_closed ch (c ∷ closed) = ite (channel_eq c ch) true (is_closed ch closed)

module _ {V I C : Type 0} (channel_eq : Discrete C) where
  -- The loop of the goroutine over the watchers that its `range` visits, as far as each write is met by
  -- a read: what it writes. A write to a closed channel is a panic.
  unfoldable pub write_all : List C → Event V → List (Watcher I C) → Result (List (C × Event V))
  unfolding is_closed
  write_all closed event [] = ok []
  write_all closed event (watcher ∷ rest) =
      if is_closed channel_eq watcher.ch closed
      then panic
      else do written ← write_all closed event rest; ok ((watcher.ch, event) ∷ written)
