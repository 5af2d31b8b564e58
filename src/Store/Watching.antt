-- ===== src/Store/Watching.antt =====
-- pkg/store/watcher.go: the registered watchers and the goroutines that `Send` starts.
-- `I` is the type of uuids, `C` that of channels, `V` that of the store's values. The order in which
-- `range` visits a map is an argument.
pub mod Laws
use onos_mho.Base.{List, [], ◌∷◌, ◌++◌, ite}
use onos_mho.Base.Dict.{Dict, insert}
use onos_mho.Base.Result.{Result, ok}
use onos_mho.Store.Types.{Event}

pub record Watcher (I C : Type 0) : Type 0 where
  pub id : I
  pub ch : C

-- `senders` are the goroutines that `Send` has started: each will write its event to the watchers.
pub record Watchers (V I C : Type 0) : Type 0 where
  pub watchers : Dict I (Watcher I C)
  pub senders : List (Event V)

module _ {V I C : Type 0} where
  unfoldable pub new_watchers : Watchers V I C
  new_watchers = record { watchers = []; senders = [] }

  unfoldable pub send : Event V → Watchers V I C → Watchers V I C
  send event ws = record ws { senders = ws.senders ++ event ∷ [] }

  -- What the goroutine of `Send` writes, in the order of its `range`: the event, once to each watcher
  -- that is registered when it runs.
  unfoldable pub deliveries : Event V → List (Watcher I C) → List (C × Event V)
  deliveries event [] = []
  deliveries event (watcher ∷ rest) = (watcher.ch, event) ∷ deliveries event rest

module _ {I C : Type 0} (uuid_eq : Discrete I) where
  -- The loop of `RemoveWatcher`: it writes each watcher that stays under the id that goes.
  unfoldable pub keep_others : I → List (Watcher I C) → Dict I (Watcher I C) → Dict I (Watcher I C)
  unfolding insert
  keep_others id [] watchers = watchers
  keep_others id (watcher ∷ rest) watchers =
      keep_others id rest
        (ite (uuid_eq watcher.id id) watchers (insert uuid_eq id watcher watchers))

module _ {V I C : Type 0} (uuid_eq : Discrete I) where
  unfoldable pub add_watcher : I → C → Watchers V I C → Watchers V I C × Result (Unit {0})
  unfolding insert
  add_watcher id ch ws =
      (record ws { watchers = insert uuid_eq id (record { id = id; ch = ch }) ws.watchers }, ok tt)

  -- `order` is the order in which `range ws.watchers` visits the registered watchers.
  unfoldable pub remove_watcher :
      I → List (Watcher I C) → Watchers V I C → Watchers V I C × Result (Unit {0})
  unfolding keep_others
  remove_watcher id order ws = (record ws { watchers = keep_others uuid_eq id order [] }, ok tt)
