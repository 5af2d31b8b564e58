-- ===== src/Store.antt =====
-- pkg/store/store.go: the map of entries, and the watchers that each `Put` tells.
-- `V` is the type of the stored values, `I` of uuids, `C` of channels. The mutex makes each operation
-- one atomic step, so an operation is a function of the store that it finds to the one that it leaves.
pub mod Types
pub mod Watching
pub mod Laws
pub mod Interface
pub mod Implements
pub mod Trace
pub mod Delivery
use onos_mho.Base.{
  ℕ, Text, Text-discrete, length, Bool, true, false, List, [], ◌∷◌, Option, none, some,
}
use onos_mho.Base.Dict.{Dict, lookup, insert, delete as delete_key, values}
use onos_mho.Base.Result.{Result, ok, err, panic, Error, not_found}
use onos_mho.Store.Types.{Entry, Event, EventType, MhoState}
use onos_mho.Store.Watching.{Watcher, Watchers, new_watchers, send, add_watcher, remove_watcher}

-- `closed` are the event channels that the store has closed.
pub record Store (V I C : Type 0) : Type 0 where
  pub records : Dict Text (Entry V)
  pub watchers : Watchers V I C
  pub closed : List C

module _ {V I C : Type 0} where
  unfoldable pub new_store : Store V I C
  unfolding new_watchers
  new_store = record { records = []; watchers = new_watchers; closed = [] }

  -- What `Entries` writes to its channel before it closes it, in the order of the map.
  unfoldable pub entries : Store V I C → List (Entry V)
  entries s = values s.records

  unfoldable pub delete : Text → Store V I C → Store V I C × Result (Unit {0})
  delete key s = (record s { records = delete_key Text-discrete key s.records }, ok tt)

  -- `s.records[key] = entry` and the event of the given type.
  unfoldable pub store_entry :
      EventType → Text → V → MhoState → Store V I C → Store V I C × Result (Entry V)
  store_entry type key value state s =
      let entry : Entry V = record { key = key; value = value } in
      (
        record s {
          records = insert Text-discrete key entry s.records;
          watchers =
              send (record { key = key; value = entry; type = type; event_mho_state = state })
                s.watchers;
        },
        ok entry,
      )

  unfoldable pub put : Text → V → MhoState → Store V I C → Store V I C × Result (Entry V)
  unfolding store_entry
  put key value state s = elim (lookup Text-discrete key s.records) [
    | none ↦ store_entry EventType.created key value state s
    | some _ ↦ store_entry EventType.updated key value state s
  ]

  unfoldable pub get : Text → Store V I C → Result (Entry V)
  get key s = elim (lookup Text-discrete key s.records) [ none ↦ err not_found | some v ↦ ok v ]

  unfoldable pub has_entry : Text → Store V I C → Bool
  has_entry key s = elim (lookup Text-discrete key s.records) [ none ↦ false | some _ ↦ true ]

  unfoldable pub num_watchers : Store V I C → ℕ
  num_watchers s = length s.watchers.watchers

module _ {V I C : Type 0} (uuid_eq : Discrete I) where
  -- `Watch`, up to the start of the goroutine that waits for the context; `id` is the new uuid.
  unfoldable pub watch : I → C → Store V I C → Store V I C × Result (Unit {0})
  unfolding add_watcher
  watch id ch s =
      let (ws, r) = add_watcher uuid_eq id ch s.watchers in
      elim r [
        | ok _ ↦ (record s { watchers = ws }, ok tt)
        | err e ↦ (record s { watchers = ws; closed = ch ∷ s.closed }, err e)
        | panic ↦ (record s { watchers = ws }, panic)
      ]

  -- The goroutine of `Watch` once its context is done. An error of `RemoveWatcher` is only logged.
  unfoldable pub watch_done : I → C → List (Watcher I C) → Store V I C → Store V I C
  unfolding remove_watcher
  watch_done id ch order s = record s {
    watchers = (remove_watcher uuid_eq id order s.watchers).0;
    closed = ch ∷ s.closed;
  }
