-- ===== src/Store/Laws.antt =====
-- pkg/store/store.go: what a reader of the store sees after a write, and which event a write sends.
use onos_mho.Base.{
  ◌≡◌, Text, Text-discrete, true, false, [], ◌∷◌, ◌++◌, ite, if◌then◌else◌, arith, inl, inr,
  Option-cases,
}
use onos_mho.Base.Dict.{lookup, insert, lookup-insert, lookup-delete}
use onos_mho.Base.Result.{ok, err, not_found}
use onos_mho.Store.Types.{Entry, EventType, MhoState}
use onos_mho.Store.Interface.{entry_of}
use onos_mho.Store.Watching.{send}
use onos_mho.Store.{Store, put, get, has_entry, delete}

module _ {V I C : Type 0} where
  pub put_records :
      (key : Text) (value : V) (state : MhoState) (s : Store V I C)
      → (put key value state s).0.records ≡ insert Text-discrete key (entry_of key value) s.records
  unfolding put
  put_records key value state s = ground arith

  pub put_ok :
      (key : Text) (value : V) (state : MhoState) (s : Store V I C)
      → (put key value state s).1 ≡ ok (entry_of key value)
  unfolding put
  put_ok key value state s = ground arith

  -- After a `Put`, the key reads back the new entry and every other key reads as before.
  pub get-put :
      (key j : Text) (value : V) (state : MhoState) (s : Store V I C)
      → get j (put key value state s).0
        ≡ ite (Text-discrete key j) (ok (entry_of key value)) (get j s)
  unfolding get
  get-put key j value state s = ground (
    arith,
    put_records key value state s,
    lookup-insert Text-discrete key j (entry_of key value) s.records,
  )

  pub has_entry-put :
      (key j : Text) (value : V) (state : MhoState) (s : Store V I C)
      → has_entry j (put key value state s).0 ≡ ite (Text-discrete key j) true (has_entry j s)
  unfolding has_entry
  has_entry-put key j value state s = ground (
    arith,
    put_records key value state s,
    lookup-insert Text-discrete key j (entry_of key value) s.records,
  )

  -- `Put` sends exactly one event: `Updated` if the key was there, `Created` if not.
  pub put_sends :
      (key : Text) (value : V) (state : MhoState) (s : Store V I C)
      → (put key value state s).0.watchers.senders
        ≡ s.watchers.senders
          ++ record {
            key = key;
            value = entry_of key value;
            type = if has_entry key s then EventType.updated else EventType.created;
            event_mho_state = state;
          }
            ∷ []
  unfolding put has_entry send
  put_sends key value state s = elim (Option-cases (lookup Text-discrete key s.records)) [
    | inl e ↦ rw (e, put, has_entry)
    | inr (old, e) ↦ rw (e, put, has_entry)
  ]

  -- The map of watchers is left alone.
  pub put_watchers :
      (key : Text) (value : V) (state : MhoState) (s : Store V I C)
      → (put key value state s).0.watchers.watchers ≡ s.watchers.watchers
  unfolding put send
  put_watchers key value state s = elim (Option-cases (lookup Text-discrete key s.records)) [
    | inl e ↦ rw (e, put)
    | inr (old, e) ↦ rw (e, put)
  ]

  pub get-delete :
      (key j : Text) (s : Store V I C)
      → get j (delete key s).0 ≡ ite (Text-discrete key j) (err not_found) (get j s)
  unfolding get delete
  get-delete key j s = ground (arith, lookup-delete Text-discrete key j s.records)

  pub has_entry-get :
      (key : Text) (s : Store V I C) {e : Entry V} → get key s ≡ ok e → has_entry key s ≡ true
  unfolding get has_entry
  has_entry-get key s h = ground arith

  pub get_missing :
      (key : Text) (s : Store V I C) → has_entry key s ≡ false → get key s ≡ err not_found
  unfolding get has_entry
  get_missing key s h = ground arith
