-- ===== src/Store/Implements.antt =====
-- pkg/store/store.go: the store behind its interface.
use mathlib.Core.List.{Memᴰ}
use onos_mho.Base.{◌≡◌, ◌↔◌, refl, sym, ◌∙◌, Text, Text-discrete, List, All, some, none, arith}
use onos_mho.Base.Dict.{
  Dict, lookup, IsUnique, insert-IsUnique, All-insert, All-lookup_self, delete-IsUnique, All-delete,
  lookup-Mem, Mem-lookup,
}
use onos_mho.Base.Result.{ok}
use onos_mho.Store.Types.{Entry, MhoState}
use onos_mho.Store.{Store, new_store, put, get, delete, entries, watch, has_entry, num_watchers}
use onos_mho.Store.Laws.{get-put, get-delete, put_records, put_sends}
use onos_mho.Store.Watching.{new_watchers}
use onos_mho.Store.Interface.{
  StoreApi, StoreLaws, Call, call_all, after, events_of, reply, is_some, is_ok, entry_of,
}
use onos_mho.Store.Trace.{call_all-Holds, Holds-has_entry, reply-eq_ok}

module _ {V I C : Type 0} (uuid_eq : Discrete I) where
  abbrev pub store_api : StoreApi V I C (Store V I C)
  store_api = record {
    put = put;
    get = get;
    delete = delete;
    entries = entries;
    watch = watch uuid_eq;
    has_entry = has_entry;
    num_watchers = num_watchers;
  }

-- No key stands twice, and each entry stands under its own key.
abbrev pub IsStored : {V : Type 0} → Dict Text (Entry V) → Type 0
IsStored records = IsUnique Text-discrete records × All (λ p. p.1.key ≡ p.0) records

module _ {V I C : Type 0} (uuid_eq : Discrete I) where
  put-IsStored :
      (key : Text) (value : V) (state : MhoState) (s : Store V I C)
      → IsStored s.records
      → IsStored (put key value state s).0.records
  put-IsStored key value state s (unique, keyed) = rw (put_records key value state s) (
    insert-IsUnique Text-discrete key (entry_of key value) s.records unique,
    All-insert Text-discrete (λ p. p.1.key ≡ p.0) key (entry_of key value) s.records refl keyed,
  )

  delete-IsStored :
      (key : Text) (s : Store V I C) → IsStored s.records → IsStored (delete key s).0.records
  unfolding delete
  delete-IsStored key s (unique, keyed) = (
    delete-IsUnique Text-discrete key s.records unique,
    All-delete Text-discrete (λ p. p.1.key ≡ p.0) key s.records keyed,
  )

  entries_found :
      (s : Store V I C) (e : Entry V) → IsStored s.records → Memᴰ e (entries s) → get e.key s ≡ ok e
  unfolding entries get
  entries_found s e (unique, keyed) listed = rw (
    Mem-lookup Text-discrete (λ v. v.key) s.records s.records
        (All-lookup_self Text-discrete s.records unique) keyed listed,
    get,
  )

  get_listed : (key : Text) (s : Store V I C) (e : Entry V) → get key s ≡ ok e → Memᴰ e (entries s)
  unfolding entries get
  get_listed key s e found = lookup-Mem Text-discrete key s.records (ground arith)

  has_entry_is_ok : (key : Text) (s : Store V I C) → has_entry key s ≡ is_ok (get key s)
  unfolding has_entry get
  has_entry_is_ok key s = ground arith

  -- The laws of the interface.
  store_laws : StoreLaws (store_api {V = V} {C = C} uuid_eq)
  unfolding get watch delete
  store_laws = record {
    IsValid = λ s. IsStored s.records;
    sent = λ s. s.watchers.senders;
    put-IsValid = put-IsStored;
    delete-IsValid = delete-IsStored;
    watch-IsValid = λ id ch s v. v;
    get-put = get-put;
    get-delete = get-delete;
    get-watch = λ key id ch s. refl;
    has_entry-get = has_entry_is_ok;
    entries-get = entries_found;
    get-entries = get_listed;
    sent-put = put_sends;
    sent-delete = λ key s. refl;
    sent-watch = λ id ch s. refl;
  }

-- After any history of calls of `Put`, `Delete` and `Watch` on a new store: `Get` of a key returns the
-- entry of the last `Put` to it, or NotFound where there was none or a later `Delete`; `HasEntry` is true
-- of just the keys that `Get` finds; `Entries` lists just the entries that `Get` finds; and the events
-- sent are one for each `Put`, in order, `Created` where its key was not held then and `Updated` where
-- it was.
pub call_all_lem :
    (V I C : Type 0) (uuid_eq : Discrete I) (calls : List (Call V I C))
    → let s = call_all (store_api uuid_eq) calls new_store in
      let held = after calls (λ key. none) in
      ((key : Text) → get key s ≡ reply key (held key))
      × ((key : Text) → has_entry key s ≡ is_some (held key))
      × ((e : Entry V) → Memᴰ e (entries s) ↔ (held e.key ≡ some e.value))
      × (s.watchers.senders ≡ events_of calls (λ key. none))
unfolding new_store new_watchers get lookup store_laws
call_all_lem V I C uuid_eq calls =
    let api = store_api {V = V} {C = C} uuid_eq in
    let laws = store_laws {V = V} {C = C} uuid_eq in
    let ((valid, reads), sent) =
      call_all-Holds api laws calls (λ key. none) new_store ((tt, tt), λ key. refl) in
    let s = call_all api calls new_store in
    let held = after calls (λ key. none) in
    (
      reads,
      λ key. Holds-has_entry api laws held s key (valid, reads),
      λ e. (
        λ listed.
            (reply-eq_ok e (held e.key)).0 (sym (reads e.key) ∙ laws.entries-get s e valid listed),
        λ holds. laws.get-entries e.key s e (reads e.key ∙ (reply-eq_ok e (held e.key)).1 holds),
      ),
      sent,
    )
