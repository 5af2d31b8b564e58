-- ===== src/Store/Interface.antt =====
-- pkg/store/store.go: the interface `Store`, which the components are given, and what they rely on.
use mathlib.Core.List.{Memᴰ}
use onos_mho.Base.{
  ℕ, ◌≡◌, Text, Text-discrete, Bool, true, false, if◌then◌else◌, ite, List, [], ◌∷◌, ◌++◌, Option,
  none, some,
}
use onos_mho.Base.Result.{Result, ok, err, panic, not_found}
use onos_mho.Store.Types.{Entry, Event, EventType, MhoState}

-- The operations on a store of type `S`; `I` is the type of the uuids that `Watch` makes.
pub record StoreApi (V I C S : Type 0) : Type 0 where
  pub put : Text → V → MhoState → S → S × Result (Entry V)
  pub get : Text → S → Result (Entry V)
  pub delete : Text → S → S × Result (Unit {0})
  pub entries : S → List (Entry V)
  pub watch : I → C → S → S × Result (Unit {0})
  pub has_entry : Text → S → Bool
  pub num_watchers : S → ℕ

abbrev pub entry_of : {V : Type 0} → Text → V → Entry V
entry_of key value = record { key = key; value = value }

abbrev pub is_ok : {A : Type 0} → Result A → Bool
is_ok (ok a) = true
is_ok (err e) = false
is_ok panic = false

abbrev pub write_event : {V : Type 0} → Text → V → MhoState → Bool → Event V
write_event key value state known = record {
  key = key;
  value = entry_of key value;
  type = if known then EventType.updated else EventType.created;
  event_mho_state = state;
}

-- What the operations have to do with one another. `sent` is what the watchers are told.
pub record StoreLaws {V I C S : Type 0} (api : StoreApi V I C S) : Type 1 where
  pub IsValid : S → Type 0
  pub sent : S → List (Event V)
  pub put-IsValid :
      (key : Text) (value : V) (state : MhoState) (s : S)
      → IsValid s
      → IsValid (api.put key value state s).0
  pub delete-IsValid : (key : Text) (s : S) → IsValid s → IsValid (api.delete key s).0
  pub watch-IsValid : (id : I) (ch : C) (s : S) → IsValid s → IsValid (api.watch id ch s).0
  pub get-put :
      (key j : Text) (value : V) (state : MhoState) (s : S)
      → api.get j (api.put key value state s).0
        ≡ ite (Text-discrete key j) (ok (entry_of key value)) (api.get j s)
  pub get-delete :
      (key j : Text) (s : S)
      → api.get j (api.delete key s).0 ≡ ite (Text-discrete key j) (err not_found) (api.get j s)
  pub get-watch :
      (key : Text) (id : I) (ch : C) (s : S) → api.get key (api.watch id ch s).0 ≡ api.get key s
  pub has_entry-get : (key : Text) (s : S) → api.has_entry key s ≡ is_ok (api.get key s)
  pub entries-get :
      (s : S) (e : Entry V) → IsValid s → Memᴰ e (api.entries s) → api.get e.key s ≡ ok e
  pub get-entries :
      (key : Text) (s : S) (e : Entry V) → api.get key s ≡ ok e → Memᴰ e (api.entries s)
  pub sent-put :
      (key : Text) (value : V) (state : MhoState) (s : S)
      → sent (api.put key value state s).0
        ≡ sent s ++ write_event key value state (api.has_entry key s) ∷ []
  pub sent-delete : (key : Text) (s : S) → sent (api.delete key s).0 ≡ sent s
  pub sent-watch : (id : I) (ch : C) (s : S) → sent (api.watch id ch s).0 ≡ sent s

-- A call that changes the store.
pub data Call (V I C : Type 0) : Type 0 where
  puts : Text → V → MhoState → Call V I C
  deletes : Text → Call V I C
  watches : I → C → Call V I C

abbrev pub is_some : {V : Type 0} → Option V → Bool
is_some none = false
is_some (some v) = true

-- The specification: what each key holds, and which events a history of calls sends.
module _ {V I C : Type 0} where
  abbrev pub after_call : Call V I C → (Text → Option V) → Text → Option V
  after_call (puts k v state) held j = ite (Text-discrete k j) (some v) (held j)
  after_call (deletes k) held j = ite (Text-discrete k j) none (held j)
  after_call (watches id ch) held j = held j

  abbrev pub after : List (Call V I C) → (Text → Option V) → Text → Option V
  after [] held = held
  after (c ∷ calls) held = after calls (after_call c held)

  abbrev pub events_of_call : Call V I C → (Text → Option V) → List (Event V)
  events_of_call (puts k v state) held = write_event k v state (is_some (held k)) ∷ []
  events_of_call (deletes k) held = []
  events_of_call (watches id ch) held = []

  abbrev pub events_of : List (Call V I C) → (Text → Option V) → List (Event V)
  events_of [] held = []
  events_of (c ∷ calls) held = events_of_call c held ++ events_of calls (after_call c held)

abbrev pub reply : {V : Type 0} → Text → Option V → Result (Entry V)
reply key none = err not_found
reply key (some v) = ok (entry_of key v)

module _ {V I C S : Type 0} (api : StoreApi V I C S) where
  abbrev pub call : Call V I C → S → S
  call (puts k v state) s = (api.put k v state s).0
  call (deletes k) s = (api.delete k s).0
  call (watches id ch) s = (api.watch id ch s).0

  abbrev pub call_all : List (Call V I C) → S → S
  call_all [] s = s
  call_all (c ∷ calls) s = call_all calls (call c s)
