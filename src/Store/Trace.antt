-- ===== src/Store/Trace.antt =====
-- pkg/store/store.go: any history of calls of a store that is used through its interface alone.
use onos_mho.Base.{
  ◌≡◌, refl, ◌∙◌, ap, sym, ◌↔◌, Text, List, [], ◌∷◌, ◌++◌, append_assoc, append-nil, Option, none,
  some, arith,
}
use onos_mho.Base.Result.{ok}
use onos_mho.Store.Types.{Entry}
use onos_mho.Store.Interface.{
  StoreApi, StoreLaws, Call, puts, deletes, watches, call, call_all, after_call, after,
  events_of_call, events_of, reply, is_some, is_ok,
}

is_ok-reply : {V : Type 0} (key : Text) (held : Option V) → is_ok (reply key held) ≡ is_some held
is_ok-reply key none = refl
is_ok-reply key (some v) = refl

pub reply-eq_ok :
    {V : Type 0} (e : Entry V) (held : Option V) → (reply e.key held ≡ ok e) ↔ (held ≡ some e.value)
reply-eq_ok e none = (λ h. cc, λ h. cc)
reply-eq_ok e (some v) = (λ h. ground arith, λ h. ground arith)

module _ {V I C S : Type 0} (api : StoreApi V I C S) (laws : StoreLaws api) where
  -- Each key reads as it is said to be held.
  abbrev pub Holds : (Text → Option V) → S → Type 0
  Holds held s = laws.IsValid s × ((key : Text) → api.get key s ≡ reply key (held key))

  pub Holds-has_entry :
      (held : Text → Option V) (s : S) (key : Text)
      → Holds held s
      → api.has_entry key s ≡ is_some (held key)
  Holds-has_entry held s key h =
      laws.has_entry-get key s ∙ ap is_ok (h.1 key) ∙ is_ok-reply key (held key)

  call-Holds :
      (c : Call V I C) (held : Text → Option V) (s : S)
      → Holds held s
      → Holds (after_call c held) (call api c s)
  call-Holds (puts k v state) held s h = (
    laws.put-IsValid k v state s h.0,
    λ key. ground (arith, laws.get-put k key v state s, h.1 key),
  )
  call-Holds (deletes k) held s h =
      (laws.delete-IsValid k s h.0, λ key. ground (arith, laws.get-delete k key s, h.1 key))
  call-Holds (watches id ch) held s h =
      (laws.watch-IsValid id ch s h.0, λ key. laws.get-watch key id ch s ∙ h.1 key)

  sent-call :
      (c : Call V I C) (held : Text → Option V) (s : S)
      → Holds held s
      → laws.sent (call api c s) ≡ laws.sent s ++ events_of_call c held
  sent-call (puts k v state) held s h =
      laws.sent-put k v state s ∙ (rw (Holds-has_entry held s k h))
  sent-call (deletes k) held s h = laws.sent-delete k s ∙ sym (append-nil (laws.sent s))
  sent-call (watches id ch) held s h = laws.sent-watch id ch s ∙ sym (append-nil (laws.sent s))

  pub call_all-Holds :
      (calls : List (Call V I C)) (held : Text → Option V) (s : S)
      → Holds held s
      → Holds (after calls held) (call_all api calls s)
        × (laws.sent (call_all api calls s) ≡ laws.sent s ++ events_of calls held)
  call_all-Holds [] held s h = (h, sym (append-nil (laws.sent s)))
  call_all-Holds (c ∷ calls) held s h =
      let (later, sent) =
        call_all-Holds calls (after_call c held) (call api c s) (call-Holds c held s h) in
      (later, sent ∙ (rw (sent-call c held s h) (append_assoc (laws.sent s) _ _)))
