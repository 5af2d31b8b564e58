-- ===== src/Broker/Registry/Closing.antt =====
-- pkg/broker/broker.go: `CloseStream`, on each answer of `Unsubscribe`.
use onos_mho.Base.{
  ℕ, ◌≡◌, refl, sym, ap, ◌∙◌, subst, Text, Text-discrete, ℕ_discrete, get_elem?, none, some,
  Option-cases, inl, inr, get_elem?-set_ne, get_elem?-set_self,
}
use onos_mho.Base.Dict.{lookup, delete, lookup-delete-some, lookup-delete_ne, lookup-delete_self}
use onos_mho.Base.Result.{Result, ok, err, panic, Error, not_found, Result-cases}
use onos_mho.Broker.Stream.{Stream, close as close_writer}
use onos_mho.Broker.Registry.{
  StreamBroker, get_writer, close_object, drop_stream, close_found, close_stream,
}
use onos_mho.Broker.Registry.Laws.{IsValid, get_writer_missing}

module _ {D N S : Type 0} where
  -- What `CloseStream` leaves once `Unsubscribe` has succeeded on the stream of a channel.
  drop_stream-IsValid :
      (b : StreamBroker D N S) (p : ℕ) (s : Stream D N S)
      → IsValid b
      → get_elem? b.objects p ≡ some s
      → lookup ℕ_discrete s.io.stream_id b.streams ≡ some p
      → IsValid (drop_stream p s b)
  unfolding drop_stream close_object
  drop_stream-IsValid b p s v at id = record {
    subs_streams = λ c q e.
        let (kept_c, old) = lookup-delete-some Text-discrete _ c b.subs e in
        let (t, at', own, id') = v.subs_streams c q old in
        let apart = λ (same : s.io.stream_id ≡ t.io.stream_id). kept_c (cc) in
        (
          t,
          get_elem?-set_ne b.objects p q _ (λ (same : p ≡ q). kept_c (cc)) ∙ at',
          own,
          lookup-delete_ne ℕ_discrete _ _ b.streams apart ∙ id',
        );
    streams_fresh = λ i q e. v.streams_fresh i q (lookup-delete-some ℕ_discrete _ i b.streams e).1;
    streams_own = λ i q e.
        let (kept_i, old) = lookup-delete-some ℕ_discrete _ i b.streams e in
        let (t, at', own) = v.streams_own i q old in
        (t, get_elem?-set_ne b.objects p q _ (λ (same : p ≡ q). kept_i (cc)) ∙ at', own);
  }

module _ {D N S : Type 0} (unsubscribe : N → Text → Result (Unit {0})) (id : Text)
    (b : StreamBroker D N S) (p : ℕ) (s : Stream D N S)
    (found : lookup Text-discrete id b.subs ≡ some p) (at : get_elem? b.objects p ≡ some s) where
  pub close_stream_ok :
      unsubscribe s.io.node s.io.sub_name ≡ ok tt
      → close_stream unsubscribe id b ≡ (drop_stream p s b, ok p)
  unfolding close_stream close_found
  close_stream_ok done = rw (found, close_stream) (rw (at, close_found) (rw (done, close_found)))

  pub close_stream_err :
      (e : Error)
      → unsubscribe s.io.node s.io.sub_name ≡ err e
      → close_stream unsubscribe id b ≡ (b, err e)
  unfolding close_stream close_found
  close_stream_err e failed =
      rw (found, close_stream) (rw (at, close_found) (rw (failed, close_found)))

  pub close_stream_panic :
      unsubscribe s.io.node s.io.sub_name ≡ panic → close_stream unsubscribe id b ≡ (b, panic)
  unfolding close_stream close_found
  close_stream_panic failed =
      rw (found, close_stream) (rw (at, close_found) (rw (failed, close_found)))

module _ {D N S : Type 0} (unsubscribe : N → Text → Result (Unit {0})) where
  pub close_stream_missing :
      (id : Text) (b : StreamBroker D N S)
      → lookup Text-discrete id b.subs ≡ none
      → close_stream unsubscribe id b ≡ (b, err not_found)
  unfolding close_stream
  close_stream_missing id b e = rw (e, close_stream)

  -- From a valid broker, in which the two maps agree, `CloseStream` leaves a valid one, whatever
  -- `Unsubscribe` answers.
  pub close_stream-IsValid :
      (id : Text) (b : StreamBroker D N S) → IsValid b → IsValid (close_stream unsubscribe id b).0
  close_stream-IsValid id b v = elim (Option-cases (lookup Text-discrete id b.subs)) [
    | inl e ↦ rw (close_stream_missing id b e) v
    | inr (p, e) ↦
        let (s, at, own, i) = v.subs_streams id p e in
        elim (Result-cases (unsubscribe s.io.node s.io.sub_name)) [
          | inl (_, done) ↦
              rw (close_stream_ok unsubscribe id b p s e at done) (drop_stream-IsValid b p s v at i)
          | inr (inl (x, failed)) ↦ rw (close_stream_err unsubscribe id b p s e at x failed) v
          | inr (inr failed) ↦ rw (close_stream_panic unsubscribe id b p s e at failed) v
        ]
  ]

  -- In a valid broker, closing a channel that has a stream: when `Unsubscribe` fails, its error is
  -- returned and nothing changes; when it succeeds, the stream is returned, its writer is closed, and
  -- neither `GetWriter` by its id nor a second `CloseStream` of the channel finds it again.
  close_stream_found :
      (id : Text) (b : StreamBroker D N S) (p : ℕ)
      → IsValid b
      → lookup Text-discrete id b.subs ≡ some p
      → let (b', r) = close_stream unsubscribe id b in
        (s : Stream D N S) × (get_elem? b.objects p ≡ some s)
        × ((e : Error) → unsubscribe s.io.node s.io.sub_name ≡ err e → (r ≡ err e) × (b' ≡ b))
        × (unsubscribe s.io.node s.io.sub_name ≡ ok tt
            → (r ≡ ok p)
              × (get_elem? b'.objects p ≡ some (record s { writer = (close_writer s.writer).0 }))
              × (get_writer s.io.stream_id b' ≡ err not_found)
              × ((close_stream unsubscribe id b').1 ≡ err not_found))
  unfolding drop_stream close_object
  close_stream_found id b p v e =
      let (s, at, own, i) = v.subs_streams id p e in
      (
        s,
        at,
        λ x failed. rw (close_stream_err unsubscribe id b p s e at x failed) (refl, refl),
        λ done. rw (close_stream_ok unsubscribe id b p s e at done) (
          refl,
          get_elem?-set_self b.objects p _ at,
          get_writer_missing s.io.stream_id (drop_stream p s b)
              (lookup-delete_self ℕ_discrete _ b.streams),
          ap (λ r. r.1)
              (close_stream_missing id (drop_stream p s b) (
                subst (λ c. lookup Text-discrete id (delete Text-discrete c b.subs) ≡ none)
                  (sym own) (lookup-delete_self Text-discrete id b.subs))),
        ),
      )
