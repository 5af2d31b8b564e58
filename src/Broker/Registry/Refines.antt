-- ===== src/Broker/Registry/Refines.antt =====
-- pkg/broker/broker.go: each call, and any history of calls, does what is said of it.
use onos_mho.Base.{
  ℕ, ◌+◌, ◌≡◌, refl, ap, ◌∙◌, subst, Text, get_elem?, List, [], ◌∷◌, Option, none, some, inl, inr,
}
use onos_mho.Base.Dict.{lookup, values}
use onos_mho.Base.Result.{Result, ok, Result-cases}
use onos_mho.Broker.Stream.{Stream}
use onos_mho.Broker.Registry.{
  StreamBroker, new_broker, find_sub, open_stream, open_reader, get_writer, drop_stream,
  close_stream, close,
}
use onos_mho.Broker.Registry.Laws.{get_writer_of_lookup}
use onos_mho.Broker.Registry.Closing.{
  close_stream_ok, close_stream_err, close_stream_panic, close_stream_missing,
}
use onos_mho.Broker.Registry.Reach.{Call, opens, registers, closes_stream, closes, step, run}
use onos_mho.Broker.Registry.Reach.Numbered.{close_all-get_elem?}
use onos_mho.Broker.Registry.Reach.Laws.{IsSound, new-IsSound, step-IsSound}
use onos_mho.Broker.Registry.Trace.{
  no_streams, Opened, Spec, spec_open, spec_close, spec_reopen, spec_step, spec_run, Shows,
  Shows-frame, open_stream-Shows, drop_stream-Shows,
}

module _ {D N S : Type 0} where
  record Models (spec : Spec N) (b : StreamBroker D N S) : Type 0 where
    sound : IsSound b
    shown : (c : Text) → Shows b c (spec.held c)
    counted : b.stream_id ≡ spec.count

  open_stream-Models :
      (node : N) (sub_name c : Text) (sub_spec : S) (spec : Spec N) (b : StreamBroker D N S)
      → Models spec b
      → Models (spec_open node sub_name c spec) (open_stream node sub_name c sub_spec b).0
  unfolding open_stream step
  open_stream-Models node sub_name c sub_spec spec b h = record {
    sound = step-IsSound (registers node sub_name c sub_spec) b h.sound;
    shown = open_stream-Shows node sub_name c sub_spec spec b h.shown h.counted;
    counted = ap (λ k. k + 1) h.counted;
  }

  open_reader-Models :
      (node : N) (sub_name c : Text) (sub_spec : S) (spec : Spec N) (b : StreamBroker D N S)
      → (o : Option (Opened N)) → Shows b c o
      → Models spec b
      → Models (spec_reopen node sub_name c o spec) (open_reader node sub_name c sub_spec b).0
  unfolding open_reader find_sub
  open_reader-Models node sub_name c sub_spec spec b none e h =
      rw (e, open_reader) (open_stream-Models node sub_name c sub_spec spec b h)
  open_reader-Models node sub_name c sub_spec spec b (some o) (p, s, found, at, i, n, l) h =
      rw (found, open_reader) h

  close_stream-Models :
      (unsubscribe : N → Text → Result (Unit {0})) (c : Text) (spec : Spec N)
      (b : StreamBroker D N S)
      → (o : Option (Opened N)) → Shows b c o
      → Models spec b
      → Models (spec_close unsubscribe c o spec) (close_stream unsubscribe c b).0
  unfolding step drop_stream
  close_stream-Models unsubscribe c spec b none e h = rw (close_stream_missing unsubscribe c b e) h
  close_stream-Models unsubscribe c spec b (some o) (p, s, found, at, i, n, l) h =
      let same : unsubscribe s.io.node s.io.sub_name ≡ unsubscribe o.node o.sub_name =
        rw (n, l) refl in
      let sound = step-IsSound (closes_stream unsubscribe c) b h.sound in
      elim (Result-cases (unsubscribe o.node o.sub_name)) [
        | inl (_, done) ↦
            let (t, at', own', _) = h.sound.valid.subs_streams c p found in
            let own : s.io.channel_id ≡ c = cc in
            let closed = close_stream_ok unsubscribe c b p s found at (same ∙ done) in
            rw (closed, done)
              (record {
                sound = subst (λ x. IsSound x.0) closed sound;
                shown = drop_stream-Shows c spec b p s h.sound.valid h.shown own at;
                counted = h.counted;
              })
        | inr (inl (x, failed)) ↦
            rw (close_stream_err unsubscribe c b p s found at x (same ∙ failed), failed) h
        | inr (inr failed) ↦
            rw (close_stream_panic unsubscribe c b p s found at (same ∙ failed), failed) h
      ]

  close-Models : (spec : Spec N) (b : StreamBroker D N S) → Models spec b → Models spec (close b).0
  unfolding step close
  close-Models spec b h = record {
    sound = step-IsSound closes b h.sound;
    shown = λ c.
        Shows-frame b (close b).0 c refl
          (λ p s found at. close_all-get_elem? (values b.streams) b.objects p s at) (spec.held c)
          (h.shown c);
    counted = h.counted;
  }

  step-Models :
      (c : Call N S) (spec : Spec N) (b : StreamBroker D N S)
      → Models spec b
      → Models (spec_step c spec) (step c b)
  unfolding step
  step-Models (opens node sub_name c sub_spec) spec b h =
      open_reader-Models node sub_name c sub_spec spec b (spec.held c) (h.shown c) h
  step-Models (registers node sub_name c sub_spec) spec b h =
      open_stream-Models node sub_name c sub_spec spec b h
  step-Models (closes_stream unsubscribe c) spec b h =
      close_stream-Models unsubscribe c spec b (spec.held c) (h.shown c) h
  step-Models closes spec b h = close-Models spec b h

  run-Models :
      (cs : List (Call N S)) (spec : Spec N) (b : StreamBroker D N S)
      → Models spec b
      → Models (spec_run cs spec) (run cs b)
  unfolding run
  run-Models [] spec b h = h
  run-Models (c ∷ cs) spec b h =
      run-Models cs (spec_step c spec) (step c b) (step-Models c spec b h)

  -- What a caller sees of a channel: nothing, or its stream, which `GetWriter` finds under its id.
  abbrev pub Serves : StreamBroker D N S → Text → Option (Opened N) → Type 0
  Serves b c none = find_sub c b ≡ none
  Serves b c (some o) =
      (p : ℕ) × (s : Stream D N S) × (find_sub c b ≡ some p)
      × (get_writer o.stream_id b ≡ ok p)
      × (get_elem? b.objects p ≡ some s)
      × (s.io.channel_id ≡ c)
      × (s.io.stream_id ≡ o.stream_id)
      × (s.io.node ≡ o.node)
      × (s.io.sub_name ≡ o.sub_name)

  Serves-of :
      (b : StreamBroker D N S) (c : Text)
      → IsSound b
      → (o : Option (Opened N)) → Shows b c o
      → Serves b c o
  unfolding find_sub
  Serves-of b c sound none e = e
  Serves-of b c sound (some o) (p, s, found, at, i, n, l) =
      let (t, at', own, listed) = sound.valid.subs_streams c p found in
      let same : t ≡ s = cc in
      let written : get_writer t.io.stream_id b ≡ ok p =
        get_writer_of_lookup t.io.stream_id b listed in
      (p, s, found, rw (← i) (rw (← same) written), at, rw (← same) own, i, n, l)

-- From a new broker, whatever calls come and in whichever order, also where two `OpenReader`s of a
-- channel come between each other's parts, and whatever `Unsubscribe` answers: a channel has a stream
-- just if one was opened for it and not closed with success since; and this is the last one opened, with
-- the id, the node and the subscription that it was opened with, which `GetWriter` finds under that id.
pub run_refines :
    (D N S : Type 0) (cs : List (Call N S)) (c : Text)
    → Serves (run cs (new_broker {D = D})) c ((spec_run cs no_streams).held c)
unfolding new_broker lookup
run_refines D N S cs c =
    let start : Models (no_streams {N = N}) (new_broker {D = D} {S = S}) = record {
      sound = new-IsSound;
      shown = λ j. refl;
      counted = refl;
    } in
    let h = run-Models cs no_streams new_broker start in
    Serves-of (run cs new_broker) c h.sound ((spec_run cs no_streams).held c) (h.shown c)
