-- ===== src/Broker/Registry/Trace.antt =====
-- pkg/broker/broker.go: any history of calls, against what each channel has open.
use onos_mho.Base.{
  ℕ, ◌+◌, ◌≡◌, refl, sym, ap, ◌∙◌, subst, ◌≢◌, Text, Text-discrete, ite, if_pos, if_neg, length,
  get_elem?, List, [], ◌∷◌, Option, none, some, get_elem?-append_some, get_elem?-append_length,
  get_elem?-set_ne,
}
use onos_mho.Base.Dict.{
  delete, lookup, lookup-insert_self, lookup-insert_ne, lookup-delete_self, lookup-delete_ne,
}
use onos_mho.Base.Result.{Result, ok, err, panic}
use onos_mho.Broker.Stream.{Stream, new_buffered_stream}
use onos_mho.Broker.Registry.{StreamBroker, open_stream, drop_stream, close_object}
use onos_mho.Broker.Registry.Laws.{IsValid}
use onos_mho.Broker.Registry.Reach.{Call, opens, registers, closes_stream, closes}

-- The specification: what was opened for a channel and is not closed, and how many streams there were.
pub record Opened (N : Type 0) : Type 0 where
  pub stream_id : ℕ
  pub node : N
  pub sub_name : Text

pub record Spec (N : Type 0) : Type 0 where
  pub held : Text → Option (Opened N)
  pub count : ℕ

module _ {N : Type 0} where
  abbrev pub no_streams : Spec N
  no_streams = record { held = λ c. none; count = 0 }

  abbrev pub set_held :
      Text → Option (Opened N) → (Text → Option (Opened N)) → Text → Option (Opened N)
  set_held c o held j = ite (Text-discrete c j) o (held j)

  abbrev pub spec_open : N → Text → Text → Spec N → Spec N
  spec_open node sub_name c s = record {
    held =
        set_held c (some (record { stream_id = s.count + 1; node = node; sub_name = sub_name }))
          s.held;
    count = s.count + 1;
  }

  abbrev pub closed_if : Result (Unit {0}) → Text → Spec N → Spec N
  closed_if (ok _) c s = record s { held = set_held c none s.held }
  closed_if (err _) c s = s
  closed_if panic c s = s

  abbrev pub spec_close :
      (N → Text → Result (Unit {0})) → Text → Option (Opened N) → Spec N → Spec N
  spec_close unsubscribe c none s = s
  spec_close unsubscribe c (some o) s = closed_if (unsubscribe o.node o.sub_name) c s

  abbrev pub spec_reopen : N → Text → Text → Option (Opened N) → Spec N → Spec N
  spec_reopen node sub_name c none s = spec_open node sub_name c s
  spec_reopen node sub_name c (some o) s = s

  abbrev pub spec_step : {S : Type 0} → Call N S → Spec N → Spec N
  spec_step (opens node sub_name c sub_spec) s = spec_reopen node sub_name c (s.held c) s
  spec_step (registers node sub_name c sub_spec) s = spec_open node sub_name c s
  spec_step (closes_stream unsubscribe c) s = spec_close unsubscribe c (s.held c) s
  spec_step closes s = s

  abbrev pub spec_run : {S : Type 0} → List (Call N S) → Spec N → Spec N
  spec_run [] s = s
  spec_run (c ∷ cs) s = spec_run cs (spec_step c s)

module _ {D N S : Type 0} where
  -- What the broker has for a channel.
  abbrev pub Shows : StreamBroker D N S → Text → Option (Opened N) → Type 0
  Shows b c none = lookup Text-discrete c b.subs ≡ none
  Shows b c (some o) =
      (p : ℕ) × (s : Stream D N S) × (lookup Text-discrete c b.subs ≡ some p)
      × (get_elem? b.objects p ≡ some s)
      × (s.io.stream_id ≡ o.stream_id)
      × (s.io.node ≡ o.node)
      × (s.io.sub_name ≡ o.sub_name)

  -- A channel whose pointer stays, and leads to a stream with the same fixed part.
  pub Shows-frame :
      (b b' : StreamBroker D N S) (c : Text)
      → lookup Text-discrete c b'.subs ≡ lookup Text-discrete c b.subs
      → ((p : ℕ) (s : Stream D N S)
          → lookup Text-discrete c b.subs ≡ some p
          → get_elem? b.objects p ≡ some s
          → (s' : Stream D N S) × (get_elem? b'.objects p ≡ some s') × (s'.io ≡ s.io))
      → (o : Option (Opened N)) → Shows b c o
      → Shows b' c o
  Shows-frame b b' c same keeps none h = same ∙ h
  Shows-frame b b' c same keeps (some o) (p, s, found, at, i, n, l) =
      let (s', at', io) = keeps p s found at in
      (
        p,
        s',
        same ∙ found,
        at',
        ap (λ x. x.stream_id) io ∙ i,
        ap (λ x. x.node) io ∙ n,
        ap (λ x. x.sub_name) io ∙ l,
      )

  pub open_stream-Shows :
      (node : N) (sub_name c : Text) (sub_spec : S) (spec : Spec N) (b : StreamBroker D N S)
      → ((j : Text) → Shows b j (spec.held j))
      → b.stream_id ≡ spec.count
      → (j : Text)
      → Shows (open_stream node sub_name c sub_spec b).0 j ((spec_open node sub_name c spec).held j)
  unfolding open_stream new_buffered_stream
  open_stream-Shows node sub_name c sub_spec spec b h counted j =
      let b' = (open_stream node sub_name c sub_spec b).0 in
      elim (Text-discrete c j) [
        | yes same ↦ rw (if_pos _ same) (
            subst
              (λ k.
                Shows b' k
                  (some (record { stream_id = spec.count + 1; node = node; sub_name = sub_name })))
              same
              (
                length b.objects,
                new_buffered_stream node sub_name (b.stream_id + 1) c sub_spec,
                lookup-insert_self Text-discrete c (length b.objects) b.subs,
                get_elem?-append_length b.objects _ [],
                ap (λ k. k + 1) counted,
                refl,
                refl,
              ))
        | no n ↦ rw (if_neg _ n) (
            Shows-frame b b' j (lookup-insert_ne Text-discrete c j (length b.objects) b.subs n)
              (λ p s found at. (s, get_elem?-append_some b.objects _ p at, refl)) (spec.held j)
              (h j))
      ]

  pub drop_stream-Shows :
      (c : Text) (spec : Spec N) (b : StreamBroker D N S) (p : ℕ) (s : Stream D N S)
      → IsValid b
      → ((j : Text) → Shows b j (spec.held j))
      → s.io.channel_id ≡ c
      → get_elem? b.objects p ≡ some s
      → (j : Text) → Shows (drop_stream p s b) j (set_held c none spec.held j)
  unfolding drop_stream close_object
  drop_stream-Shows c spec b p s v h own at j = elim (Text-discrete c j) [
    | yes same ↦ rw (if_pos _ same) (
        subst (λ k. lookup Text-discrete j (delete Text-discrete k b.subs) ≡ none)
          (sym (own ∙ same)) (lookup-delete_self Text-discrete j b.subs))
    | no n ↦ rw (if_neg _ n) (
        Shows-frame b (drop_stream p s b) j
          (lookup-delete_ne Text-discrete s.io.channel_id j b.subs (λ e. n (sym own ∙ e)))
          (λ q t found at'.
            let (t', at'', own', _) = v.subs_streams j q found in
            let apart : p ≢ q = λ e. n (cc) in
            (t, get_elem?-set_ne b.objects p q _ apart ∙ at', refl))
          (spec.held j) (h j))
  ]
