-- ===== src/Broker/Registry/Reach/Numbered.antt =====
-- pkg/broker/broker.go: the ids of the streams, and what the loop of `Close` leaves as it is.
use mathlib.Core.Option.{some-injective}
use onos_mho.Base.{
  ℕ, zero, suc, ◌+◌, ◌≡◌, refl, sym, ap, ◌∙◌, subst, ℕ_discrete, length, length-set, get_elem?, set,
  get_elem?-set_ne, get_elem?-set_self, List, [], ◌∷◌, ◌++◌, some, arith, Option-cases, inl, inr,
}
use onos_mho.Broker.Stream.{Stream, close as close_writer}
use onos_mho.Broker.Registry.{close_object, close_all}

module _ {D N S : Type 0} where
  -- The streams have the ids that follow `k`, in order.
  abbrev pub Numbered : ℕ → List (Stream D N S) → Type 0
  Numbered k [] = Unit
  Numbered k (s ∷ ss) = (s.io.stream_id ≡ k + 1) × Numbered (k + 1) ss

  pub Numbered-append :
      (k : ℕ) (ss : List (Stream D N S)) (s : Stream D N S)
      → Numbered k ss
      → s.io.stream_id ≡ k + length ss + 1
      → Numbered k (ss ++ s ∷ [])
  Numbered-append k [] s h e = (omega (arith, e), tt)
  Numbered-append k (t ∷ ss) s h e = (h.0, Numbered-append (k + 1) ss s h.1 (omega (arith, e)))

  pub Numbered-set :
      (k : ℕ) (ss : List (Stream D N S)) (p : ℕ) (s t : Stream D N S)
      → Numbered k ss
      → get_elem? ss p ≡ some s
      → t.io.stream_id ≡ s.io.stream_id
      → Numbered k (set ss p t)
  Numbered-set k [] p s t h at e = h
  Numbered-set k (x ∷ ss) zero s t h at e =
      (e ∙ ap (λ y. y.io.stream_id) (sym (some-injective _ _ at)) ∙ h.0, h.1)
  Numbered-set k (x ∷ ss) (suc p) s t h at e = (h.0, Numbered-set (k + 1) ss p s t h.1 at e)

  pub Numbered-get_elem? :
      (k : ℕ) (ss : List (Stream D N S)) (p : ℕ) (s : Stream D N S)
      → Numbered k ss
      → get_elem? ss p ≡ some s
      → s.io.stream_id ≡ k + p + 1
  Numbered-get_elem? k [] p s h at = absurd (cc)
  Numbered-get_elem? k (x ∷ ss) zero s h at =
      let same : x.io.stream_id ≡ s.io.stream_id =
        ap (λ y. y.io.stream_id) (some-injective _ _ at) in
      omega (arith, same, h.0)
  Numbered-get_elem? k (x ∷ ss) (suc p) s h at =
      omega (arith, Numbered-get_elem? (k + 1) ss p s h.1 at)

  -- What `Close` does to the objects: their fields but the writer stay.
  close_object-get_elem? :
      (objects : List (Stream D N S)) (p q : ℕ) (s t : Stream D N S)
      → get_elem? objects q ≡ some t
      → get_elem? objects p ≡ some s
      → (s' : Stream D N S) × (get_elem? (close_object q t objects) p ≡ some s') × (s'.io ≡ s.io)
  unfolding close_object
  close_object-get_elem? objects p q s t at_q at_p =
      let t' : Stream D N S = record t { writer = (close_writer t.writer).0 } in
      elim (ℕ_discrete q p) [
        | yes same ↦ (
          t',
          subst (λ i. get_elem? (close_object q t objects) i ≡ some t') same
              (get_elem?-set_self objects q t' at_q),
          ap (λ y. y.io) (some-injective _ _ (sym at_q ∙ ap (get_elem? objects) same ∙ at_p)),
        )
        | no differs ↦ (s, get_elem?-set_ne objects q p _ differs ∙ at_p, refl)
      ]

  pub close_all-get_elem? :
      (streams : List ℕ) (objects : List (Stream D N S)) (p : ℕ) (s : Stream D N S)
      → get_elem? objects p ≡ some s
      → (s' : Stream D N S) × (get_elem? (close_all streams objects) p ≡ some s') × (s'.io ≡ s.io)
  unfolding close_all
  close_all-get_elem? [] objects p s at = (s, at, refl)
  close_all-get_elem? (q ∷ rest) objects p s at = elim (Option-cases (get_elem? objects q)) [
    | inl e ↦ rw (e, close_all) (close_all-get_elem? rest objects p s at)
    | inr (t, e) ↦
        let (s1, at1, same1) = close_object-get_elem? objects p q s t e at in
        let (s2, at2, same2) = close_all-get_elem? rest (close_object q t objects) p s1 at1 in
        rw (e, close_all) (s2, at2, same2 ∙ same1)
  ]

  pub close_all-Numbered :
      (streams : List ℕ) (objects : List (Stream D N S))
      → Numbered 0 objects
      → Numbered 0 (close_all streams objects)
        × (length (close_all streams objects) ≡ length objects)
  unfolding close_all close_object
  close_all-Numbered [] objects h = (h, refl)
  close_all-Numbered (q ∷ rest) objects h = elim (Option-cases (get_elem? objects q)) [
    | inl e ↦ rw (e, close_all) (close_all-Numbered rest objects h)
    | inr (t, e) ↦
        let (n, l) =
          close_all-Numbered rest (close_object q t objects)
            (Numbered-set 0 objects q t _ h e refl) in
        rw (e, close_all) (n, l ∙ length-set objects q _)
  ]
