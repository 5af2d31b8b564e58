-- ===== src/Broker/Registry/Shutdown.antt =====
-- pkg/broker/broker.go: `Close` and the registered streams.
use mathlib.Core.List.{Memᴰ}
use onos_mho.Base.{
  ℕ, ◌≡◌, refl, sym, ◌∙◌, subst, ℕ_discrete, get_elem?, get_elem?-set_ne, get_elem?-set_self, true,
  List, [], ◌∷◌, some, Option-cases, inl, inr, arith,
}
use onos_mho.Base.Dict.{Dict, lookup, values}
use onos_mho.Base.Result.{ok}
use onos_mho.Broker.Stream.{Stream, close as close_writer}
use onos_mho.Broker.Registry.{StreamBroker, get_writer, close_object, close_all, close}
use onos_mho.Broker.Registry.Laws.{IsValid, get_writer_of_lookup}

module _ {D N S : Type 0} where
  -- The pointer leads to a stream whose writer is closed.
  abbrev pub Closed : List (Stream D N S) → ℕ → Type 0
  Closed objects p = (s : Stream D N S) × (get_elem? objects p ≡ some s) × (s.writer.closed ≡ true)

  close_object_self :
      (objects : List (Stream D N S)) (p : ℕ) (s : Stream D N S)
      → get_elem? objects p ≡ some s
      → Closed (close_object p s objects) p
  unfolding close_object close_writer
  close_object_self objects p s at = (_, get_elem?-set_self objects p _ at, refl)

  close_object_other :
      (objects : List (Stream D N S)) (p q : ℕ) (t s : Stream D N S)
      → get_elem? objects q ≡ some t
      → get_elem? objects p ≡ some s
      → (s' : Stream D N S) × (get_elem? (close_object q t objects) p ≡ some s')
        × (s.writer.closed ≡ true → s'.writer.closed ≡ true)
  unfolding close_object close_writer
  close_object_other objects p q t s at_q at_p = elim (ℕ_discrete q p) [
    | yes same ↦
        let (s', at, closed) = close_object_self objects q t at_q in
        (s', subst (λ i. get_elem? (close_object q t objects) i ≡ some s') same at, λ _. closed)
    | no differs ↦ (s, get_elem?-set_ne objects q p _ differs ∙ at_p, λ closed. closed)
  ]

  close_all-Closed :
      (streams : List ℕ) (objects : List (Stream D N S)) (p : ℕ)
      → Closed objects p
      → Closed (close_all streams objects) p
  unfolding close_all
  close_all-Closed [] objects p h = h
  close_all-Closed (q ∷ rest) objects p (s, at, closed) =
      elim (Option-cases (get_elem? objects q)) [
        | inl e ↦ rw (e, close_all) (close_all-Closed rest objects p (s, at, closed))
        | inr (t, e) ↦
            let (s', at', keeps) = close_object_other objects p q t s e at in
            rw (e, close_all)
              (close_all-Closed rest (close_object q t objects) p (s', at', keeps closed))
      ]

  close_all_each :
      (streams : List ℕ) (objects : List (Stream D N S)) (p : ℕ) (s : Stream D N S)
      → Memᴰ p streams
      → get_elem? objects p ≡ some s
      → Closed (close_all streams objects) p
  unfolding close_all
  close_all_each [] objects p s m at = elim m [ ]
  close_all_each (q ∷ rest) objects p s (Memᴰ.head same) at =
      let at_q : get_elem? objects q ≡ some s = subst (λ i. get_elem? objects i ≡ some s) same at in
      rw (at_q, close_all)
        (close_all-Closed rest (close_object q s objects) p (
          subst (Closed (close_object q s objects)) (sym same)
            (close_object_self objects q s at_q)))
  close_all_each (q ∷ rest) objects p s (Memᴰ.tail m) at =
      elim (Option-cases (get_elem? objects q)) [
        | inl e ↦ rw (e, close_all) (close_all_each rest objects p s m at)
        | inr (t, e) ↦
            let (s', at', _) = close_object_other objects p q t s e at in
            rw (e, close_all) (close_all_each rest (close_object q t objects) p s' m at')
      ]

lookup_values : (i : ℕ) (d : Dict ℕ ℕ) {p : ℕ} → lookup ℕ_discrete i d ≡ some p → Memᴰ p (values d)
unfolding lookup
lookup_values i [] e = absurd (cc)
lookup_values i ((j, q) ∷ d) e = elim (ℕ_discrete j i) [
  | yes same ↦ Memᴰ.head (ground arith)
  | no differs ↦ Memᴰ.tail (lookup_values i d (ground arith))
]

-- In a valid broker `Close` succeeds and closes the writer of every stream that is registered under an
-- id. It forgets none of them: `GetWriter` still finds the stream under the id, now closed.
close-Closed :
    {D N S : Type 0} (b : StreamBroker D N S) (i p : ℕ)
    → IsValid b
    → lookup ℕ_discrete i b.streams ≡ some p
    → let (b', r) = close b in (r ≡ ok tt) × (get_writer i b' ≡ ok p) × Closed b'.objects p
unfolding close
close-Closed b i p v e =
    let (s, at, own) = v.streams_own i p e in
    (
      refl,
      get_writer_of_lookup i (record b { objects = close_all (values b.streams) b.objects }) e,
      close_all_each (values b.streams) b.objects p s (lookup_values i b.streams e) at,
    )
