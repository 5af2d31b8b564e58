-- ===== src/Base/Dict.antt =====
-- Go's `map[K]V` as an association list. Reads, writes and `delete` go by key; what the order of a
-- `range` over a map may change is stated where it matters.
use mathlib.Core.Path.{◌≡◌, refl, sym, ◌∙◌, subst}
use mathlib.Core.Logic.{◌≢◌, ◌⊎◌, inl, inr, ite, if_pos, if_neg}
use mathlib.Core.List.{Memᴰ, List, [], ◌∷◌, map}
use mathlib.Core.Option.{Option, none, some}
use native.Mathlib.Omega.{arith}
use onos_mho.Base.Lists.{All, All-map}

abbrev pub Dict {ℓ} : Type ℓ → Type ℓ → Type ℓ
Dict K V = List (K × V)

module _ {ℓ} {K V : Type ℓ} where
  abbrev pub values : Dict K V → List V
  values = map (λ p. p.1)

  abbrev pub keys : Dict K V → List K
  keys = map (λ p. p.0)

module _ {ℓ} {K V : Type ℓ} (eq : Discrete K) where
  -- `v, ok := m[k]`
  unfoldable pub lookup : K → Dict K V → Option V
  lookup key [] = none
  lookup key (entry ∷ others) = ite (eq entry.0 key) (some entry.1) (lookup key others)

  -- `m[k] = v`
  unfoldable pub insert : K → V → Dict K V → Dict K V
  insert key value [] = (key, value) ∷ []
  insert key value (entry ∷ others) =
      ite (eq entry.0 key) ((entry.0, value) ∷ others) (entry ∷ insert key value others)

  -- `delete(m, k)`
  unfoldable pub delete : K → Dict K V → Dict K V
  delete key [] = []
  delete key (entry ∷ others) =
      let kept = delete key others in ite (eq entry.0 key) kept (entry ∷ kept)

  -- A read after a write, and after a deletion, of the same key or of another.
  pub lookup-insert :
      (written read : K) (value : V) (entries : Dict K V)
      → lookup read (insert written value entries)
        ≡ ite (eq written read) (some value) (lookup read entries)
  unfolding lookup insert
  lookup-insert written read value [] = refl
  lookup-insert written read value (entry ∷ others) =
      ground (arith, lookup-insert written read value others)

  pub lookup-delete :
      (gone read : K) (entries : Dict K V)
      → lookup read (delete gone entries) ≡ ite (eq gone read) none (lookup read entries)
  unfolding lookup delete
  lookup-delete gone read [] = ground arith
  lookup-delete gone read (entry ∷ others) = ground (arith, lookup-delete gone read others)

  pub lookup-insert_self : (k : K) (v : V) (m : Dict K V) → lookup k (insert k v m) ≡ some v
  lookup-insert_self k v m = ground (arith, lookup-insert k k v m)

  pub lookup-insert_ne :
      (k j : K) (v : V) (m : Dict K V) → k ≢ j → lookup j (insert k v m) ≡ lookup j m
  lookup-insert_ne k j v m n = ground (arith, lookup-insert k j v m)

  pub lookup-delete_ne : (k j : K) (m : Dict K V) → k ≢ j → lookup j (delete k m) ≡ lookup j m
  lookup-delete_ne k j m n = ground (arith, lookup-delete k j m)

  pub lookup-delete_self : (k : K) (m : Dict K V) → lookup k (delete k m) ≡ none
  lookup-delete_self k m = ground (arith, lookup-delete k k m)

  -- What a successful read says of the map before a write or a deletion.
  pub lookup-insert-some :
      (k j : K) (v : V) (m : Dict K V) {w : V}
      → lookup j (insert k v m) ≡ some w
      → ((k ≡ j) × (v ≡ w)) ⊎ ((k ≢ j) × (lookup j m ≡ some w))
  lookup-insert-some k j v m e = elim (eq k j) [
    | yes same ↦ inl (same, ground (arith, lookup-insert k j v m))
    | no differs ↦ inr (differs, ground (arith, lookup-insert k j v m))
  ]

  pub lookup-delete-some :
      (k j : K) (m : Dict K V) {w : V}
      → lookup j (delete k m) ≡ some w
      → (k ≢ j) × (lookup j m ≡ some w)
  lookup-delete-some k j m e = elim (eq k j) [
    | yes same ↦ absurd (ground (arith, lookup-delete k j m))
    | no differs ↦ (differs, ground (arith, lookup-delete k j m))
  ]

  pub All-insert {μ} :
      (P : K × V → Type μ) (k : K) (v : V) (m : Dict K V)
      → P (k, v)
      → All P m
      → All P (insert k v m)
  unfolding insert
  All-insert P k v [] new h = (new, h)
  All-insert P k v ((j, w) ∷ m) new h = elim (eq j k) [
    | yes e ↦ rw (if_pos _ e) (subst (λ i. P (i, v)) (sym e) new, h.1)
    | no n ↦ rw (if_neg _ n) (h.0, All-insert P k v m new h.1)
  ]

  pub All-lookup {μ} :
      (P : K × V → Type μ) (k : K) {v : V} (m : Dict K V) → All P m → lookup k m ≡ some v → P (k, v)
  unfolding lookup
  All-lookup P k [] h e = cc
  All-lookup P k ((j, w) ∷ m) h e = elim (eq j k) [
    | yes j_is_k ↦ subst P (ground arith) h.0
    | no n ↦ All-lookup P k m h.1 (ground arith)
  ]

  none≢some : {v : V} → none ≢ some v
  none≢some e = cc

  -- No key stands twice.
  abbrev pub IsUnique : Dict K V → Type ℓ
  IsUnique [] = Unit
  IsUnique ((k, v) ∷ m) = (lookup k m ≡ none) × IsUnique m

  pub insert-IsUnique : (k : K) (v : V) (m : Dict K V) → IsUnique m → IsUnique (insert k v m)
  unfolding insert lookup
  insert-IsUnique k v [] u = (refl, tt)
  insert-IsUnique k v ((j, w) ∷ m) u = elim (eq j k) [
    | yes same ↦ rw (if_pos _ same) u
    | no differs ↦
        rw (if_neg _ differs)
          (lookup-insert_ne k j v m (λ e. differs (sym e)) ∙ u.0, insert-IsUnique k v m u.1)
  ]

  -- Each entry of such a map is the one that its key finds.
  pub All-lookup_self : (m : Dict K V) → IsUnique m → All (λ p. lookup p.0 m ≡ some p.1) m
  unfolding lookup
  All-lookup_self [] u = tt
  All-lookup_self ((k, v) ∷ m) u = (
    if_pos (eq k k) refl (some v) (lookup k m),
    All-map _ _ m
        (λ p found.
          if_neg (eq k p.0)
            (λ e. absurd (none≢some (sym (subst (λ j. lookup j m ≡ none) e u.0) ∙ found))) (some v)
            (lookup p.0 m)
          ∙ found)
        (All-lookup_self m u.1),
  )

  pub delete-IsUnique : (k : K) (m : Dict K V) → IsUnique m → IsUnique (delete k m)
  unfolding delete
  delete-IsUnique k [] u = tt
  delete-IsUnique k ((j, w) ∷ m) u = elim (eq j k) [
    | yes same ↦ rw (if_pos _ same) (delete-IsUnique k m u.1)
    | no differs ↦
        rw (if_neg _ differs)
          (lookup-delete_ne k j m (λ e. differs (sym e)) ∙ u.0, delete-IsUnique k m u.1)
  ]

  pub All-delete {μ} : (P : K × V → Type μ) (k : K) (m : Dict K V) → All P m → All P (delete k m)
  unfolding delete
  All-delete P k [] h = tt
  All-delete P k ((j, w) ∷ m) h = elim (eq j k) [
    | yes same ↦ rw (if_pos _ same) (All-delete P k m h.1)
    | no differs ↦ rw (if_neg _ differs) (h.0, All-delete P k m h.1)
  ]

  pub lookup-Mem : (k : K) (m : Dict K V) {v : V} → lookup k m ≡ some v → Memᴰ v (values m)
  unfolding lookup
  lookup-Mem k [] e = absurd (cc)
  lookup-Mem k ((j, w) ∷ m) e = elim (eq j k) [
    | yes same ↦ Memᴰ.head (ground arith)
    | no differs ↦ Memᴰ.tail (lookup-Mem k m (ground arith))
  ]

  -- What is listed is found, where each value names its key.
  pub Mem-lookup :
      (key_of : V → K) (m others : Dict K V) {v : V}
      → All (λ p. lookup p.0 others ≡ some p.1) m
      → All (λ p. key_of p.1 ≡ p.0) m
      → Memᴰ v (values m)
      → lookup (key_of v) others ≡ some v
  Mem-lookup key_of [] others found keyed h = elim h [ ]
  Mem-lookup key_of ((j, w) ∷ m) others found keyed (Memᴰ.head e) = rw e (rw (keyed.0) found.0)
  Mem-lookup key_of ((j, w) ∷ m) others found keyed (Memᴰ.tail h) =
      Mem-lookup key_of m others found.1 keyed.1 h
