-- ===== src/Store/Watching/Laws.antt =====
-- pkg/store/watcher.go: what registration and removal do to the map of watchers.
use mathlib.Core.List.{Memᴰ}
use onos_mho.Base.{
  ◌≡◌, refl, sym, ap, ◌∙◌, ◌≢◌, ◌⊎◌, inl, inr, List, [], ◌∷◌, ite, if_pos, if_neg, some, none,
}
use onos_mho.Base.Dict.{Dict, lookup, insert, lookup-insert}
use onos_mho.Store.Watching.{Watcher, Watchers, add_watcher, keep_others, remove_watcher}

module _ {V I C : Type 0} (uuid_eq : Discrete I) where
  -- A registered watcher is found under its own id, and every other registration stays.
  pub lookup-add_watcher :
      (id j : I) (ch : C) (ws : Watchers V I C)
      → lookup uuid_eq j (add_watcher uuid_eq id ch ws).0.watchers
        ≡ ite (uuid_eq id j) (some (record { id = id; ch = ch })) (lookup uuid_eq j ws.watchers)
  unfolding add_watcher
  lookup-add_watcher id j ch ws = lookup-insert uuid_eq id j _ ws.watchers

module _ {I C : Type 0} (uuid_eq : Discrete I) where
  abbrev Stays : I → List (Watcher I C) → Dict I (Watcher I C) → Type 0
  Stays id order d = (w : Watcher I C) × Memᴰ w order × (w.id ≢ id) × (d ≡ (id, w) ∷ [])

  tail_Stays :
      (id : I) (w : Watcher I C) (order : List (Watcher I C)) (d : Dict I (Watcher I C))
      → Stays id order d
      → Stays id (w ∷ order) d
  tail_Stays id w order d (v, m, n, e) = (v, Memᴰ.tail m, n, e)

  -- From a map with the one key `id`, the loop ends in such a map.
  keep_others_one :
      (id : I) (w : Watcher I C) (order : List (Watcher I C))
      → (keep_others uuid_eq id order ((id, w) ∷ []) ≡ (id, w) ∷ [])
        ⊎ Stays id order (keep_others uuid_eq id order ((id, w) ∷ []))
  unfolding keep_others
  keep_others_one id w [] = inl refl
  keep_others_one id w (x ∷ order) = elim (uuid_eq x.id id) [
    | yes gone ↦ rw (if_pos _ gone) (elim (keep_others_one id w order) [
      | inl e ↦ inl e
      | inr s ↦ inr (tail_Stays id x order _ s)
    ])
    | no stays ↦
        rw (if_neg _ stays, insert, if_pos _ refl)
          (elim (keep_others_one id x order) [
            | inl e ↦ inr (x, Memᴰ.head refl, stays, e)
            | inr s ↦ inr (tail_Stays id x order _ s)
          ])
  ]

  keep_others_some :
      (id : I) (w : Watcher I C) (order : List (Watcher I C))
      → Memᴰ w order
      → w.id ≢ id
      → Stays id order (keep_others uuid_eq id order [])
  unfolding keep_others
  keep_others_some id w [] m n = elim m [ ]
  keep_others_some id w (x ∷ order) m n = elim (uuid_eq x.id id) [
    | yes gone ↦
        rw (if_pos _ gone) (tail_Stays id x order _ (keep_others_some id w order (rest gone m) n))
    | no stays ↦ rw (if_neg _ stays) (elim (keep_others_one id x order) [
      | inl e ↦ (x, Memᴰ.head refl, stays, e)
      | inr s ↦ tail_Stays id x order _ s
    ])
  ]
    where
      rest : x.id ≡ id → Memᴰ w (x ∷ order) → Memᴰ w order
      rest gone (Memᴰ.head e) = absurd (n (ap (λ v. v.id) e ∙ gone))
      rest gone (Memᴰ.tail t) = t

module _ {V I C : Type 0} (uuid_eq : Discrete I) where
  -- Whenever some other watcher is registered, removing a watcher leaves exactly one registration, in
  -- whichever order the map is visited: that of one of the others, under the id that was removed. So
  -- no other id is found any more.
  pub remove_watcher_collapses :
      (id : I) (w : Watcher I C) (order : List (Watcher I C)) (ws : Watchers V I C)
      → Memᴰ w order
      → w.id ≢ id
      → let left = (remove_watcher uuid_eq id order ws).0.watchers in
        (v : Watcher I C) × Memᴰ v order
        × (v.id ≢ id)
        × (left ≡ (id, v) ∷ [])
        × ((j : I) → j ≢ id → lookup uuid_eq j left ≡ none)
  unfolding remove_watcher lookup
  remove_watcher_collapses id w order ws m n =
      let (v, mv, nv, e) = keep_others_some uuid_eq id w order m n in
      (v, mv, nv, e, λ j differs. rw (e, lookup, if_neg _ (λ (same : id ≡ j). differs (sym same))))

  -- Where the removed watcher was the only one, none is left.
  pub remove_watcher_last :
      (id : I) (ch : C) (ws : Watchers V I C)
      → (remove_watcher uuid_eq id (record { id = id; ch = ch } ∷ []) ws).0.watchers ≡ []
  unfolding remove_watcher
  remove_watcher_last id ch ws = rw (if_pos (uuid_eq id id) refl)
