-- ===== src/Store/Delivery/Laws.antt =====
-- pkg/store/watcher.go and pkg/store/store.go: `Send` while a watcher goes.
use mathlib.Core.List.{Memᴰ}
use onos_mho.Base.{
  ◌≡◌, refl, sym, ap, ◌∙◌, ◌≢◌, true, false, List, [], ◌∷◌, if_pos, if_neg, All, All-map, arith,
}
use onos_mho.Base.Dict.{Dict, values, All-insert}
use onos_mho.Base.Result.{ok, panic}
use onos_mho.Store.Types.{Event}
use onos_mho.Store.Watching.{Watcher, deliveries, keep_others, remove_watcher}
use onos_mho.Store.{Store, watch_done}
use onos_mho.Store.Delivery.{is_closed, write_all}

-- The watcher's channel has not been closed.
abbrev pub IsOpen : {I C : Type 0} → Discrete C → List C → Watcher I C → Type 0
IsOpen channel_eq closed w = is_closed channel_eq w.ch closed ≡ false

module _ {V I C : Type 0} (channel_eq : Discrete C) (event : Event V) where
  write_all_open :
      (closed : List C) (ws : List (Watcher I C))
      → All (IsOpen channel_eq closed) ws
      → write_all channel_eq closed event ws ≡ ok (deliveries event ws)
  unfolding write_all deliveries
  write_all_open closed [] h = refl
  write_all_open closed (w ∷ ws) h = rw (h.0, write_all, write_all_open closed ws h.1) refl

  write_all_closed :
      (closed : List C) (ws : List (Watcher I C)) (w : Watcher I C)
      → Memᴰ w ws
      → is_closed channel_eq w.ch closed ≡ true
      → write_all channel_eq closed event ws ≡ panic
  unfolding write_all
  write_all_closed closed [] w m h = elim m [ ]
  write_all_closed closed (x ∷ ws) w (Memᴰ.head e) h =
      ground (arith, ap (λ v. is_closed channel_eq v.ch closed) e)
  write_all_closed closed (x ∷ ws) w (Memᴰ.tail m) h =
      ground (arith, write_all_closed closed ws w m h)

module _ {I C : Type 0} (uuid_eq : Discrete I) (P : Watcher I C → Type 0) where
  All-values : (d : Dict I (Watcher I C)) → All (λ p. P p.1) d → All P (values d)
  All-values [] h = tt
  All-values (p ∷ d) h = (h.0, All-values d h.1)

  All-keep_others :
      (id : I) (order : List (Watcher I C)) (d : Dict I (Watcher I C))
      → All (λ w. w.id ≢ id → P w) order
      → All (λ p. P p.1) d
      → All (λ p. P p.1) (keep_others uuid_eq id order d)
  unfolding keep_others
  All-keep_others id [] d h k = k
  All-keep_others id (w ∷ order) d h k = elim (uuid_eq w.id id) [
    | yes gone ↦ rw (if_pos _ gone) (All-keep_others id order d h.1 k)
    | no stays ↦
        rw (if_neg _ stays)
          (All-keep_others id order _ h.1 (All-insert uuid_eq (λ p. P p.1) id w d (h.0 stays) k))
  ]

module _ {V I C : Type 0} (uuid_eq : Discrete I) (channel_eq : Discrete C) where
  -- A watcher's context is done: its registration is removed and its channel closed. Where the channels
  -- of the other watchers are open and are not that channel, a goroutine of `Send` that reads the map
  -- afterwards writes its event to each watcher that the map has. But a goroutine that has read the map
  -- before, when the watcher was in it, and comes to the watcher afterwards, panics.
  pub watch_done-write_all :
      (id : I) (ch : C) (order : List (Watcher I C)) (s : Store V I C) (event : Event V)
      → All (λ w. w.id ≢ id → IsOpen channel_eq s.closed w × (w.ch ≢ ch)) order
      → let s' = watch_done uuid_eq id ch order s in
        let left = values s'.watchers.watchers in
        (write_all channel_eq s'.closed event left ≡ ok (deliveries event left))
        × ((ws : List (Watcher I C))
            → Memᴰ (record { id = id; ch = ch }) ws
            → write_all channel_eq s'.closed event ws ≡ panic)
  unfolding watch_done remove_watcher is_closed
  watch_done-write_all id ch order s event others = (
    write_all_open channel_eq event (ch ∷ s.closed) _ (
        All-values uuid_eq _ (keep_others uuid_eq id order []) (
          All-keep_others uuid_eq _ id order []
            (All-map _ _ order
              (λ w h n. if_neg (channel_eq ch w.ch) (λ e. (h n).1 (sym e)) true _ ∙ (h n).0) others)
            tt)),
    λ ws m.
        write_all_closed channel_eq event (ch ∷ s.closed) ws _ m
          (if_pos (channel_eq ch ch) refl true _),
  )
