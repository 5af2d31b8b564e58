-- ===== src/Tests/Stores.antt =====
-- The store, its watchers, the keys and the queries, on concrete values.
use mathlib.Core.List.{Memᴰ, Permᴰ}
use onos_mho.Base.{
  ℕ_discrete, true, false, ℕ, ◌≡◌, refl, ◌≢◌, ◌%◌, ◌^◌, Text, Text-discrete, ℕ_discrete, codes,
  List, [], ◌∷◌, none, arith,
}
use onos_mho.Base.Dict.{Dict, lookup}
use onos_mho.Base.Result.{ok, panic}
use onos_mho.Store.Types.{
  mho_state_string, Entry, Event, created, MetricValue, state_created, approved, done,
}
use onos_mho.Store.{watch_done, Store, new_store, get, entries}
use onos_mho.Store.Delivery.{is_closed, write_all}
use onos_mho.Store.Delivery.Laws.{IsOpen, watch_done-write_all}
use onos_mho.Store.Watching.{Watcher, Watchers, remove_watcher}
use onos_mho.Store.Interface.{Call, puts, deletes, watches, call_all, entry_of, write_event}
use onos_mho.Store.Implements.{store_api, call_all_lem}
use onos_mho.Store.Watching.Laws.{remove_watcher_collapses}
use onos_mho.Utils.Id.{big_endian, generate_gnb_ue_id_string-injective}
use onos_mho.Utils.Format.{decimal_int}
use onos_mho.Memory.{Memory, deref}
use onos_mho.Northbound.{Ue, Cell, get_ues, get_cells, read_entries, collect_ues}
use onos_mho.Northbound.Laws.{num_in}
use onos_mho.Northbound.Order.{reordered, get_ues-Perm}
use onos_mho.Tests.{toy_ies, cell_a, ue_1, ue_2, node_1}

abbrev history : List (Call ℕ ℕ ℕ)
history =
    puts ue_1 5 state_created
    ∷ watches 1 10
    ∷ puts ue_2 6 state_created
    ∷ puts ue_1 7 approved
    ∷ deletes ue_2
    ∷ []

call_all_lem_example :
    let s = call_all (store_api ℕ_discrete) history new_store in
    (get ue_1 s ≡ ok (entry_of ue_1 7))
    × (s.watchers.senders
        ≡ write_event ue_1 5 state_created false
          ∷ write_event ue_2 6 state_created false
          ∷ write_event ue_1 7 approved true
          ∷ [])
unfolding Text-discrete
call_all_lem_example =
    ((call_all_lem ℕ ℕ ℕ ℕ_discrete history).0 ue_1, (call_all_lem ℕ ℕ ℕ ℕ_discrete history).3)

abbrev watcher_1 : Watcher ℕ ℕ
watcher_1 = record { id = 1; ch = 10 }

abbrev watcher_2 : Watcher ℕ ℕ
watcher_2 = record { id = 2; ch = 20 }

abbrev two_watchers : Watchers ℕ ℕ ℕ
two_watchers = record { watchers = (1, watcher_1) ∷ (2, watcher_2) ∷ []; senders = [] }

two_differs_one : watcher_2.id ≢ 1
two_differs_one e = ground arith

remove_watcher_collapses_example :
    let left = (remove_watcher ℕ_discrete 1 (watcher_1 ∷ watcher_2 ∷ []) two_watchers).0.watchers in
    (v : Watcher ℕ ℕ) × Memᴰ v (watcher_1 ∷ watcher_2 ∷ [])
    × (v.id ≢ 1)
    × (left ≡ (1, v) ∷ [])
    × ((j : ℕ) → j ≢ 1 → lookup ℕ_discrete j left ≡ none)
remove_watcher_collapses_example =
    remove_watcher_collapses ℕ_discrete 1 watcher_2 (watcher_1 ∷ watcher_2 ∷ []) two_watchers
      (Memᴰ.tail (Memᴰ.head refl)) two_differs_one

generate_gnb_ue_id_string-injective_example :
    big_endian 0 (19 ∷ 1 ∷ 132 ∷ []) % 2 ^ 64 ≡ big_endian 0 (19 ∷ 1 ∷ 132 ∷ []) % 2 ^ 64
generate_gnb_ue_id_string-injective_example =
    (generate_gnb_ue_id_string-injective toy_ies 5 5 refl).0

abbrev value_at : Text → ℕ → MetricValue ℕ
value_at cell ue = record {
  raw_ue_id = ue;
  tgt_cell_id = cell;
  state = done;
  call_process_id = [];
  e2_node_id = node_1;
}

abbrev two_ues : Memory ℕ ℕ ℕ
two_ues = record {
  metrics = value_at cell_a 3 ∷ value_at cell_a 4 ∷ [];
  store = record {
    records =
        (ue_1, record { key = ue_1; value = 0 }) ∷ (ue_2, record { key = ue_2; value = 1 }) ∷ [];
    watchers = record { watchers = []; senders = [] };
    closed = [];
  };
}

abbrev listed : List Ue
listed =
    record { ue_id = codes "2"; ho_state = codes "Done"; cgi = cell_a }
    ∷ record { ue_id = codes "3"; ho_state = codes "Done"; cgi = cell_a }
    ∷ []

listed_ues : get_ues toy_ies two_ues ≡ ok listed
unfolding get_ues read_entries collect_ues mho_state_string entries deref decimal_int
listed_ues = refl

abbrev two_reversed : Dict Text (Entry ℕ)
two_reversed =
    (ue_2, record { key = ue_2; value = 1 }) ∷ (ue_1, record { key = ue_1; value = 0 }) ∷ []

get_ues-Perm_example :
    (ues' : List Ue) × (get_ues toy_ies (reordered toy_ies two_reversed two_ues) ≡ ok ues')
    × Permᴰ listed ues'
    × ((cells : List Cell) × (cells' : List Cell) × (get_cells toy_ies two_ues ≡ ok cells)
        × (get_cells toy_ies (reordered toy_ies two_reversed two_ues) ≡ ok cells')
        × ((cgi : Text) → num_in cgi cells ≡ num_in cgi cells'))
get_ues-Perm_example =
    get_ues-Perm toy_ies two_ues two_reversed listed (Permᴰ.swap refl refl) listed_ues

abbrev watched : Store ℕ ℕ ℕ
watched = record { records = []; watchers = two_watchers; closed = [] }

abbrev an_event : Event ℕ
an_event = record {
  key = ue_1;
  value = record { key = ue_1; value = 0 };
  type = created;
  event_mho_state = state_created;
}

other_channel : ◌≢◌ {A = ℕ} 20 10
other_channel e = omega arith

same_id : ◌≢◌ {A = ℕ} 1 1 → IsOpen ℕ_discrete watched.closed watcher_1 × ◌≢◌ {A = ℕ} 10 10
same_id n = absurd (n refl)

nothing_closed : IsOpen ℕ_discrete watched.closed watcher_2
unfolding is_closed
nothing_closed = refl

watch_done-write_all_example :
    write_all ℕ_discrete
      (watch_done ℕ_discrete 1 10 (watcher_1 ∷ watcher_2 ∷ []) watched).closed
      an_event
      (watcher_2 ∷ watcher_1 ∷ [])
    ≡ panic
watch_done-write_all_example =
    (watch_done-write_all ℕ_discrete ℕ_discrete 1 10 (watcher_1 ∷ watcher_2 ∷ []) watched an_event
        (same_id, ((λ n. (nothing_closed, other_channel)), tt))).1
      (watcher_2 ∷ watcher_1 ∷ []) (Memᴰ.tail (Memᴰ.head refl))
