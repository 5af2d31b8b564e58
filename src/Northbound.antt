-- ===== src/Northbound.antt =====
-- pkg/northbound/mho.go: the two queries of the gRPC service.
-- Both read the entries of the store in the order of its map; `int64` counts are far from wrapping,
-- since each counted entry is one of the map.
pub mod Laws
pub mod Order
pub mod Service
use onos_mho.Base.{ℕ, suc, ◌+◌, Text, Text-discrete, List, [], ◌∷◌, Option, none, some}
use onos_mho.Base.Dict.{Dict, lookup, insert}
use onos_mho.Base.Result.{Result, ok, err, panic, ◌>>=◌}
use onos_mho.Store.Types.{MetricValue, Entry, mho_state_string}
use onos_mho.Store.{entries}
use onos_mho.Memory.{Memory, deref}
use onos_mho.Utils.Format.{decimal_int}
use onos_mho.Utils.Ies.{Ies}

-- `mhoapi.UE` and `mhoapi.Cell`, with the fields that are set.
pub record Ue : Type 0 where
  pub ue_id : Text
  pub ho_state : Text
  pub cgi : Text

pub record Cell : Type 0 where
  pub cgi : Text
  pub num_ues : ℕ

module _ {U I C : Type 0} where
  -- `e.Value.(*store.MetricValue)` of each entry that the channel gives.
  unfoldable pub read_entries : List (Entry ℕ) → Memory U I C → Result (List (MetricValue U))
  read_entries [] m = ok []
  read_entries (e ∷ rest) m = do v ← deref e.value m; vs ← read_entries rest m; ok (v ∷ vs)

-- `result[cgi]++`
unfoldable pub count_one : Text → Dict Text ℕ → Dict Text ℕ
count_one cgi result = elim (lookup Text-discrete cgi result) [
  | none ↦ insert Text-discrete cgi 1 result
  | some n ↦ insert Text-discrete cgi (n + 1) result
]

-- The loop over the counts, in the order of that map.
unfoldable pub to_cells : Dict Text ℕ → List Cell
to_cells [] = []
to_cells ((k, v) ∷ rest) = record { cgi = k; num_ues = v } ∷ to_cells rest

module _ (ies : Ies) where
  -- The goroutine of `GetUes`: an identity that is not a gNB's is passed over.
  unfoldable pub collect_ues : List (MetricValue ies.Ueid) → List Ue
  unfolding mho_state_string
  collect_ues [] = []
  collect_ues (v ∷ rest) = elim (ies.gnb_ueid v.raw_ue_id) [
    | none ↦ collect_ues rest
    | some ueid ↦
        record {
          ue_id = decimal_int (ies.amf_ue_ngap_id ueid);
          ho_state = mho_state_string v.state;
          cgi = v.tgt_cell_id;
        }
        ∷ collect_ues rest
  ]

  -- The goroutine of `GetCells`.
  unfoldable pub count_ues : List (MetricValue ies.Ueid) → Dict Text ℕ → Dict Text ℕ
  unfolding count_one
  count_ues [] result = result
  count_ues (v ∷ rest) result = elim (ies.gnb_ueid v.raw_ue_id) [
    | none ↦ count_ues rest result
    | some ueid ↦ count_ues rest (count_one v.tgt_cell_id result)
  ]

  module _ {I C : Type 0} where
    unfoldable pub get_ues : Memory ies.Ueid I C → Result (List Ue)
    unfolding read_entries collect_ues
    get_ues m = do vs ← read_entries (entries m.store) m; ok (collect_ues vs)

    unfoldable pub get_cells : Memory ies.Ueid I C → Result (List Cell)
    unfolding read_entries count_ues to_cells
    get_cells m = do vs ← read_entries (entries m.store) m; ok (to_cells (count_ues vs []))
