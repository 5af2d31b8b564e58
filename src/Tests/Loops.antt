-- ===== src/Tests/Loops.antt =====
-- The error paths of the monitor and its loop, the settings and the search, on concrete values.
use onos_mho.Base.{ℕ, suc, ◌<◌, ◌≡◌, refl, ◌≢◌, Text, length, true, All, [], ◌∷◌, none, arith}
use onos_mho.Base.Result.{ok, err, panic, not_supported, eof}
use onos_mho.Memory.{Memory}
use onos_mho.Monitor.{process_indication, read_indication}
use onos_mho.Monitor.Errors.{process_indication_atomic}
use onos_mho.Monitor.Loop.{
  Loop, process_failed, returned, received, failed, handover, zero_indication, run, start,
}
use onos_mho.Monitor.Loop.Laws.{recv_error_stops}
use onos_mho.Config.{AppConfig}
use onos_mho.Utils.Format.{pos}
use onos_mho.Utils.Ies.{Ies}
use onos_mho.Utils.RanParam.{get_ran_parameter_value}
use onos_mho.Utils.RanParam.Laws.{get_ran_parameter_value-Decides, Decides, Occurs, HasNil}
use onos_mho.Tests.{Tree, leaf, node, toy_ies, cell_a, node_1}

abbrev empty : Memory ℕ ℕ ℕ
empty = record {
  metrics = [];
  store = record { records = []; watchers = record { watchers = []; senders = [] }; closed = [] };
}

-- Like `toy_ies`, but no UE is a gNB's and no message lists a parameter.
abbrev bad_ies : Ies
bad_ies = record toy_ies { gnb_ueid = λ n. none; requested_list = λ t. [] }

refused : process_indication bad_ies zero_indication node_1 empty ≡ (empty, err not_supported)
unfolding process_indication read_indication
refused = refl

refused_fails : (process_indication bad_ies zero_indication node_1 empty).1 ≢ ok tt
unfolding process_indication read_indication
refused_fails e = cc

process_indication_atomic_example :
    (process_indication bad_ies zero_indication node_1 empty).0 ≡ empty
process_indication_atomic_example =
    process_indication_atomic bad_ies zero_indication node_1 empty refused_fails

abbrev waiting_loop : Loop ℕ ℕ ℕ
waiting_loop = start empty

recv_error_stops_example :
    run bad_ies node_1 (failed eof ∷ handover ∷ received zero_indication ∷ []) waiting_loop
    ≡ record { reader = process_failed not_supported; waiter = returned eof; memory = empty }
unfolding start
recv_error_stops_example =
    recv_error_stops bad_ies node_1 (received zero_indication ∷ []) waiting_loop eof not_supported
      empty refl refl refused

-- Settings that are numbers, of which only the paths of five letters are set.
abbrev toy_config : AppConfig
toy_config = record {
  Value = ℕ;
  get = λ path. ok (length path);
  as_bool = λ v. none;
  to_uint64 = λ v. ok v;
}

config_get_returns : (path : Text) → toy_config.get path ≢ panic
config_get_returns path e = cc

config_to_uint64_returns : (v : ℕ) → toy_config.to_uint64 v ≢ panic
config_to_uint64_returns v e = cc

abbrev depth : Tree → ℕ
depth (leaf t) = 0
depth (node i t) = suc (depth t)

depth_falls :
    (t : Tree)
    → toy_ies.is_structure t ≡ true
    → All (λ i. depth (toy_ies.structure_item_type i) < depth t) (toy_ies.sequence t)
depth_falls (leaf t) e = cc
depth_falls (node i t) e = (omega arith, tt)

abbrev deep : Tree
deep = node (pos 2) (node (pos 3) (node (pos 4) (leaf cell_a)))

get_ran_parameter_value-Decides_example :
    Decides toy_ies
      (pos 4)
      (get_ran_parameter_value toy_ies 4 deep (pos 4))
      (Occurs toy_ies (pos 4) deep)
      (HasNil toy_ies (pos 4) deep)
get_ran_parameter_value-Decides_example =
    get_ran_parameter_value-Decides toy_ies (pos 4) depth depth_falls 4 deep (omega arith)
