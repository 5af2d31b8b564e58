-- ===== src/Tests/Answers.antt =====
-- A state in the middle of a run: what the handlers and the queries find in it.
use mathlib.Core.List.{Memᴰ}
use onos_mho.Base.{ℕ, Text, List, All, ◌≡◌}
use onos_mho.Base.Result.{ok}
use onos_mho.Store.Types.{Event}
use onos_mho.Memory.{events}
use onos_mho.Monitor.{Report, plan}
use onos_mho.Controller.{plan_approval}
use onos_mho.Southbound.Handover.{plan_control}
use onos_mho.Northbound.{Ue, Cell, get_ues, get_cells}
use onos_mho.Northbound.Laws.{ues_in, num_in}
use onos_mho.System.Totality.{Answers, handlers_answer}
use onos_mho.System.Queries.{IsReported, queries_answer}
use onos_mho.Tests.{toy_ies, toy_pdu}
use onos_mho.Tests.Systems.{Heard, last_state, reached}

handlers_answer_example :
    ((r : Report ℕ) → Answers (plan r last_state.memory))
    × ((e : Event ℕ)
        → Memᴰ e (events last_state.memory)
        → Answers (plan_approval e last_state.memory))
    × ((node_id : Text) (e : Event ℕ)
        → Memᴰ e (events last_state.memory)
        → Answers (plan_control node_id e last_state.memory))
handlers_answer_example = handlers_answer toy_ies toy_pdu Heard reached

queries_answer_example :
    (ues : List Ue) × (cells : List Cell) × (get_ues toy_ies last_state.memory ≡ ok ues)
    × (get_cells toy_ies last_state.memory ≡ ok cells)
    × All (IsReported toy_ies Heard) ues
    × ((cgi : Text) → num_in cgi cells ≡ ues_in cgi ues)
queries_answer_example = queries_answer toy_ies toy_pdu Heard reached
