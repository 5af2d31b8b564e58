-- ===== src/System/Pipeline/Complete.antt =====
-- One handover from the indication on a node's subscription to the control message for that node.
use onos_mho.Base.{◌≡◌, refl, ap, ◌∙◌, inl, Text, length, List, [], ◌∷◌, ◌++◌, false}
use onos_mho.Base.Result.{ok}
use onos_mho.Store.Types.{created, done}
use onos_mho.Store.{has_entry}
use onos_mho.Memory.{Memory, At, events, signals}
use onos_mho.Utils.Ies.{Ies, PduBuilder}
use onos_mho.Broker.Stream.{send, drain, recv, new_buffered_writer}
use onos_mho.Monitor.{
  Indication, Report, metric_value, read_indication, process_report, process_indication,
}
use onos_mho.Monitor.Laws.{process_report_new}
use onos_mho.Monitor.Loop.{receive, process, start as start_loop}
use onos_mho.Controller.{approve}
use onos_mho.Controller.Laws.{approve_lem}
use onos_mho.Southbound.Handover.{ControlCall, finish, control_call}
use onos_mho.Southbound.Handover.Laws.{finish_lem}
use onos_mho.System.InOrder.{Reported, deliver}
use onos_mho.System.InOrder.Spec.{three_events}
use onos_mho.System.InOrder.Handling.{Once}
use onos_mho.System.InOrder.Delivery.{deliver_report, signals-settled}
use onos_mho.System.Pipeline.{sends, drains, receives, start, take_answer, recv_where, step, run}

module _ (ies : Ies) (pdu : PduBuilder ies) {I C : Type 0} (nodes : List Text) (i : Indication)
    (r : Report ies.Ueid) (node_id : Text) (m : Memory ies.Ueid I C) (call : ControlCall) where
  process_indication_of_read :
      read_indication ies i ≡ ok r → process_indication ies i node_id m ≡ process_report r node_id m
  unfolding process_indication
  process_indication_of_read e = rw (e, process_indication) refl

  passed :
      (run ies node_id (sends i ∷ drains ∷ receives ∷ []) (start m)).0.monitor.memory
      ≡ (process_indication ies i node_id m).0
  unfolding run step start start_loop new_buffered_writer send drain recv recv_where take_answer
      receive process
  passed = refl

  -- What follows from an indication: `m1` is the memory that its monitor leaves. The events that the
  -- store has sent since, those that the handlers send included, are three, and once they are
  -- delivered the messages are just the call, and the value is `Done`.
  abbrev pub Serves : Memory ies.Ueid I C → Type 0
  Serves m1 =
      (m3 : Memory ies.Ueid I C) × (deliver ies pdu nodes 3 (length (events m)) m1
        ≡ ok (length (events m3), m3, call ∷ []))
      × At m3 r.key (length m.metrics) (record (metric_value r node_id) { state = done })
      × (signals m3 ≡ signals m ++ three_events (r, node_id) created)

  report-Serves :
      has_entry r.key m.store ≡ false
      → Once node_id nodes
      → control_call ies pdu node_id (metric_value r node_id) ≡ ok call
      → Serves (process_report r node_id m).0
  report-Serves new once built =
      let x : Reported ies.Ueid = (r, node_id) in
      let p = length m.metrics in
      let m1 = (process_report r node_id m).0 in
      let m2 = approve r.key p m1 in
      let (_, at1, sent1) = process_report_new r node_id m new in
      let (at2, _) = approve_lem r.key p m1 at1 in
      let (at3, _) = finish_lem r.key p m2 at2 in
      (
        finish r.key p m2,
        deliver_report ies pdu nodes x call m m1 p created (once, built) (inl refl) sent1 at1,
        at3,
        signals-settled ies pdu nodes x call m m1 p created sent1 at1,
      )

  -- On the stream and the monitor of a node that have just been made: an indication that is read as a
  -- report of a new UE, from a node that is watched once, whose builders succeed, is sent to the
  -- stream, moved by the stream's goroutine and received by the monitor. Then the events that the store
  -- has sent since, those that the handlers themselves send included, are delivered in order to the
  -- controller and to the watchers of the nodes, until none is left: there are three, of a creation, an
  -- approval and a completion; exactly one control message is sent, that of the report; and the value
  -- under the UE's key is the report's, in the state `Done`.
  pub indication_completes :
      read_indication ies i ≡ ok r
      → has_entry r.key m.store ≡ false
      → Once node_id nodes
      → control_call ies pdu node_id (metric_value r node_id) ≡ ok call
      → Serves (run ies node_id (sends i ∷ drains ∷ receives ∷ []) (start m)).0.monitor.memory
  indication_completes read new once built =
      let same = passed ∙ ap (λ q. q.0) (process_indication_of_read read) in
      rw same (report-Serves new once built)
