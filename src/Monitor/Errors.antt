-- ===== src/Monitor/Errors.antt =====
-- pkg/monitoring/monitor.go: the error paths of the indication handler.
use onos_mho.Base.{◌≡◌, refl, ◌≢◌, Text, [], none, some, inl, inr, arith}
use onos_mho.Base.Result.{ok, err, panic, not_supported, Result-cases}
use onos_mho.Store.Types.{state_created, denied}
use onos_mho.Memory.{Memory}
use onos_mho.Memory.Laws.{put_metric_ok, put_new_ok}
use onos_mho.Utils.Ies.{Ies}
use onos_mho.Monitor.{
  Report, Plan, insert, leave, again, metric_value, plan, commit, process_report, Indication,
  tgt_cell_id, read_indication, process_indication,
}

module _ {U I C : Type 0} (r : Report U) (node_id : Text) (m : Memory U I C) where
  commit_ok : (p : Plan) → (commit r node_id p m).1 ≡ ok tt
  unfolding commit
  commit_ok insert = put_new_ok r.key (metric_value r node_id) state_created m
  commit_ok leave = refl
  commit_ok (again p) = put_metric_ok r.key p denied m

  process_report_atomic :
      (process_report r node_id m).1 ≢ ok tt → (process_report r node_id m).0 ≡ m
  unfolding process_report
  process_report_atomic n = elim (Result-cases (plan r m)) [
    | inl (p, e) ↦ absurd (n (rw (e, process_report) (commit_ok p)))
    | inr (inl (x, e)) ↦ rw (e, process_report) refl
    | inr (inr e) ↦ rw (e, process_report) refl
  ]

module _ (ies : Ies) {I C : Type 0} (i : Indication) (node_id : Text)
    (m : Memory ies.Ueid I C) where
  -- An indication whose handling does not succeed leaves the store and every value as they were.
  pub process_indication_atomic :
      (process_indication ies i node_id m).1 ≢ ok tt → (process_indication ies i node_id m).0 ≡ m
  unfolding process_indication
  process_indication_atomic n = elim (Result-cases (read_indication ies i)) [
    | inl (r, e) ↦
        let n' : (process_report r node_id m).1 ≢ ok tt = λ h. n (rw (e, process_indication) h) in
        rw (e, process_indication) (process_report_atomic r node_id m n')
    | inr (inl (x, e)) ↦ rw (e, process_indication) refl
    | inr (inr e) ↦ rw (e, process_indication) refl
  ]

  -- On a header and a message that decode: where the UE's identity is not a gNB's, the answer is
  -- NotSupported and nothing changes; where it is one and the message lists no parameter, the handler
  -- panics, which ends the process.
  process_indication_refused :
      (header : ies.Header) (message : ies.Message)
      → ies.unmarshal_header i.header ≡ ok header
      → ies.unmarshal_message i.payload ≡ ok message
      → (ies.gnb_ueid (ies.header_ue_id header) ≡ none
          → process_indication ies i node_id m ≡ (m, err not_supported))
        × ((u : ies.UeidGnb)
            → ies.gnb_ueid (ies.header_ue_id header) ≡ some u
            → ies.requested_list message ≡ []
            → process_indication ies i node_id m ≡ (m, panic))
  unfolding process_indication read_indication tgt_cell_id
  process_indication_refused header message h p =
      (λ e. ground (arith, h, p, e), λ u e l. ground (arith, h, p, e, l))
