-- ===== src/Iac/Compliance/Run/Counts.antt =====
-- What the counters of a compliance run say.
use net_graphy.Prelude.{
  ℕ, ◌+◌, String, ◌≡◌, refl, sym, ◌∙◌, List, [], ◌∷◌, ◌++◌, length, map, append_assoc, append-nil,
  arith,
}
use net_graphy.Iac.Compliance.{ComplianceRunResult, Libraries}
use net_graphy.Iac.Compliance.Run.{
  Graph, ComplianceRow, Checked, Outcome, compliant, non_compliant, errored, count_device,
  check_device, check_devices, run_compliance,
}
use net_graphy.Iac.Compliance.Run.Devices.{check_device-IsSound}
use net_graphy.Iac.Compliance.Run.Rules.{map-last}

abbrev pub total : ComplianceRunResult → ℕ
total run = run.devices_compliant + (run.devices_non_compliant + run.devices_errored)

total-count : (c : Checked) (run : ComplianceRunResult) → total (count_device c run) ≡ total run + 1
total-count c run = by_outcome c.outcome
  where
    by_outcome :
        (o : Outcome)
        → (elim o [ compliant ↦ run.devices_compliant + 1 | _ ↦ run.devices_compliant ])
            + ((elim o [
              | non_compliant ↦ run.devices_non_compliant + 1
              | _ ↦ run.devices_non_compliant
            ])
                + (elim o [ errored ↦ run.devices_errored + 1 | _ ↦ run.devices_errored ]))
          ≡ total run + 1
    by_outcome compliant = omega arith
    by_outcome non_compliant = omega arith
    by_outcome errored = omega arith

module _ (lib : Libraries) (graph : Graph) (run_id : String) where
  check_devices-total :
      (ids : List String) (run : ComplianceRunResult) (written : List ComplianceRow)
      → (total (check_devices lib graph run_id ids run written).0 ≡ total run + length ids)
        × ((check_devices lib graph run_id ids run written).0.devices_attempted
            ≡ run.devices_attempted)
  unfolding check_devices
  check_devices-total [] run written = (omega arith, refl)
  check_devices-total (id ∷ ids) run written =
      let c = check_device lib graph run_id id in
      let rest = check_devices-total ids (count_device c run) (written ++ c.written) in
      (omega (arith, rest.0, total-count c run), rest.1)

  -- The results come in the order of the devices.
  check_devices-results :
      (ids : List String) (run : ComplianceRunResult) (written : List ComplianceRow)
      → map (λ d. d.device_id) (check_devices lib graph run_id ids run written).0.results
        ≡ map (λ d. d.device_id) run.results ++ ids
  unfolding check_devices
  check_devices-results [] run written = sym (append-nil _)
  check_devices-results (id ∷ ids) run written =
      let c = check_device lib graph run_id id in
      check_devices-results ids (count_device c run) (written ++ c.written)
      ∙ rw
          (
            map-last (λ d. d.device_id) run.results c.result,
            (check_device-IsSound lib graph run_id id).0,
          )
          (append_assoc (map (λ d. d.device_id) run.results) (id ∷ []) ids)

  -- A run attempts each of the devices once: it has one result for each of them, in their order, and
  -- the devices counted as compliant, as not compliant and as errors are together those attempted.
  pub run_compliance-total :
      (ids : List String)
      → (map (λ d. d.device_id) (run_compliance lib graph run_id ids).0.results ≡ ids)
        × (((run_compliance lib graph run_id ids).0.devices_attempted ≡ length ids)
            × (total (run_compliance lib graph run_id ids).0
                ≡ (run_compliance lib graph run_id ids).0.devices_attempted))
  unfolding run_compliance
  run_compliance-total ids =
      let start : ComplianceRunResult = record {
        run_id = run_id;
        devices_attempted = length ids;
        devices_compliant = 0;
        devices_non_compliant = 0;
        devices_errored = 0;
        results = [];
      } in
      let totals = check_devices-total ids start [] in
      (check_devices-results ids start [], (totals.1, omega (arith, totals.0, totals.1)))
