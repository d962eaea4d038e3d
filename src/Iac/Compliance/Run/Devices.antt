-- ===== src/Iac/Compliance/Run/Devices.antt =====
-- What a compliance run says of one device.
use net_graphy.Prelude.{
  String, ◌<>◌, ◌≡◌, inl, inr, refl, sym, subst, true, [], length, is_empty, is_given, arith,
  Bool-cases, Option-cases, Result-cases,
}
use net_graphy.Iac.Compliance.{DeviceCompliance, Device, Libraries}
use net_graphy.Iac.Compliance.Remediation.{get_or}
use net_graphy.Iac.Compliance.Run.{
  Graph, Checked, failed, blank_device, check_rules, check_configs, check_found, check_device,
}
use net_graphy.Iac.Compliance.Run.Rules.{check_rules-IsSound, IsTallied, IsSound}

module _ (lib : Libraries) (graph : Graph) (run_id : String) where
  -- A device of which nothing has been checked.
  IsBlank : DeviceCompliance → Type 0
  IsBlank d =
      (d.compliant ≡ true)
      × ((d.features ≡ []) × ((d.features_compliant ≡ 0) × (d.features_non_compliant ≡ 0)))

  blank-IsTallied : (d : DeviceCompliance) → IsBlank d → IsTallied d
  unfolding IsBlank
  blank-IsTallied d (c, (f, (g, b))) = rw (f, g, b) (refl, refl)

  failed-IsSound :
      (d : DeviceCompliance) (e : String) → IsBlank d → IsSound run_id d.device_id (failed d [] e)
  unfolding IsBlank
  failed-IsSound d e blank =
      (refl, (blank-IsTallied d blank, (tt, (blank.0, ([], blank.1.0, omega arith)))))

  check_configs-IsSound :
      (backup intended : String) (device : Device) (d : DeviceCompliance)
      → IsBlank d
      → IsSound run_id d.device_id (check_configs lib graph run_id backup intended device d)
  unfolding check_configs IsBlank
  check_configs-IsSound backup intended device d blank =
      elim (Result-cases (graph.rules_for_platform d.platform_slug)) [
        | inr (e, r) ↦
            let step : now ≡ failed d [] e = rw (check_configs, r) refl in
            subst (IsSound run_id d.device_id) (sym step) (failed-IsSound d e blank)
        | inl (rules, r) ↦ elim (Bool-cases (is_empty rules)) [
          | inl empty ↦
              let step : now
                  ≡ failed d []
                      ("No compliance rules for platform " <> get_or "None" d.platform_slug) =
                rw (check_configs, r, empty) refl in
              subst (IsSound run_id d.device_id) (sym step) (
                failed-IsSound d
                  ("No compliance rules for platform " <> get_or "None" d.platform_slug) blank)
          | inr more ↦
              let started = record d { features_total = length rules } in
              let step : now
                  ≡ check_rules lib graph run_id backup intended device rules started true [] =
                rw (check_configs, r, more) refl in
              subst (IsSound run_id d.device_id) (sym step) (
                check_rules-IsSound lib graph run_id backup intended device rules started true [] tt
                  blank.0 (blank-IsTallied d blank) (rw blank.1.0 refl) (rw blank.1.0 (omega arith))
                  (sym blank.1.0))
        ]
      ]
    where
      now : Checked
      now = check_configs lib graph run_id backup intended device d

  check_found-IsSound :
      (device : Device) (d : DeviceCompliance)
      → IsBlank d
      → IsSound run_id d.device_id (check_found lib graph run_id device d)
  unfolding check_found
  check_found-IsSound device d blank = elim (Result-cases (graph.backup_config d.device_id)) [
    | inr (e, r) ↦ fails e (rw (check_found, r) refl)
    | inl (backup, r) ↦ elim (Result-cases (graph.intended_config d.device_id)) [
      | inr (e, q) ↦ fails e (rw (check_found, r, q) refl)
      | inl (intended, q) ↦ elim (Bool-cases (is_given backup)) [
        | inr b ↦
            fails "No backup config available — run backup first" (rw (check_found, r, q, b) refl)
        | inl b ↦ elim (Bool-cases (is_given intended)) [
          | inr i ↦
              fails "No intended config available — run intended generation first"
                (rw (check_found, r, q, b, i) refl)
          | inl i ↦
              let step : check_found lib graph run_id device d
                  ≡ check_configs lib graph run_id (get_or "" backup) (get_or "" intended) device
                      d =
                rw (check_found, r, q, b, i) refl in
              subst (IsSound run_id d.device_id) (sym step)
                (check_configs-IsSound _ _ device d blank)
        ]
      ]
    ]
  ]
    where
      fails :
          (e : String)
          → check_found lib graph run_id device d ≡ failed d [] e
          → IsSound run_id d.device_id (check_found lib graph run_id device d)
      fails e step = subst (IsSound run_id d.device_id) (sym step) (failed-IsSound d e blank)

  -- What a run says of a device is about that device, and its counters are the numbers of its
  -- features that are compliant and that are not. Where the run counts the device as compliant or as
  -- not compliant, the device has as many features as its total says, they are written to the graph
  -- in their order, it is called compliant exactly when none of its features is not, and it is
  -- counted as it is called. Where the run counts it as an error, it is called compliant, and its
  -- features are those written, in their order, and at most one more. Whatever is written has the
  -- run's id and the device's id and hostname.
  pub check_device-IsSound : (id : String) → IsSound run_id id (check_device lib graph run_id id)
  unfolding check_device
  check_device-IsSound id = elim (Result-cases (graph.device id)) [
    | inr (e, r) ↦ missing e (rw (check_device, r) refl)
    | inl (found, r) ↦ elim (Option-cases found) [
      | inl n ↦ missing "Device not found" (rw (check_device, r, n) refl)
      | inr (device, s) ↦
          let d = record (blank_device id) {
            device_hostname = get_or "" device.hostname;
            platform_slug = device.platform_slug;
          } in
          let step : check_device lib graph run_id id ≡ check_found lib graph run_id device d =
            rw (check_device, r, s) refl in
          subst (IsSound run_id id) (sym step)
            (check_found-IsSound device d (unfold IsBlank in (refl, (refl, (refl, refl)))))
    ]
  ]
    where
      missing :
          (e : String)
          → check_device lib graph run_id id ≡ failed (blank_device id) [] e
          → IsSound run_id id (check_device lib graph run_id id)
      missing e step =
          subst (IsSound run_id id) (sym step)
            (failed-IsSound (blank_device id) e (unfold IsBlank in (refl, (refl, (refl, refl)))))
