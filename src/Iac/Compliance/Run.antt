-- ===== src/Iac/Compliance/Run.antt =====
-- packages/iac/compliance.py: `run_compliance`. The reads and writes of the graph may raise, and
-- what is written is returned as a list in order.
pub mod Rules
pub mod Devices
pub mod Counts
use net_graphy.Prelude.{
  ℕ, ◌+◌, String, ◌<>◌, Bool, true, false, not, ◌&&◌, Option, none, some, List, [], ◌∷◌, ◌++◌,
  length, is_blank, is_given, is_empty, Result, ok, raised, ◌>>=◌, if◌then◌else◌,
}
use net_graphy.Iac.Compliance.{
  FeatureCompliance, DeviceCompliance, ComplianceRunResult, ComplianceRule, Device, Libraries,
}
use net_graphy.Iac.Compliance.Remediation.{
  get_or, extract_feature_config, compute_compliance, generate_remediation,
}

-- A `ComplianceResult` node of the graph.
pub record ComplianceRow : Type 0 where
  pub device_id : String
  pub device_hostname : String
  pub run_id : String
  pub compliance : FeatureCompliance

-- The graph database: its answers to the queries of this module, where there is no device or no
-- configuration none, and its answer to a write.
pub record Graph : Type 0 where
  pub device : String → Result String (Option Device)
  pub backup_config : String → Result String (Option String)
  pub intended_config : String → Result String (Option String)
  pub rules_for_platform : Option String → Result String (List ComplianceRule)
  pub write : ComplianceRow → Result String Unit

-- How the work on a device ends: as the code's branches count_device it.
pub data Outcome : Type 0 where
  compliant non_compliant errored : Outcome

pub record Checked : Type 0 where
  pub result : DeviceCompliance
  pub outcome : Outcome
  pub written : List ComplianceRow

abbrev pub blank_device : String → DeviceCompliance
blank_device id = record {
  device_id = id;
  device_hostname = "";
  platform_slug = some "";
  compliant = true;
  features = [];
  features_compliant = 0;
  features_non_compliant = 0;
  features_total = 0;
  error = "";
}

abbrev pub failed : DeviceCompliance → List ComplianceRow → String → Checked
failed result written e = record {
  result = record result { error = e };
  outcome = errored;
  written = written;
}

-- `device_result.features.append(fc)` with the counter of its verdict.
abbrev pub add_feature : FeatureCompliance → DeviceCompliance → DeviceCompliance
add_feature fc result = record result {
  features = result.features ++ (fc ∷ []);
  features_compliant =
      if fc.compliant then result.features_compliant + 1 else result.features_compliant;
  features_non_compliant =
      if fc.compliant then result.features_non_compliant else result.features_non_compliant + 1;
}

abbrev pub finished : DeviceCompliance → Bool → List ComplianceRow → Checked
finished result all_compliant written = record {
  result = record result { compliant = all_compliant };
  outcome = if all_compliant then compliant else non_compliant;
  written = written;
}

-- The counters of the run, by how a device ended.
abbrev pub count_device : Checked → ComplianceRunResult → ComplianceRunResult
count_device checked run = record run {
  devices_compliant = elim checked.outcome [
    | compliant ↦ run.devices_compliant + 1
    | _ ↦ run.devices_compliant
  ];
  devices_non_compliant = elim checked.outcome [
    | non_compliant ↦ run.devices_non_compliant + 1
    | _ ↦ run.devices_non_compliant
  ];
  devices_errored = elim checked.outcome [
    | errored ↦ run.devices_errored + 1
    | _ ↦ run.devices_errored
  ];
  results = run.results ++ (checked.result ∷ []);
}

module _ (lib : Libraries) (graph : Graph) (run_id : String) where
  -- What a rule finds on a device.
  unfoldable pub check_rule :
      String → String → Device → ComplianceRule → Result String FeatureCompliance
  check_rule backup intended device rule =
      let match_config = get_or "" rule.match_config in
      let config_type = get_or "cli" rule.config_type in
      extract_feature_config lib backup match_config config_type >>= λ actual_section.
      (extract_feature_config lib intended match_config config_type >>= λ intended_section.
      let fc =
        compute_compliance lib actual_section intended_section config_type
          (get_or false rule.config_ordered) in
      let told = record fc {
        feature_name = get_or "" rule.feature_name;
        rule_name = get_or "" rule.name;
      } in
      ok (
        if get_or true rule.enable_remediation && not told.compliant
        then record told { remediation = generate_remediation lib told rule device }
        else told))

  abbrev pub row_of : DeviceCompliance → FeatureCompliance → ComplianceRow
  row_of result fc = record {
    device_id = result.device_id;
    device_hostname = result.device_hostname;
    run_id = run_id;
    compliance = fc;
  }

  -- The loop over the rules, with what is written and the flag `all_compliant` so far.
  unfoldable pub check_rules :
      String
      → String
      → Device
      → List ComplianceRule
      → DeviceCompliance
      → Bool
      → List ComplianceRow
      → Checked
  check_rules backup intended device [] result all_compliant written =
      finished result all_compliant written
  check_rules backup intended device (rule ∷ rules) result all_compliant written =
      elim (check_rule backup intended device rule) [
        | raised e ↦ failed result written e
        | ok fc ↦
            let told = add_feature fc result in
            let row = row_of result fc in
            elim (graph.write row) [
              | raised e ↦ failed told written e
              | ok done ↦
                  check_rules backup intended device rules told
                    (if fc.compliant then all_compliant else false) (written ++ (row ∷ []))
            ]
      ]

  -- The rules of the platform, once both configurations are there.
  unfoldable pub check_configs : String → String → Device → DeviceCompliance → Checked
  check_configs backup intended device result =
      elim (graph.rules_for_platform result.platform_slug) [
        | raised e ↦ failed result [] e
        | ok rules ↦
            if is_empty rules
            then failed result []
                ("No compliance rules for platform " <> get_or "None" result.platform_slug)
            else check_rules backup intended device rules
                (record result { features_total = length rules }) true []
      ]

  unfoldable pub check_found : Device → DeviceCompliance → Checked
  check_found device result = elim (graph.backup_config result.device_id) [
    | raised e ↦ failed result [] e
    | ok backup ↦ elim (graph.intended_config result.device_id) [
      | raised e ↦ failed result [] e
      | ok intended ↦
          if not (is_given backup)
          then failed result [] "No backup config available — run backup first"
          else if not (is_given intended)
          then failed result [] "No intended config available — run intended generation first"
          else check_configs (get_or "" backup) (get_or "" intended) device result
    ]
  ]

  -- One pass of the loop over the devices.
  unfoldable pub check_device : String → Checked
  check_device id = elim (graph.device id) [
    | raised e ↦ failed (blank_device id) [] e
    | ok none ↦ failed (blank_device id) [] "Device not found"
    | ok (some device) ↦ check_found device (record (blank_device id) {
      device_hostname = get_or "" device.hostname;
      platform_slug = device.platform_slug;
    })
  ]

  unfoldable pub check_devices :
      List String
      → ComplianceRunResult
      → List ComplianceRow
      → ComplianceRunResult × List ComplianceRow
  check_devices [] run written = (run, written)
  check_devices (id ∷ ids) run written =
      let checked = check_device id in
      check_devices ids (count_device checked run) (written ++ checked.written)

  unfoldable pub run_compliance : List String → ComplianceRunResult × List ComplianceRow
  run_compliance device_ids =
      check_devices device_ids
        (record {
          run_id = run_id;
          devices_attempted = length device_ids;
          devices_compliant = 0;
          devices_non_compliant = 0;
          devices_errored = 0;
          results = [];
        })
        []
