-- ===== src/Iac/Tests.antt =====
-- Compliance at concrete configurations.
use net_graphy.Prelude.{
  String, ◌≡◌, ◌↔◌, refl, true, false, none, some, [], ◌∷◌, ok, map, ◌==◌, if◌then◌else◌,
  starts_with,
}
use net_graphy.Prelude.Spaces.{splitlines, lines_from, ends_line, lstrip, is_space, text_length}
use net_graphy.Value.{Value, dict, end, field, null, bool, int, pos}
use net_graphy.Value.Equality.{truthy, value_eq}
use net_graphy.Iac.Compliance.{Libraries, ComplianceRule}
use net_graphy.Iac.Compliance.Sections.{extract_lines, step, opens}
use net_graphy.Iac.Compliance.Sections.Laws.{Extracted, extract_lines-Extracted}
use net_graphy.Iac.Compliance.Lines.{compare_cli, significant_lines}
use net_graphy.Iac.Compliance.Lines.Laws.{SameLines, compare_cli-compliant}
use net_graphy.Iac.Compliance.Json.{
  json_diff, compare_json, load_or_empty, has_field, fields_outside,
}
use net_graphy.Value.Numbers.{less_than}
use net_graphy.Iac.Compliance.Json.Laws.{compare_json-keys}
use net_graphy.Iac.Compliance.Remediation.{new_feature}
use net_graphy.Iac.Compliance.Run.{Graph, check_device, run_compliance}
use net_graphy.Iac.Compliance.Run.Devices.{check_device-IsSound}
use net_graphy.Iac.Compliance.Run.Rules.{IsSound}
use net_graphy.Iac.Compliance.Run.Counts.{total, run_compliance-total}

-- `{"vlan": 10}` is the only JSON text that this stand-in reads.
abbrev vlan : Value
vlan = dict (field "vlan" (int (pos 10)) end)

abbrev libs : Libraries
libs = record {
  matches = λ pattern s. pattern == s;
  loads = λ text. if text == "{\"vlan\": 10}" then some vlan else none;
  dumps = λ v. "{...}";
  dumps_sorted = λ v. "{...}";
  unified_diff = λ actual intended. "differs";
  resolve_template = λ template device found. ok template;
}

abbrev running : String
running =
    "hostname core1\nntp server 10.0.0.1\ninterface Gi0/1\n description uplink\n!\nsnmp-server x"

ntp_and_interfaces :
    extract_lines libs ("ntp" ∷ "interface" ∷ []) none (splitlines running)
    ≡ "ntp server 10.0.0.1" ∷ "interface Gi0/1" ∷ " description uplink" ∷ "!" ∷ []
unfolding extract_lines step opens splitlines lines_from ends_line lstrip is_space text_length
    starts_with
ntp_and_interfaces = refl

extract_lines-Extracted_example :
    Extracted libs
      ("interface" ∷ [])
      []
      ("interface Gi0/1" ∷ " description uplink" ∷ "snmp-server x" ∷ [])
      ("interface Gi0/1" ∷ " description uplink" ∷ [])
unfolding extract_lines step opens lstrip is_space text_length starts_with
extract_lines-Extracted_example =
    extract_lines-Extracted libs ("interface" ∷ [])
      ("interface Gi0/1" ∷ " description uplink" ∷ "snmp-server x" ∷ [])

compare_cli-compliant_example :
    ((compare_cli libs (new_feature libs "a\nb" "b\na") "a\nb" "b\na" true).compliant ≡ true) ↔ (
      SameLines (significant_lines "a\nb") (significant_lines "b\na")
      × (true ≡ true → significant_lines "a\nb" ≡ significant_lines "b\na"))
compare_cli-compliant_example =
    compare_cli-compliant libs (new_feature libs "a\nb" "b\na") "a\nb" "b\na" true

compare_json-keys_example :
    has_field "vlan" (field "vlan" (int (pos 10)) end)
    ≡ has_field "vlan" (field "vlan" (int (pos 10)) end)
unfolding load_or_empty compare_json json_diff truthy value_eq less_than fields_outside
compare_json-keys_example =
    compare_json-keys libs (new_feature libs "{\"vlan\": 10}" "{\"vlan\": 10}") "{\"vlan\": 10}"
      "{\"vlan\": 10}" false "vlan" (field "vlan" (int (pos 10)) end)
      (field "vlan" (int (pos 10)) end) refl refl refl

-- A null that is intended and a false that is there differ, and neither is reported.
null_and_false :
    (value_eq null (bool false) ≡ false)
    × (json_diff (dict (field "shutdown" null end)) (dict (field "shutdown" (bool false) end))
        ≡ (dict end, dict end))
unfolding json_diff value_eq truthy fields_outside
null_and_false = (refl, refl)

abbrev ntp_rule : ComplianceRule
ntp_rule = record {
  name = some "ntp";
  feature_name = some "ntp";
  match_config = some "ntp";
  config_type = none;
  config_ordered = none;
  enable_remediation = none;
  remediation_type = none;
  remediation_template = none;
}

abbrev graph : Graph
graph = record {
  device = λ id.
      if id == "d1"
      then ok (some (record { hostname = some "core1"; platform_slug = some "ios" }))
      else ok none;
  backup_config = λ id. ok (some running);
  intended_config = λ id. ok (some "ntp server 10.0.0.2");
  rules_for_platform = λ slug. ok (ntp_rule ∷ []);
  write = λ row. ok tt;
}

check_device-IsSound_example : IsSound "run" "d1" (check_device libs graph "run" "d1")
check_device-IsSound_example = check_device-IsSound libs graph "run" "d1"

run_compliance-total_example :
    (map (λ d. d.device_id) (run_compliance libs graph "run" ("d1" ∷ "d2" ∷ [])).0.results
      ≡ "d1" ∷ "d2" ∷ [])
    × (((run_compliance libs graph "run" ("d1" ∷ "d2" ∷ [])).0.devices_attempted ≡ 2)
        × (total (run_compliance libs graph "run" ("d1" ∷ "d2" ∷ [])).0
            ≡ (run_compliance libs graph "run" ("d1" ∷ "d2" ∷ [])).0.devices_attempted))
run_compliance-total_example = run_compliance-total libs graph "run" ("d1" ∷ "d2" ∷ [])
