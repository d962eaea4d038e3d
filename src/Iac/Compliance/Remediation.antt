-- ===== src/Iac/Compliance/Remediation.antt =====
-- packages/iac/compliance.py: `generate_remediation`, `extract_feature_config` and
-- `compute_compliance`.
use net_graphy.Prelude.{
  String, ◌<>◌, Bool, true, false, Option, none, some, is_blank, Result, ok, raised, if◌then◌else◌,
  ◌==◌,
}
use net_graphy.Iac.Compliance.{FeatureCompliance, ComplianceRule, Device, Libraries, no_summary}
use net_graphy.Iac.Compliance.Sections.{extract_cli_feature}
use net_graphy.Iac.Compliance.Lines.{compare_cli}
use net_graphy.Iac.Compliance.Json.{extract_json_feature, compare_json}

-- `rule.get(key, default)`
abbrev pub get_or {ℓ} : {A : Type ℓ} → A → Option A → A
get_or default none = default
get_or default (some a) = a

module _ (lib : Libraries) where
  unfoldable pub extract_feature_config : String → String → String → Result String String
  extract_feature_config full_config match_config config_type =
      if config_type == "json"
      then extract_json_feature lib full_config match_config
      else ok (extract_cli_feature lib full_config match_config)

  abbrev pub new_feature : String → String → FeatureCompliance
  new_feature actual intended = record {
    feature_name = "";
    rule_name = "";
    compliant = false;
    actual_config = actual;
    intended_config = intended;
    missing = "";
    extra = "";
    remediation = "";
    ordered = true;
    diff_summary = no_summary;
  }

  unfoldable pub compute_compliance : String → String → String → Bool → FeatureCompliance
  compute_compliance actual intended config_type ordered =
      if config_type == "json"
      then compare_json lib (new_feature actual intended) actual intended ordered
      else compare_cli lib (new_feature actual intended) actual intended ordered

  abbrev rendered : Result String String → String
  rendered (ok text) = text
  rendered (raised e) = "! Remediation template error: " <> e

  unfoldable pub generate_remediation : FeatureCompliance → ComplianceRule → Device → String
  generate_remediation compliance rule device =
      let kind = get_or "intended_deploy" rule.remediation_type in
      let template = get_or "" rule.remediation_template in
      if compliance.compliant
      then ""
      else if kind == "intended_deploy"
      then compliance.intended_config
      else if kind == "custom_template"
      then (if is_blank template
          then compliance.intended_config
          else rendered (lib.resolve_template template device compliance))
      else if kind == "manual"
      then ""
      else compliance.intended_config
