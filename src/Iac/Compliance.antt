-- ===== src/Iac/Compliance.antt =====
-- packages/iac/compliance.py: its data, and the libraries that it calls.
pub mod Sections
pub mod Lines
pub mod Json
pub mod Remediation
pub mod Run
use net_graphy.Prelude.{ℕ, String, Bool, true, false, Option, none, List, [], Result}
use net_graphy.Value.{Value}

-- The dictionary `diff_summary`: empty, of a comparison by lines with the text of its diff, or of a
-- comparison of JSON.
pub data DiffSummary : Type 0 where
  no_summary : DiffSummary
  line_counts : ℕ → ℕ → ℕ → ℕ → Option String → DiffSummary
  key_counts : ℕ → ℕ → DiffSummary

pub record FeatureCompliance : Type 0 where
  pub feature_name : String
  pub rule_name : String
  pub compliant : Bool
  pub actual_config : String
  pub intended_config : String
  pub missing : String
  pub extra : String
  pub remediation : String
  pub ordered : Bool
  pub diff_summary : DiffSummary

-- The platform is None for a device that runs none.
pub record DeviceCompliance : Type 0 where
  pub device_id : String
  pub device_hostname : String
  pub platform_slug : Option String
  pub compliant : Bool
  pub features : List FeatureCompliance
  pub features_compliant : ℕ
  pub features_non_compliant : ℕ
  pub features_total : ℕ
  pub error : String

-- The times of a run are left out.
pub record ComplianceRunResult : Type 0 where
  pub run_id : String
  pub devices_attempted : ℕ
  pub devices_compliant : ℕ
  pub devices_non_compliant : ℕ
  pub devices_errored : ℕ
  pub results : List DeviceCompliance

-- A rule is a dictionary from the graph, in which a key may be missing.
pub record ComplianceRule : Type 0 where
  pub name : Option String
  pub feature_name : Option String
  pub match_config : Option String
  pub config_type : Option String
  pub config_ordered : Option Bool
  pub enable_remediation : Option Bool
  pub remediation_type : Option String
  pub remediation_template : Option String

-- The properties of a device that compliance reads, and the graph's row of it.
pub record Device : Type 0 where
  pub hostname : Option String
  pub platform_slug : Option String

-- `re.match`, `json.loads` (none where it raises), `json.dumps` with an indent of two and with sorted
-- keys besides, the joined lines of `difflib.unified_diff`, and
-- Jinja on a template for a device and what was found, which may raise.
pub record Libraries : Type 0 where
  pub matches : String → String → Bool
  pub loads : String → Option Value
  pub dumps : Value → String
  pub dumps_sorted : Value → String
  pub unified_diff : String → String → String
  pub resolve_template : String → Device → FeatureCompliance → Result String String
