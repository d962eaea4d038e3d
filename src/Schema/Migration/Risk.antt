-- ===== src/Schema/Migration/Risk.antt =====
-- The risk of a migration plan.
use net_graphy.Prelude.{
  ℕ, String, ◌<>◌, ◌≡◌, refl, ◌∙◌, ap, List, [], ◌∷◌, each, ltb, arith, if◌then◌else◌, Bool, ◌++◌,
  map, keep, nat_eq,
}
use net_graphy.Schema.Models.{RiskLevel, safe, cautious, dangerous, SchemaChange}
use net_graphy.Schema.Migration.{raise_risk, max_risk, generate_migration_plan, warning}

-- The order of the risks.
abbrev pub rank : RiskLevel → ℕ
rank safe = 0
rank cautious = 1
rank dangerous = 2

abbrev pub max : ℕ → ℕ → ℕ
max a b = if ltb a b then b else a

abbrev pub greatest : List SchemaChange → ℕ
greatest [] = 0
greatest (change ∷ changes) = max (rank change.risk_level) (greatest changes)

rank-raise_risk : (r most : RiskLevel) → rank (raise_risk r most) ≡ max (rank r) (rank most)
rank-raise_risk safe safe = refl
rank-raise_risk safe cautious = refl
rank-raise_risk safe dangerous = refl
rank-raise_risk cautious safe = refl
rank-raise_risk cautious cautious = refl
rank-raise_risk cautious dangerous = refl
rank-raise_risk dangerous safe = refl
rank-raise_risk dangerous cautious = refl
rank-raise_risk dangerous dangerous = refl

zero_max : (b : ℕ) → b ≡ max 0 b
zero_max b = ground arith

max_zero : (b : ℕ) → max b 0 ≡ b
max_zero b = ground arith

max_move : (a b c : ℕ) → max c (max a b) ≡ max (max a c) b
max_move a b c = ground arith

rank-max_risk :
    (most : RiskLevel) (changes : List SchemaChange)
    → rank (max_risk most changes) ≡ max (greatest changes) (rank most)
unfolding max_risk
rank-max_risk most [] = zero_max (rank most)
rank-max_risk most (change ∷ changes) =
    rank-max_risk (raise_risk change.risk_level most) changes
    ∙ (ap (max (greatest changes)) (rank-raise_risk change.risk_level most)
        ∙ max_move (rank change.risk_level) (rank most) (greatest changes))

abbrev pub is_dangerous : SchemaChange → Bool
is_dangerous change = nat_eq (rank change.risk_level) 2

warnings-dangerous :
    (changes : List SchemaChange)
    → each warning changes
      ≡ map (λ change. "DANGEROUS: " <> change.description) (keep is_dangerous changes)
unfolding each
warnings-dangerous [] = refl
warnings-dangerous (change ∷ changes) =
    by_risk change.risk_level change.description (warnings-dangerous changes)
  where
    told : SchemaChange → String
    told c = "DANGEROUS: " <> c.description

    by_risk :
        (r : RiskLevel) (description : String)
        → each warning changes ≡ map told (keep is_dangerous changes)
        → (elim r [ dangerous ↦ ("DANGEROUS: " <> description) ∷ [] | _ ↦ [] ])
            ++ each warning changes
          ≡ map told (
              if nat_eq (rank r) 2
              then record change { risk_level = r; description = description }
                ∷ keep is_dangerous changes
              else keep is_dangerous changes)
    by_risk safe description e = e
    by_risk cautious description e = e
    by_risk dangerous description e = ap (λ ws. ("DANGEROUS: " <> description) ∷ ws) e

-- The risk of a plan is the greatest risk of its changes, safe where there are none. Its warnings
-- are one for each dangerous change, in the order of the changes, with the description of the change.
pub generate_migration_plan-risk_level :
    (changes : List SchemaChange)
    → (rank (generate_migration_plan changes).risk_level ≡ greatest changes)
      × ((generate_migration_plan changes).warnings
          ≡ map (λ change. "DANGEROUS: " <> change.description) (keep is_dangerous changes))
unfolding generate_migration_plan
generate_migration_plan-risk_level changes =
    (rank-max_risk safe changes ∙ max_zero (greatest changes), warnings-dangerous changes)
