-- ===== src/Iac/Compliance/Run/Rules.antt =====
-- What the loop over the rules of `run_compliance` keeps.
use net_graphy.Prelude.{
  ℕ, ◌+◌, String, ◌≡◌, inl, inr, refl, sym, subst, ◌∙◌, ap, Bool, true, false, not, List, [], ◌∷◌,
  ◌++◌, length, length-append, map, keep, keep-append, is_empty, arith, ok, raised, Result-cases,
  if◌then◌else◌, ◌≤◌, All, All-append, append-nil,
}
use net_graphy.Iac.Compliance.{
  FeatureCompliance, DeviceCompliance, ComplianceRule, Device, Libraries,
}
use net_graphy.Iac.Compliance.Run.{
  Graph, ComplianceRow, Checked, compliant, non_compliant, errored, failed, finished, add_feature,
  check_rule, row_of, check_rules,
}

abbrev pub good : List FeatureCompliance → List FeatureCompliance
good = keep (λ fc. fc.compliant)

abbrev pub bad : List FeatureCompliance → List FeatureCompliance
bad = keep (λ fc. not fc.compliant)

-- The counters of a device are the numbers of its features of either verdict.
abbrev pub IsTallied : DeviceCompliance → Type 0
IsTallied d =
    (d.features_compliant ≡ length (good d.features))
    × (d.features_non_compliant ≡ length (bad d.features))

-- Every rule has its feature, each feature is written, and the device is compliant when no feature
-- is not.
abbrev pub IsComplete : Bool → Checked → Type 0
IsComplete verdict c =
    (c.result.compliant ≡ verdict)
    × ((verdict ≡ is_empty (bad c.result.features))
        × ((c.result.features_total ≡ length c.result.features)
            × (map (λ row. row.compliance) c.written ≡ c.result.features)))

-- What is written names the run and the device.
abbrev pub IsRowOf : String → DeviceCompliance → ComplianceRow → Type 0
IsRowOf run_id d row =
    (row.run_id ≡ run_id)
    × ((row.device_id ≡ d.device_id) × (row.device_hostname ≡ d.device_hostname))

-- The features are those written, in order, and at most one more, whose write has raised.
abbrev pub IsCut : Checked → Type 0
IsCut c =
    (unwritten : List FeatureCompliance) × (c.result.features
      ≡ map (λ row. row.compliance) c.written ++ unwritten)
    × (length unwritten ≤ 1)

abbrev pub IsSound : String → String → Checked → Type 0
IsSound run_id id c =
    (c.result.device_id ≡ id)
    × (IsTallied c.result
        × (All (IsRowOf run_id c.result) c.written × elim c.outcome [
          | compliant ↦ IsComplete true c
          | non_compliant ↦ IsComplete false c
          | errored ↦ (c.result.compliant ≡ true) × IsCut c
        ]))

pub add_feature-IsTallied :
    (fc : FeatureCompliance) (d : DeviceCompliance) → IsTallied d → IsTallied (add_feature fc d)
add_feature-IsTallied fc d h = (
  rw
      (
        keep-append (λ f. f.compliant) d.features (fc ∷ []),
        length-append (good d.features) (good (fc ∷ [])),
        sym h.0,
      )
      (counted fc.compliant d.features_compliant),
  rw
      (
        keep-append (λ f. not f.compliant) d.features (fc ∷ []),
        length-append (bad d.features) (bad (fc ∷ [])),
        sym h.1,
      )
      (counted_out fc.compliant d.features_non_compliant),
)
  where
    counted : (b : Bool) (n : ℕ) → (if b then n + 1 else n) ≡ n + length (if b then fc ∷ [] else [])
    counted true n = omega arith
    counted false n = omega arith

    counted_out :
        (b : Bool) (n : ℕ) → (if b then n else n + 1) ≡ n + length (if not b then fc ∷ [] else [])
    counted_out true n = omega arith
    counted_out false n = omega arith

pub map-last {ℓ} :
    {A B : Type ℓ} (f : A → B) (xs : List A) (x : A)
    → map f (xs ++ (x ∷ [])) ≡ map f xs ++ (f x ∷ [])
map-last f [] x = refl
map-last f (y ∷ xs) x = ap (λ ys. f y ∷ ys) (map-last f xs x)

pub finished-IsSound :
    (run_id : String) (d : DeviceCompliance) (all : Bool) (written : List ComplianceRow)
    → All (IsRowOf run_id d) written
    → IsTallied d
    → all ≡ is_empty (bad d.features)
    → d.features_total ≡ length d.features
    → map (λ row. row.compliance) written ≡ d.features
    → IsSound run_id d.device_id (finished d all written)
finished-IsSound run_id d true written rows t a n w = (refl, (t, (rows, (refl, (a, (n, w))))))
finished-IsSound run_id d false written rows t a n w = (refl, (t, (rows, (refl, (a, (n, w))))))

pub flag :
    (fc : FeatureCompliance) (features : List FeatureCompliance) (all : Bool)
    → all ≡ is_empty (bad features)
    → (if fc.compliant then all else false) ≡ is_empty (bad (features ++ (fc ∷ [])))
flag fc features all h =
    rw (keep-append (λ f. not f.compliant) features (fc ∷ []))
      (by_verdict fc.compliant (bad features) h)
  where
    by_verdict :
        (b : Bool) (out : List FeatureCompliance)
        → all ≡ is_empty out
        → (if b then all else false) ≡ is_empty (out ++ (if not b then fc ∷ [] else []))
    by_verdict true [] h = h
    by_verdict true (x ∷ xs) h = h
    by_verdict false [] h = refl
    by_verdict false (x ∷ xs) h = refl

module _ (lib : Libraries) (graph : Graph) (run_id : String) where
  module _ (backup intended : String) (device : Device) where
    pub check_rules-IsSound :
        (rules : List ComplianceRule) (d : DeviceCompliance) (all : Bool)
        (written : List ComplianceRow)
        → All (IsRowOf run_id d) written
        → d.compliant ≡ true
        → IsTallied d
        → all ≡ is_empty (bad d.features)
        → d.features_total ≡ length d.features + length rules
        → map (λ row. row.compliance) written ≡ d.features
        → IsSound run_id d.device_id
            (check_rules lib graph run_id backup intended device rules d all written)
    unfolding check_rules
    check_rules-IsSound [] d all written rows c t a n w =
        finished-IsSound run_id d all written rows t a (omega (arith, n)) w
    check_rules-IsSound (rule ∷ rules) d all written rows c t a n w =
        elim (Result-cases (check_rule lib graph run_id backup intended device rule)) [
          | inr (e, r) ↦
              subst (IsSound run_id d.device_id) (sym (rule_raises r))
                (refl, (t, (rows, (c, ([], rw w (sym (append-nil d.features)), omega arith)))))
          | inl (fc, r) ↦
              let tallied = add_feature-IsTallied fc d t in
              elim (Result-cases (graph.write (row_of lib graph run_id d fc))) [
                | inr (e, q) ↦
                    subst (IsSound run_id d.device_id) (sym (write_raises r q))
                      (refl, (tallied, (rows, (c, (fc ∷ [], rw w refl, omega arith)))))
                | inl (done, q) ↦ subst (IsSound run_id d.device_id) (sym (rule_done r q)) (
                    check_rules-IsSound rules (add_feature fc d) _ _
                      (All-append (IsRowOf run_id d) written (row_of lib graph run_id d fc ∷ [])
                        rows ((refl, (refl, refl)), tt))
                      c tallied (flag fc d.features all a)
                      (rw (length-append d.features (fc ∷ [])) (omega (arith, n)))
                      (map-last (λ row. row.compliance) written (row_of lib graph run_id d fc)
                        ∙ ap (λ fs. fs ++ (fc ∷ [])) w))
              ]
        ]
      where
        rule_raises :
            {e : String}
            → check_rule lib graph run_id backup intended device rule ≡ raised e
            → check_rules lib graph run_id backup intended device (rule ∷ rules) d all written
              ≡ failed d written e
        rule_raises r = rw (check_rules, r) refl

        write_raises :
            {e : String} {fc : FeatureCompliance}
            → check_rule lib graph run_id backup intended device rule ≡ ok fc
            → graph.write (row_of lib graph run_id d fc) ≡ raised e
            → check_rules lib graph run_id backup intended device (rule ∷ rules) d all written
              ≡ failed (add_feature fc d) written e
        write_raises r q = rw (check_rules, r, q) refl

        rule_done :
            {fc : FeatureCompliance} {done : Unit}
            → check_rule lib graph run_id backup intended device rule ≡ ok fc
            → graph.write (row_of lib graph run_id d fc) ≡ ok done
            → check_rules lib graph run_id backup intended device (rule ∷ rules) d all written
              ≡ check_rules lib graph run_id backup intended device rules
                  (add_feature fc d)
                  (if fc.compliant then all else false)
                  (written ++ (row_of lib graph run_id d fc ∷ []))
        rule_done r q = rw (check_rules, r, q) refl
