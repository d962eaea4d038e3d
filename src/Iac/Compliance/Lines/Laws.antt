-- ===== src/Iac/Compliance/Lines/Laws.antt =====
-- When two configurations are compliant line by line.
use net_graphy.Prelude.{
  true_iff, String, ◌≡◌, ◌↔◌, inl, inr, refl, sym, subst, Bool, true, false, ◌&&◌, ◌||◌, List, [],
  ◌∷◌, contains, is_empty, arith, eq_iff, if◌then◌else◌, ◌==◌, Bool-cases, &&-eq-true, ==_refl,
}
use net_graphy.Iac.Compliance.{FeatureCompliance, Libraries}
use net_graphy.Iac.Compliance.Lines.{
  significant_lines, insert_line, set_of, difference, same_lines, compare_cli,
}

contains-insert_line :
    (x line : String) (lines : List String)
    → contains x (insert_line line lines) ≡ (x == line || contains x lines)
unfolding contains insert_line
contains-insert_line x line [] = refl
contains-insert_line x line (l ∷ ls) =
    ground (arith, contains-insert_line x line ls, eq_iff line l, eq_iff x l, eq_iff x line)

contains-set_of : (x : String) (lines : List String) → contains x (set_of lines) ≡ contains x lines
unfolding contains set_of
contains-set_of x [] = refl
contains-set_of x (l ∷ ls) =
    ground (arith, contains-insert_line x l (set_of ls), contains-set_of x ls)

same_lines-eq : (xs ys : List String) → (same_lines xs ys ≡ true) ↔ (xs ≡ ys)
unfolding same_lines
same_lines-eq [] [] = (λ h. refl, λ h. refl)
same_lines-eq [] (y ∷ ys) = (λ h. cc, λ h. cc)
same_lines-eq (x ∷ xs) [] = (λ h. cc, λ h. cc)
same_lines-eq (x ∷ xs) (y ∷ ys) =
    let tests = &&-eq-true (x == y) (same_lines xs ys) in
    let rest = same_lines-eq xs ys in
    (
      λ h. cc ((eq_iff x y).0 (tests.0 h).0, rest.0 (tests.0 h).1),
      λ h. let (e, es) = cons-injective h in tests.1 ((eq_iff x y).1 e, rest.1 es),
    )
  where
    cons-injective : {x y : String} {xs ys : List String} → x ∷ xs ≡ y ∷ ys → (x ≡ y) × (xs ≡ ys)
    cons-injective h = (cc, cc)

abbrev IsWithin : List String → List String → Type 0
IsWithin a b = (x : String) → contains x a ≡ true → contains x b ≡ true

-- Nothing is missing where the one is within the other.
is_empty-difference : (a b : List String) → (is_empty (difference a b) ≡ true) ↔ IsWithin a b
unfolding contains difference
is_empty-difference [] b = (λ h x c. cc, λ h. refl)
is_empty-difference (l ∷ ls) b =
    let rest = is_empty-difference ls b in
    elim (Bool-cases (contains l b)) [
      | inl e ↦ (
        λ h x c. elim (Bool-cases (x == l)) [
          | inl same ↦ subst (λ y. contains y b ≡ true) (sym ((eq_iff x l).0 same)) e
          | inr differ ↦ rest.0 (rw e at h) x (rw differ at c)
        ],
        λ h. rw e (rest.1 (λ x c. h x (ground arith))),
      )
      | inr e ↦ (λ h. cc (rw e at h), λ h. cc (rw (h l (rw (==_refl l) refl)) at e))
    ]

-- The two have the same lines.
abbrev pub SameLines : List String → List String → Type 0
SameLines a b = (x : String) → contains x a ≡ contains x b

no_difference-SameLines :
    (a b : List String)
    → ((is_empty (difference (set_of b) (set_of a)) && is_empty (difference (set_of a) (set_of b)))
        ≡ true)
      ↔ SameLines a b
no_difference-SameLines a b =
    let tests =
      &&-eq-true (is_empty (difference (set_of b) (set_of a)))
        (is_empty (difference (set_of a) (set_of b))) in
    let missing = is_empty-difference (set_of b) (set_of a) in
    let extra = is_empty-difference (set_of a) (set_of b) in
    (
      λ h x.
          let intended_in = missing.0 (tests.0 h).0 x in
          let actual_in = extra.0 (tests.0 h).1 x in
          true_iff (contains x a) (contains x b)
            (rw (contains-set_of x a, contains-set_of x b) at actual_in)
            (rw (contains-set_of x a, contains-set_of x b) at intended_in),
      λ h. tests.1 (
        missing.1 (λ x c. cc (contains-set_of x a, contains-set_of x b, h x)),
        extra.1 (λ x c. cc (contains-set_of x a, contains-set_of x b, h x)),
      ),
    )

-- The verdict, from the comparison of the sets and that of the orders.
verdict :
    {P Q : Type 0} (ordered same in_order kept : Bool)
    → ((same ≡ true) ↔ P)
    → ((in_order ≡ true) ↔ Q)
    → ((if ordered && same then (if ordered && same then in_order else kept) else same) ≡ true)
      ↔ (P × (ordered ≡ true → Q))
verdict false same in_order kept p q = (λ h. (p.0 h, λ o. cc), λ h. p.1 h.0)
verdict true true in_order kept p q = (λ h. (p.0 refl, λ o. q.0 h), λ h. q.1 (h.1 refl))
verdict true false in_order kept p q = (λ h. cc, λ h. p.1 h.0)

-- Two configurations are compliant exactly when they have the same significant lines without
-- trailing white space, and, where the order counts, in the same order and as often.
pub compare_cli-compliant :
    (lib : Libraries) (result : FeatureCompliance) (actual intended : String) (ordered : Bool)
    → ((compare_cli lib result actual intended ordered).compliant ≡ true) ↔ (
        SameLines (significant_lines actual) (significant_lines intended)
        × (ordered ≡ true → significant_lines actual ≡ significant_lines intended))
unfolding compare_cli
compare_cli-compliant lib result actual intended ordered =
    verdict ordered _ _ result.ordered
      (no_difference-SameLines (significant_lines actual) (significant_lines intended))
      (same_lines-eq (significant_lines actual) (significant_lines intended))
