-- ===== src/Query/Compiler/Params.antt =====
-- The parameters of the compiler: each gets a name of its own, and no value is overwritten.
use text.Mathlib.TextLemmas.{append_cancel_left}
use net_graphy.Prelude.{
  List, [], ◌∷◌, All, ℕ, ◌+◌, ◌≤◌, ◌<◌, String, ◌≡◌, refl, ap, true, inl, inr, none, some, arith,
  eq_iff, Bool-cases, Result, ok, raised, ◌>>=◌, ◌==◌,
}
use net_graphy.Prelude.Decimal.{show, show-injective}
use net_graphy.Prelude.Dict.{Dict, lookup, insert, lookup-insert, lookup-insert_self}
use net_graphy.Value.{Value, PyError, subscript}
use net_graphy.Query.Models.{FilterOperator}
use net_graphy.Query.Compiler.{
  CompilerState, param_name, next_param, bind_param, operator_to_cypher,
}

param_name-injective : (m n : ℕ) → (param_name m == param_name n) ≡ true → m ≡ n
unfolding param_name
param_name-injective m n h =
    show-injective m n (append_cancel_left "p" (show m) (show n) ((eq_iff _ _).0 h))

-- No name from the counter on is bound yet.
pub record IsFresh (s : CompilerState) : Type 0 where
  pub free : (n : ℕ) → s.param_counter ≤ n → lookup (param_name n) s.params ≡ none

-- What a step leaves: every binding that was there, and fresh names from the counter on.
pub record Kept (s t : CompilerState) : Type 0 where
  pub counted : s.param_counter ≤ t.param_counter
  pub keeps : (k : String) (v : Value) → lookup k s.params ≡ some v → lookup k t.params ≡ some v
  pub fresh : IsFresh t

pub Kept-refl : {s : CompilerState} → IsFresh s → Kept s s
Kept-refl h = record { counted = omega arith; keeps = λ k v e. e; fresh = h }

pub Kept-trans : {s t u : CompilerState} → Kept s t → Kept t u → Kept s u
Kept-trans a b = record {
  counted = omega arith;
  keeps = λ k v e. b.keeps k v (a.keeps k v e);
  fresh = b.fresh;
}

-- A state that agrees on the parameters.
pub Kept-same :
    {s t : CompilerState}
    → s.params ≡ t.params
    → s.param_counter ≤ t.param_counter
    → IsFresh s
    → Kept s t
Kept-same {s} {t} e c h = record {
  counted = c;
  keeps = λ k v q. rw (← e) q;
  fresh = record { free = λ n le. rw (← e) (h.free n (omega arith)) };
}

abbrev pub advanced : CompilerState → CompilerState
advanced s = record s { param_counter = s.param_counter + 1 }

-- A write under a name that was free is seen at that name only.
lookup-insert_free :
    (k name : String) (v w : Value) (d : Dict Value)
    → lookup name d ≡ none
    → lookup k d ≡ some w
    → lookup k (insert name v d) ≡ some w
lookup-insert_free k name v w d free e = elim (Bool-cases (name == k)) [
  | inl q ↦ absurd (cc (e, free, ap (λ x. lookup x d) ((eq_iff name k).0 q)))
  | inr q ↦ rw (lookup-insert, q) e
]

lookup-insert_later :
    (m n : ℕ) (v : Value) (d : Dict Value)
    → m < n
    → lookup (param_name n) d ≡ none
    → lookup (param_name n) (insert (param_name m) v d) ≡ none
lookup-insert_later m n v d lt e = elim (Bool-cases (param_name m == param_name n)) [
  | inl q ↦ absurd (omega (arith, param_name-injective m n q))
  | inr q ↦ rw (lookup-insert, q) e
]

pub bind-Kept :
    (s : CompilerState) (v : Value)
    → IsFresh s
    → Kept s (bind_param (param_name s.param_counter) v (advanced s))
bind-Kept s v h = record {
  counted = omega arith;
  keeps = λ k w e.
      lookup-insert_free k (param_name s.param_counter) v w s.params
        (h.free s.param_counter (omega arith)) e;
  fresh = record {
    free = λ n le.
        lookup-insert_later s.param_counter n v s.params (omega arith) (h.free n (omega arith));
  };
}

-- `a <= x <= b` binds its two ends to two names.
bind_two-Kept :
    (s : CompilerState) (v w : Value)
    → IsFresh s
    → Kept s (
        bind_param
          (param_name (s.param_counter + 1))
          w
          (bind_param (param_name s.param_counter) v (advanced (advanced s))))
bind_two-Kept s v w h =
    Kept-trans (bind-Kept s v h)
      (bind-Kept (bind_param (param_name s.param_counter) v (advanced s)) w (bind-Kept s v h).fresh)

-- A run that returns has kept the bindings.
abbrev pub Keeps : {A : Type 0} → CompilerState → Result PyError (A × CompilerState) → Type 0
Keeps s (ok (a, t)) = Kept s t
Keeps s (raised e) = Unit

pub Keeps-trans :
    {A : Type 0} {s t : CompilerState} (m : Result PyError (A × CompilerState))
    → Kept s t
    → Keeps t m
    → Keeps s m
Keeps-trans (ok (a, u)) p q = Kept-trans p q
Keeps-trans (raised e) p q = tt

pub Keeps-bind :
    {A B : Type 0} (s : CompilerState) (m : Result PyError (A × CompilerState))
    (f : A × CompilerState → Result PyError (B × CompilerState))
    → Keeps s m
    → ((a : A) (t : CompilerState) → IsFresh t → Keeps t (f (a, t)))
    → Keeps s (m >>= f)
Keeps-bind s (ok (a, t)) f h k = Keeps-trans (f (a, t)) h (k a t h.fresh)
Keeps-bind s (raised e) f h k = tt

between-Keeps :
    (low high : Result PyError Value) (text : String) (s : CompilerState)
    → IsFresh s
    → Keeps s (
        low >>= λ v. high >>= λ w. ok (
          text,
          bind_param
              (param_name (s.param_counter + 1))
              w
              (bind_param (param_name s.param_counter) v (advanced (advanced s))),
        ))
between-Keeps (ok v) (ok w) text s h = bind_two-Kept s v w h
between-Keeps (ok v) (raised e) text s h = tt
between-Keeps (raised e) high text s h = tt

pub operator-Keeps :
    (f : String) (op : FilterOperator) (v : Value) (s : CompilerState)
    → IsFresh s
    → Keeps s (operator_to_cypher f op v s)
unfolding operator_to_cypher next_param
operator-Keeps f FilterOperator.between v s h = between-Keeps (subscript v 0) (subscript v 1) _ s h
operator-Keeps f FilterOperator.is_null v s h = Kept-same refl (omega arith) h
operator-Keeps f FilterOperator.is_not_null v s h = Kept-same refl (omega arith) h
operator-Keeps f _ v s h = bind-Kept s v h

-- The two ends of a range, where it has both.
abbrev ends : Result PyError Value → Result PyError Value → List Value
ends (ok low) (ok high) = low ∷ high ∷ []
ends low high = []

-- The values that an operator compares with.
abbrev pub compared : FilterOperator → Value → List Value
compared FilterOperator.between v = ends (subscript v 0) (subscript v 1)
compared FilterOperator.is_null v = []
compared FilterOperator.is_not_null v = []
compared _ v = v ∷ []

abbrev pub IsBound : Dict Value → Value → Type 0
IsBound params v = (n : ℕ) × (lookup (param_name n) params ≡ some v)

-- A run that returns has bound the values.
abbrev pub Binds : {A : Type 0} → List Value → Result PyError (A × CompilerState) → Type 0
Binds vs (ok (a, t)) = All (IsBound t.params) vs
Binds vs (raised e) = Unit

pub Binds-nil : {A : Type 0} (m : Result PyError (A × CompilerState)) → Binds [] m
Binds-nil (ok (a, t)) = tt
Binds-nil (raised e) = tt

-- Binding the higher end keeps the lower one.
low_bound :
    (n : ℕ) (low high : Value) (d : Dict Value)
    → lookup (param_name n) (insert (param_name (n + 1)) high (insert (param_name n) low d))
      ≡ some low
low_bound n low high d = elim (Bool-cases (param_name (n + 1) == param_name n)) [
  | inl q ↦ absurd (omega (arith, param_name-injective (n + 1) n q))
  | inr q ↦ rw (lookup-insert, q) (lookup-insert_self (param_name n) low d)
]

between-Binds :
    (low high : Result PyError Value) (text : String) (s : CompilerState)
    → Binds (ends low high) (
        low >>= λ v. high >>= λ w. ok (
          text,
          bind_param
              (param_name (s.param_counter + 1))
              w
              (bind_param (param_name s.param_counter) v (advanced (advanced s))),
        ))
between-Binds (ok v) (ok w) text s = (
  (s.param_counter, low_bound s.param_counter v w s.params),
  ((s.param_counter + 1, lookup-insert_self (param_name (s.param_counter + 1)) w _), tt),
)
between-Binds (ok v) (raised e) text s = tt
between-Binds (raised e) high text s = tt

pub operator-Binds :
    (f : String) (op : FilterOperator) (v : Value) (s : CompilerState)
    → Binds (compared op v) (operator_to_cypher f op v s)
unfolding operator_to_cypher next_param
operator-Binds f FilterOperator.between v s = between-Binds (subscript v 0) (subscript v 1) _ s
operator-Binds f FilterOperator.is_null v s = tt
operator-Binds f FilterOperator.is_not_null v s = tt
operator-Binds f _ v s =
    ((s.param_counter, lookup-insert_self (param_name s.param_counter) v s.params), tt)
