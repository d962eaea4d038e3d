-- ===== src/Value.antt =====
-- The values of Python that reach the program from JSON and YAML, wherever the source says `Any`.
-- A float is the dyadic rational that it denotes, mantissa / 2 ^ scale; infinities and NaN are not
-- modelled.
pub mod Numbers
pub mod Equality
use net_graphy.Prelude.{ℕ, zero, suc, String, Bool, Result, ok, raised}

-- `negsuc n` is -(n + 1).
pub data ℤ : Type 0 where
  pos : ℕ → ℤ
  negsuc : ℕ → ℤ

mutual
  pub data Value : Type 0 where
    null : Value
    bool : Bool → Value
    int : ℤ → Value
    float : ℤ → ℕ → Value
    str : String → Value
    list : Items → Value
    dict : Fields → Value

  pub data Items : Type 0 where
    nil : Items
    cons : Value → Items → Items

  pub data Fields : Type 0 where
    end : Fields
    field : String → Value → Fields → Fields

-- What an expression over such values raises.
pub data PyError : Type 0 where
  type_error index_error key_error value_error attribute_error : PyError

unfoldable pub item_at : Items → ℕ → Result PyError Value
item_at nil i = raised index_error
item_at (cons v vs) zero = ok v
item_at (cons v vs) (suc i) = item_at vs i

unfoldable pub char_at : String → ℕ → Result PyError Value
char_at String.[] i = raised index_error
char_at (String.◌∷◌ c s) zero = ok (str (String.◌∷◌ c String.[]))
char_at (String.◌∷◌ c s) (suc i) = char_at s i

-- `value[i]` at an index that is not negative. The keys of a dictionary are texts.
unfoldable pub subscript : Value → ℕ → Result PyError Value
unfolding item_at char_at
subscript (list vs) i = item_at vs i
subscript (str s) i = char_at s i
subscript (dict d) i = raised key_error
subscript _ i = raised type_error
