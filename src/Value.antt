-- ===== src/Value.antt =====
-- Python values as JSON gives them, and the readers that the ledgers share: `isinstance`, `dict.get`
-- and `integer` (gridraft/membership.py). A dict has each key once; `get` reads the first.
use slipvolt.Base.{
  ℕ, ◌≡◌, ◌≤◌, String, Bool, true, false, ◌&&◌, Option, none, some, List, [], ◌∷◌, ◌^◌, arith, leb,
  if◌then◌else◌, str_eq,
}
use slipvolt.Base.Int.{ℤ, pos}
use slipvolt.Base.Result.{Result, ok, err, value_error}

-- `float` keeps the bits of a double: no model function reads them.
mutual
  pub data Value : Type 0 where
    null : Value
    bool : Bool → Value
    int : ℤ → Value
    float : ℕ → Value
    str : String → Value
    arr : Items → Value
    obj : Fields → Value

  pub data Fields : Type 0 where
    end : Fields
    field : String → Value → Fields → Fields

  pub data Items : Type 0 where
    nil : Items
    cons : Value → Items → Items

-- `key in d` and `d[key]`.
unfoldable pub get? : String → Fields → Option Value
get? key end = none
get? key (field name value rest) = if str_eq name key then some value else get? key rest

abbrev pub or_null : Option Value → Value
or_null none = null
or_null (some v) = v

-- `d.get(key)`
unfoldable pub get : String → Fields → Value
unfolding get?
get key fields = or_null (get? key fields)

abbrev pub items : Items → List Value
items nil = []
items (cons v vs) = v ∷ items vs

-- `value is None`
abbrev pub is_null : Value → Bool
is_null null = true
is_null _ = false

-- The bound that `integer` has by default.
abbrev pub ceiling : ℕ
ceiling = 10 ^ 15

-- `integer(value, minimum, maximum)`: a Python int in the range. A bool is no `int` to `type`.
unfoldable pub integer : Value → ℕ → ℕ → Result ℕ
integer (int (pos n)) minimum maximum =
    if leb minimum n && leb n maximum then ok n else err (value_error "Invalid integer quantity")
integer _ minimum maximum = err (value_error "Invalid integer quantity")

-- An accepted quantity is the int that was given, and lies in the range.
pub integer_range :
    (v : Value) (minimum maximum n : ℕ)
    → integer v minimum maximum ≡ ok n
    → (v ≡ int (pos n)) × (minimum ≤ n) × (n ≤ maximum)
unfolding integer
integer_range null lo hi n h = ground arith
integer_range (int (pos m)) lo hi n h = ground arith
integer_range _ lo hi n h = ground arith
