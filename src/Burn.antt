-- ===== src/Burn.antt =====
-- Token amounts of the treasury's burn plan (gridraft/treasury_burn.py, `amount_to_raw`). A text is read
-- by the codes of its characters.
pub mod Exact
use Prim.Native.Char.{code}
use Prim.Native.String.{[] as empty_text, ◌∷◌ as ◌∷ₛ◌}
use slipvolt.Base.{
  ℕ, ◌+◌, ◌-◌, ◌*◌, ◌^◌, String, Bool, true, false, not, ◌&&◌, ◌||◌, Option, none, some, List, [],
  ◌∷◌, ◌++◌, ltb, leb, ◌==◌, if◌then◌else◌, length, replicate, all,
}
use slipvolt.Base.Int.{ℤ, pos}
use slipvolt.Base.Result.{Result, ok, err, value_error, ◌>>=◌, ◌>>◌, raise_if}
use slipvolt.Value.{Value, int, str}
use slipvolt.Host.{len}

abbrev pub codes : String → List ℕ
codes empty_text = []
codes (c ∷ₛ s) = code c ∷ codes s

-- `text.partition('.')`: what stands before the first point, and what stands after it if there is one
abbrev pub partition : List ℕ → List ℕ × Option (List ℕ)
partition [] = ([], none)
partition (c ∷ cs) =
    let rest = partition cs in if c == 46 then ([], some cs) else (c ∷ rest.0, rest.1)

-- [0-9]
abbrev pub is_digit : ℕ → Bool
is_digit c = leb 48 c && leb c 57

-- 0|[1-9][0-9]{0,19}
abbrev pub is_whole : List ℕ → Bool
is_whole [] = false
is_whole (c ∷ []) = is_digit c
is_whole (c ∷ d ∷ cs) = leb 49 c && leb c 57 && all is_digit (d ∷ cs) && leb (length (d ∷ cs)) 19

-- (?:\.[0-9]{1,18})?
abbrev pub is_fraction : Option (List ℕ) → Bool
is_fraction none = true
is_fraction (some f) = all is_digit f && leb 1 (length f) && leb (length f) 18

abbrev pub digits_of : Option (List ℕ) → List ℕ
digits_of none = []
digits_of (some f) = f

-- `int(digits)`, with digits before it; `int('' or '0')` is 0
abbrev pub value_after : ℕ → List ℕ → ℕ
value_after n [] = n
value_after n (c ∷ cs) = value_after (n * 10 + (c - 48)) cs

-- `fraction.ljust(decimals, '0')`
abbrev pub padded : List ℕ → ℕ → List ℕ
padded f decimals = f ++ replicate (decimals - length f) 48

abbrev pub u64_max : ℕ
u64_max = 2 ^ 64 - 1

-- The amount of a text that was split at its point.
unfoldable pub raw_of_parts : List ℕ × Option (List ℕ) → ℕ → Result ℕ
raw_of_parts (whole, fraction) decimals = do
  raise_if (not (is_whole whole && is_fraction fraction))
      "Use a plain positive decimal token amount"
  raise_if (ltb decimals (length (digits_of fraction))) "Amount exceeds token precision"
  let raw =
      value_after 0 whole * 10 ^ decimals + value_after 0 (padded (digits_of fraction) decimals)
  raise_if (not (ltb 0 raw && leb raw u64_max)) "Token amount is outside the u64 range"
  ok raw

unfoldable pub raw_of_text : String → ℕ → Result ℕ
raw_of_text text decimals = do
  raise_if (ltb 40 (len text)) "Use a plain positive decimal token amount"
  raw_of_parts (partition (codes text)) decimals

unfoldable pub raw_of_value : Value → ℕ → Result ℕ
raw_of_value (str text) decimals = raw_of_text text decimals
raw_of_value _ decimals = err (value_error "Use a plain positive decimal token amount")

-- `amount_to_raw(amount, decimals)`
unfoldable pub amount_to_raw : Value → Value → Result ℕ
amount_to_raw amount (int (ℤ.pos decimals)) =
    if leb decimals 18
    then raw_of_value amount decimals
    else err (value_error "Unsupported token precision")
amount_to_raw amount _ = err (value_error "Unsupported token precision")
