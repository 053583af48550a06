-- ===== src/Decimal.antt =====
-- Python's `str(n)` of an int that is not negative, which the receipts use for token amounts.
pub mod RoundTrip
use Prim.Native.Char.{Char, char, IsScalar}
use Prim.Native.String.{[] as empty_text, ◌∷◌ as ◌∷ₛ◌}
use slipvolt.Base.{ℕ, zero, suc, ◌+◌, ◌/◌, ◌%◌, ◌<◌, String, arith}

IsScalar-of_small : (n : ℕ) → n < 1000 → IsScalar n
IsScalar-of_small n h = ground arith

pub digit-IsScalar : (n : ℕ) → IsScalar (48 + n % 10)
digit-IsScalar n = IsScalar-of_small (48 + n % 10) (omega arith)

-- The character of the last digit of `n`.
abbrev pub digit : ℕ → Char
digit n = char (48 + n % 10) (digit-IsScalar n)

-- The digits of `n` before `tail`. A round writes the last one; `n` rounds are more than enough.
unfoldable pub shown : ℕ → ℕ → String → String
shown zero n tail = digit n ∷ₛ tail
shown (suc rounds) n tail = elim (n / 10) [
  | zero ↦ digit n ∷ₛ tail
  | suc m ↦ shown rounds (suc m) (digit n ∷ₛ tail)
]

-- `str(n)`
unfoldable pub decimal : ℕ → String
decimal n = shown n n ""
