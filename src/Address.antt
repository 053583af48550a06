-- ===== src/Address.antt =====
-- Solana addresses and transaction signatures in base58 (gridraft/security.py and the check of a
-- signature in gridraft/token_audit.py). A text is read by the codes of its characters, and bytes are
-- numbers below 256.
pub mod Decoded
use mathlib.Core.Option
use slipvolt.Base.{
  ℕ, zero, suc, ◌+◌, ◌-◌, ◌*◌, ◌/◌, ◌%◌, String, Bool, true, false, not, ◌&&◌, ◌||◌, Option, none,
  some, List, [], ◌∷◌, ◌++◌, ltb, leb, ◌==◌, if◌then◌else◌, length, replicate, map,
}
use slipvolt.Base.Result.{Result, ok, err, value_error, ◌>>=◌, ◌>>◌, raise_if, or_raise}
use slipvolt.Value.{Value, str}
use slipvolt.Host.{len}
use slipvolt.Burn.{codes}

abbrev pub alphabet : List ℕ
alphabet = codes "123456789ABCDEFGHJKLMNPQRSTUVWXYZabcdefghijkmnopqrstuvwxyz"

-- `ALPHABET.index(char)`, and `none` where `char not in ALPHABET`
unfoldable pub index : ℕ → List ℕ → Option ℕ
index c [] = none
index c (a ∷ rest) = if a == c then some 0 else Option.map suc (index c rest)

-- The loop over the characters.
unfoldable pub base58 : ℕ → List ℕ → Option ℕ
base58 n [] = some n
base58 n (c ∷ cs) = elim (index c alphabet) [ none ↦ none | some d ↦ base58 (n * 58 + d) cs ]

-- `value.lstrip('1')`
abbrev pub lstrip : List ℕ → List ℕ
lstrip [] = []
lstrip (c ∷ cs) = let rest = lstrip cs in if c == 49 then rest else c ∷ cs

-- One bit for each halving before 0 is reached; `n` halvings are more than enough.
unfoldable pub halvings : ℕ → ℕ → ℕ
halvings zero n = 0
halvings (suc rounds) zero = 0
halvings (suc rounds) (suc n) = suc (halvings rounds (suc n / 2))

-- `n.bit_length()`
unfoldable pub bit_length : ℕ → ℕ
bit_length n = halvings n n

-- `n.to_bytes(size, 'big')`, where `size` is enough
unfoldable pub to_bytes : ℕ → ℕ → List ℕ
to_bytes n zero = []
to_bytes n (suc size) = to_bytes (n / 256) size ++ n % 256 ∷ []

-- The zero bytes for the leading ones, and the bytes of the number.
unfoldable pub raw_bytes : List ℕ → ℕ → List ℕ
raw_bytes cs n = replicate (length cs - length (lstrip cs)) 0 ++ to_bytes n ((bit_length n + 7) / 8)

unfoldable pub decode_codes : List ℕ → Result (List ℕ)
decode_codes cs = do
  n ← or_raise (base58 0 cs) "Invalid Solana address"
  raise_if (not (length (raw_bytes cs n) == 32)) "Solana addresses must decode to 32 bytes"
  ok (raw_bytes cs n)

-- `decode_address(value)`
unfoldable pub decode_address : Value → Result (List ℕ)
decode_address (str value) = do
  raise_if (not (leb 32 (len value) && leb (len value) 44)) "Invalid Solana address"
  decode_codes (codes value)
decode_address _ = err (value_error "Invalid Solana address")

-- `size` of a signature: the bytes that it decodes to
unfoldable pub signature_size : List ℕ → ℕ → ℕ
signature_size cs n = length cs - length (lstrip cs) + (bit_length n + 7) / 8

-- `validate_signature(value)`
unfoldable pub validate_signature : Value → Result String
validate_signature (str value) = do
  raise_if (not (leb 64 (len value) && leb (len value) 88)) "Invalid transaction signature"
  n ← or_raise (base58 0 (codes value)) "Invalid transaction signature"
  raise_if (not (signature_size (codes value) n == 64))
      "Transaction signature must decode to 64 bytes"
  ok value
validate_signature _ = err (value_error "Invalid transaction signature")
