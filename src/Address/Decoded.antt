-- ===== src/Address/Decoded.antt =====
-- What an accepted address decodes to.
use native.Mathlib.Nat.{pow-zero, pow-suc}
use slipvolt.Base.{
  ℕ, zero, suc, ◌+◌, ◌-◌, ◌*◌, ◌/◌, ◌%◌, ◌^◌, ◌≤◌, ◌<◌, ◌≡◌, refl, sym, String, some, List, [], ◌∷◌,
  ◌++◌, arith, length, length-append, replicate, ap, ◌∙◌, All, All-append, not, ◌==◌,
}
use slipvolt.Base.Powers.{pow_two_mono, pow_bytes}
use slipvolt.Base.Result.{ok, or_raise, >>=-eq-ok, or_raise_found, raise_if-passed}
use slipvolt.Value.{str}
use slipvolt.Burn.{codes}
use slipvolt.Address.{
  base58, lstrip, halvings, bit_length, to_bytes, raw_bytes, decode_codes, decode_address,
}

-- `int.from_bytes(bytes, 'big')`, with the number before it
abbrev pub from_bytes : ℕ → List ℕ → ℕ
from_bytes n [] = n
from_bytes n (b ∷ bs) = from_bytes (n * 256 + b) bs

from_bytes-append :
    (n : ℕ) (xs : List ℕ) (b : ℕ) → from_bytes n (xs ++ b ∷ []) ≡ from_bytes n xs * 256 + b
from_bytes-append n [] b = refl
from_bytes-append n (x ∷ xs) b = from_bytes-append (n * 256 + x) xs b

from_bytes-replicate : (k : ℕ) (xs : List ℕ) → from_bytes 0 (replicate k 0 ++ xs) ≡ from_bytes 0 xs
from_bytes-replicate zero xs = refl
from_bytes-replicate (suc k) xs = from_bytes-replicate k xs

quotient_lt : (n p : ℕ) → n < p * 256 → n / 256 < p
quotient_lt n p h = omega (arith, h)

-- Enough bytes give the number back.
from_bytes-to_bytes : (n size : ℕ) → n < 256 ^ size → from_bytes 0 (to_bytes n size) ≡ n
unfolding to_bytes
from_bytes-to_bytes n zero h = omega (arith, h, pow-zero 256)
from_bytes-to_bytes n (suc size) h =
    let fits : n < 256 ^ size * 256 = rw (sym (pow-suc 256 size)) h in
    let shorter = from_bytes-to_bytes (n / 256) size (quotient_lt n (256 ^ size) fits) in
    grind (arith, from_bytes-append 0 (to_bytes (n / 256) size) (n % 256), shorter)

half_lt : (n p : ℕ) → n / 2 < p → n < p * 2
half_lt n p h = omega (arith, h)

halvings_enough : (rounds n : ℕ) → n ≤ rounds → n < 2 ^ halvings rounds n
unfolding halvings
halvings_enough zero n h = omega (arith, h, pow-zero 2)
halvings_enough (suc rounds) zero h = omega (arith, pow-zero 2)
halvings_enough (suc rounds) (suc n) h =
    let half = halvings_enough rounds (suc n / 2) (omega (arith, h)) in
    rw (pow-suc 2 (halvings rounds (suc n / 2)))
      (half_lt (suc n) (2 ^ halvings rounds (suc n / 2)) half)

-- The bytes that `n.bit_length()` asks for are enough.
bytes_enough : (n : ℕ) → n < 256 ^ ((bit_length n + 7) / 8)
unfolding bit_length
bytes_enough n =
    let bits = bit_length n in
    let size = (bits + 7) / 8 in
    omega (
      arith,
      halvings_enough n n (omega arith),
      pow_two_mono bits (8 * size) (omega arith),
      pow_bytes size,
    )

length-to_bytes : (n size : ℕ) → length (to_bytes n size) ≡ size
unfolding to_bytes
length-to_bytes n zero = refl
length-to_bytes n (suc size) =
    length-append (to_bytes (n / 256) size) (n % 256 ∷ [])
    ∙ omega (arith, length-to_bytes (n / 256) size)

abbrev pub AreBytes : List ℕ → Type 0
AreBytes = All (λ b. b < 256)

zeros-AreBytes : (k : ℕ) → AreBytes (replicate k 0)
zeros-AreBytes zero = tt
zeros-AreBytes (suc k) = (omega arith, zeros-AreBytes k)

to_bytes-AreBytes : (n size : ℕ) → AreBytes (to_bytes n size)
unfolding to_bytes
to_bytes-AreBytes n zero = tt
to_bytes-AreBytes n (suc size) =
    All-append (λ b. b < 256) (to_bytes (n / 256) size) (n % 256 ∷ [])
      (to_bytes-AreBytes (n / 256) size) (omega arith, tt)

-- What an accepted address is: 32 bytes that are, read as one number, the number the text writes in
-- base 58, with a zero byte in front for each leading 1.
pub record IsDecoded (text : String) (raw : List ℕ) : Type 0 where
  pub value : ℕ
  pub written : base58 0 (codes text) ≡ some value
  pub same : from_bytes 0 raw ≡ value
  pub size : length raw ≡ 32
  pub bytes : AreBytes raw
  pub ones :
      (rest : List ℕ) × (raw
        ≡ replicate (length (codes text) - length (lstrip (codes text))) 0 ++ rest)

raw_bytes-value : (cs : List ℕ) (n : ℕ) → from_bytes 0 (raw_bytes cs n) ≡ n
unfolding raw_bytes
raw_bytes-value cs n =
    from_bytes-replicate (length cs - length (lstrip cs)) (to_bytes n ((bit_length n + 7) / 8))
    ∙ from_bytes-to_bytes n ((bit_length n + 7) / 8) (bytes_enough n)

raw_bytes-AreBytes : (cs : List ℕ) (n : ℕ) → AreBytes (raw_bytes cs n)
unfolding raw_bytes
raw_bytes-AreBytes cs n =
    All-append (λ b. b < 256) (replicate (length cs - length (lstrip cs)) 0)
      (to_bytes n ((bit_length n + 7) / 8)) (zeros-AreBytes (length cs - length (lstrip cs)))
      (to_bytes-AreBytes n ((bit_length n + 7) / 8))

decode_codes_parts :
    (cs raw : List ℕ)
    → decode_codes cs ≡ ok raw
    → (n : ℕ) × (base58 0 cs ≡ some n) × (raw ≡ raw_bytes cs n) × (length raw ≡ 32)
unfolding decode_codes
decode_codes_parts cs raw e =
    let (n, found, rest) = >>=-eq-ok (or_raise (base58 0 cs) "Invalid Solana address") _ e in
    let (sized, last) =
      raise_if-passed (not (length (raw_bytes cs n) == 32)) _ (ok (raw_bytes cs n)) rest in
    let same : raw_bytes cs n ≡ raw = cc in
    (n, or_raise_found (base58 0 cs) _ found, sym same, rw (sym same) (ground arith))

-- An accepted address is 32 bytes which spell the number that the text writes in base 58, a zero
-- byte for each leading 1 in front of them.
pub decode_address-IsDecoded :
    (text : String) (raw : List ℕ) → decode_address (str text) ≡ ok raw → IsDecoded text raw
unfolding decode_address raw_bytes
decode_address-IsDecoded text raw e =
    let inner : decode_codes (codes text) ≡ ok raw = ground arith in
    let (n, written, parts, size) = decode_codes_parts (codes text) raw inner in
    record {
      value = n;
      written = written;
      same = ap (from_bytes 0) parts ∙ raw_bytes-value (codes text) n;
      size = size;
      bytes = rw parts (raw_bytes-AreBytes (codes text) n);
      ones = (to_bytes n ((bit_length n + 7) / 8), parts);
    }
