-- ===== src/Burn/Exact.antt =====
-- An amount is read exactly: no digit is rounded away.
use native.Mathlib.Nat.{pow-zero, pow-suc}
use slipvolt.Base.{
  ℕ, zero, suc, ◌+◌, ◌-◌, ◌*◌, ◌^◌, ◌≤◌, ◌<◌, ◌≡◌, refl, ap, ◌∙◌, String, true, Option, List, [],
  ◌∷◌, ◌++◌, arith, length, replicate,
}
use slipvolt.Base.Int.{pos}
use slipvolt.Base.Powers.{pow-add}
use slipvolt.Base.Result.{ok}
use slipvolt.Value.{int, str}
use slipvolt.Burn.{
  codes, partition, is_whole, is_fraction, digits_of, value_after, padded, u64_max, raw_of_parts,
  raw_of_text, raw_of_value, amount_to_raw,
}

value_after-append :
    (n : ℕ) (xs ys : List ℕ) → value_after n (xs ++ ys) ≡ value_after (value_after n xs) ys
value_after-append n [] ys = refl
value_after-append n (c ∷ xs) ys = value_after-append (n * 10 + (c - 48)) xs ys

shift : (n d p : ℕ) → (n * 10 + d) * p ≡ n * (p * 10) + d * p
shift n d p = grind arith

value_after-replicate : (n k : ℕ) → value_after n (replicate k 48) ≡ n * 10 ^ k
value_after-replicate n zero = grind (arith, pow-zero 10)
value_after-replicate n (suc k) =
    grind (arith, value_after-replicate (n * 10 + (48 - 48)) k, pow-suc 10 k, shift n 0 (10 ^ k))

value_after-length :
    (n : ℕ) (xs : List ℕ) → value_after n xs ≡ n * 10 ^ length xs + value_after 0 xs
value_after-length n [] = grind (arith, pow-zero 10)
value_after-length n (c ∷ xs) = grind (
  arith,
  value_after-length (n * 10 + (c - 48)) xs,
  value_after-length (0 * 10 + (c - 48)) xs,
  pow-suc 10 (length xs),
  shift n (c - 48) (10 ^ length xs),
)

scaled : (w f p q : ℕ) → (w * (p * q) + f * q) * p ≡ (w * p + f) * (p * q)
scaled w f p q = grind arith

-- Padding a fraction scales it.
value_after-padded :
    (f : List ℕ) (decimals : ℕ)
    → value_after 0 (padded f decimals) ≡ value_after 0 f * 10 ^ (decimals - length f)
value_after-padded f decimals =
    value_after-append 0 f (replicate (decimals - length f) 48)
    ∙ value_after-replicate (value_after 0 f) (decimals - length f)

raw_is_exact :
    (w f : List ℕ) (decimals raw : ℕ)
    → length f ≤ decimals
    → raw ≡ value_after 0 w * 10 ^ decimals + value_after 0 (padded f decimals)
    → raw * 10 ^ length f ≡ value_after 0 (w ++ f) * 10 ^ decimals
raw_is_exact w f decimals raw fits e =
    let split : 10 ^ decimals ≡ 10 ^ length f * 10 ^ (decimals - length f) =
      ap (λ k. 10 ^ k) (omega (arith, fits)) ∙ pow-add 10 (length f) (decimals - length f) in
    let joined : value_after 0 (w ++ f) ≡ value_after 0 w * 10 ^ length f + value_after 0 f =
      value_after-append 0 w f ∙ value_after-length (value_after 0 w) f in
    rw (e, value_after-padded f decimals, joined, split)
      (scaled (value_after 0 w) (value_after 0 f) (10 ^ length f) (10 ^ (decimals - length f)))

-- What an accepted text is: a whole part and a fraction, and the amount in the token's smallest unit.
pub record IsRead (text : String) (decimals raw : ℕ) : Type 0 where
  pub whole : List ℕ
  pub fraction : Option (List ℕ)
  pub parts : partition (codes text) ≡ (whole, fraction)
  pub plain : (is_whole whole ≡ true) × (is_fraction fraction ≡ true)
  pub fits : length (digits_of fraction) ≤ decimals
  pub exact :
      raw * 10 ^ length (digits_of fraction)
      ≡ value_after 0 (whole ++ digits_of fraction) * 10 ^ decimals
  pub range : (0 < raw) × (raw ≤ u64_max)

raw_of_parts-sum :
    (w : List ℕ) (f : Option (List ℕ)) (decimals raw : ℕ)
    → raw_of_parts (w, f) decimals ≡ ok raw
    → (is_whole w ≡ true)
      × (is_fraction f ≡ true)
      × (length (digits_of f) ≤ decimals)
      × (raw ≡ value_after 0 w * 10 ^ decimals + value_after 0 (padded (digits_of f) decimals))
      × (0 < raw)
      × (raw ≤ u64_max)
unfolding raw_of_parts
raw_of_parts-sum w f decimals raw e =
    (ground arith, ground arith, ground arith, ground arith, ground arith, ground arith)

-- An amount that is accepted is the plain decimal text, exactly: with k digits behind the point,
-- the raw amount times 10^k is the number of all its digits times 10^decimals, no digit is rounded
-- away, and it is positive and fits 64 bits.
pub amount_to_raw-exact :
    (text : String) (decimals raw : ℕ)
    → amount_to_raw (str text) (int (pos decimals)) ≡ ok raw
    → IsRead text decimals raw
unfolding amount_to_raw raw_of_value raw_of_text
amount_to_raw-exact text decimals raw e =
    let parts = partition (codes text) in
    let inner : raw_of_parts parts decimals ≡ ok raw = ground arith in
    let (w_ok, f_ok, fits, sum, positive, bounded) =
      raw_of_parts-sum parts.0 parts.1 decimals raw inner in
    record {
      whole = parts.0;
      fraction = parts.1;
      parts = refl;
      plain = (w_ok, f_ok);
      fits = fits;
      exact = raw_is_exact parts.0 (digits_of parts.1) decimals raw fits sum;
      range = (positive, bounded);
    }
