-- ===== src/Decimal/RoundTrip.antt =====
-- A decimal text is read back, and is a whole number as the amount patterns want it.
use native.Mathlib.Nat.{pow-zero, pow-suc}
use Prim.Native.String.{◌∷◌ as ◌∷ₛ◌}
use slipvolt.Base.{
  ℕ, zero, suc, ◌+◌, ◌^◌, ◌/◌, ◌≤◌, ◌<◌, ◌≡◌, refl, ap, ◌∙◌, ◌⊎◌, inl, inr, String, Bool, true,
  false, ◌&&◌, List, [], ◌∷◌, arith, leb, length, all,
}
use slipvolt.Burn.{codes, is_digit, is_whole, value_after}
use slipvolt.Decimal.{digit, shown, decimal}

ℕ-cases : (n : ℕ) → (n ≡ 0) ⊎ ((m : ℕ) × (n ≡ suc m))
ℕ-cases zero = inl refl
ℕ-cases (suc m) = inr (m, refl)

shown_stop :
    (rounds n : ℕ) (tail : String) → n / 10 ≡ 0 → shown (suc rounds) n tail ≡ digit n ∷ₛ tail
unfolding shown
shown_stop rounds n tail e = rw (shown, e) refl

shown_more :
    (rounds n m : ℕ) (tail : String)
    → n / 10 ≡ suc m
    → shown (suc rounds) n tail ≡ shown rounds (suc m) (digit n ∷ₛ tail)
unfolding shown
shown_more rounds n m tail e = rw (shown, e) refl

shown_value :
    (rounds n : ℕ) (tail : String)
    → n ≤ rounds
    → value_after 0 (codes (shown rounds n tail)) ≡ value_after n (codes tail)
unfolding shown
shown_value zero n tail h = ground arith
shown_value (suc rounds) n tail h = elim (ℕ-cases (n / 10)) [
  | inl e ↦
      rw (shown_stop rounds n tail e) (ap (λ k. value_after k (codes tail)) (omega (arith, e)))
  | inr (m, e) ↦ rw (shown_more rounds n m tail e) (
      shown_value rounds (suc m) (digit n ∷ₛ tail) (omega (arith, e, h))
      ∙ ap (λ k. value_after k (codes tail)) (omega (arith, e)))
]

-- A digit that is not 0, and digits.
abbrev leads : List ℕ → Bool
leads [] = false
leads (c ∷ cs) = leb 49 c && leb c 57 && all is_digit cs

shown-leads :
    (rounds n : ℕ) (tail : String)
    → n ≤ rounds
    → 0 < n
    → all is_digit (codes tail) ≡ true
    → leads (codes (shown rounds n tail)) ≡ true
unfolding shown
shown-leads zero n tail h positive digits = absurd (omega (arith, h, positive))
shown-leads (suc rounds) n tail h positive digits = elim (ℕ-cases (n / 10)) [
  | inl e ↦ rw (shown_stop rounds n tail e) (ground (arith, e))
  | inr (m, e) ↦ rw (shown_more rounds n m tail e) (
      shown-leads rounds (suc m) (digit n ∷ₛ tail) (omega (arith, e, h)) (omega arith)
        (ground arith))
]

-- `n < 10 ^ suc k` has at most `suc k` digits.
shown-length :
    (rounds n k : ℕ) (tail : String)
    → n < 10 ^ suc k
    → length (codes (shown rounds n tail)) ≤ length (codes tail) + suc k
unfolding shown
shown-length zero n k tail h = omega arith
shown-length (suc rounds) n zero tail h =
    rw (shown_stop rounds n tail (omega (arith, h, pow-suc 10 0, pow-zero 10))) (omega arith)
shown-length (suc rounds) n (suc k) tail h = elim (ℕ-cases (n / 10)) [
  | inl e ↦ rw (shown_stop rounds n tail e) (omega arith)
  | inr (m, e) ↦
      let step =
        shown-length rounds (suc m) k (digit n ∷ₛ tail) (omega (arith, e, h, pow-suc 10 (suc k))) in
      rw (shown_more rounds n m tail e) (omega (arith, step))
]

leads-is_whole : (cs : List ℕ) → leads cs ≡ true → length cs ≤ 20 → is_whole cs ≡ true
leads-is_whole [] h short = ground arith
leads-is_whole (c ∷ []) h short = ground arith
leads-is_whole (c ∷ d ∷ cs) h short = ground arith

pub decimal_value : (n : ℕ) → value_after 0 (codes (decimal n)) ≡ n
unfolding decimal
decimal_value n = shown_value n n "" (omega arith)

pub decimal-is_whole : (n : ℕ) → n < 10 ^ 20 → is_whole (codes (decimal n)) ≡ true
unfolding decimal shown
decimal-is_whole zero h = refl
decimal-is_whole (suc n) h =
    leads-is_whole (codes (shown (suc n) (suc n) ""))
      (shown-leads (suc n) (suc n) "" (omega arith) (omega arith) refl)
      (shown-length (suc n) (suc n) 19 "" h)
