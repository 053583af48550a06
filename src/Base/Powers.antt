-- ===== src/Base/Powers.antt =====
-- Powers of native numbers.
use Prim.Native.Nat.{ℕ, zero, suc, ◌+◌, ◌-◌, ◌*◌, ◌^◌, ◌≤◌}
use mathlib.Core.Path.{◌≡◌, sym, ap, ◌∙◌}
use native.Mathlib.Nat.{pow-zero, pow-suc}
use native.Mathlib.Omega.{arith}

regroup : (p q base : ℕ) → p * q * base ≡ p * (q * base)
regroup p q base = grind arith

pub pow-add : (base a b : ℕ) → base ^ (a + b) ≡ base ^ a * base ^ b
pow-add base a zero = grind (arith, pow-zero base)
pow-add base a (suc b) =
    let next : base ^ (a + suc b) ≡ base ^ suc (a + b) = ap (λ k. base ^ k) (omega arith) in
    next
    ∙ pow-suc base (a + b)
    ∙ ap (λ p. p * base) (pow-add base a b)
    ∙ regroup (base ^ a) (base ^ b) base
    ∙ ap (λ p. base ^ a * p) (sym (pow-suc base b))

pow_two_grows : (a d : ℕ) → 2 ^ a ≤ 2 ^ (a + d)
pow_two_grows a zero =
    let same : 2 ^ (a + 0) ≡ 2 ^ a = ap (λ k. 2 ^ k) (omega arith) in omega (arith, same)
pow_two_grows a (suc d) =
    let next : 2 ^ (a + suc d) ≡ 2 ^ suc (a + d) = ap (λ k. 2 ^ k) (omega arith) in
    omega (arith, next, pow-suc 2 (a + d), pow_two_grows a d)

pub pow_two_mono : (a b : ℕ) → a ≤ b → 2 ^ a ≤ 2 ^ b
pow_two_mono a b h =
    let sum : 2 ^ (a + (b - a)) ≡ 2 ^ b = ap (λ k. 2 ^ k) (omega (arith, h)) in
    omega (arith, sum, pow_two_grows a (b - a))

-- Eight bits are a byte.
pub pow_bytes : (k : ℕ) → 2 ^ (8 * k) ≡ 256 ^ k
pow_bytes zero = omega (arith, pow-zero 2, pow-zero 256)
pow_bytes (suc k) =
    let next : 2 ^ (8 * suc k) ≡ 2 ^ (8 * k + 8) = ap (λ n. 2 ^ n) (omega arith) in
    next ∙ omega (arith, pow-add 2 (8 * k) 8, pow_bytes k, pow-suc 256 k)
