-- ===== src/Structured/Fitting.antt =====
-- What the walk over a structured field accepts, as a recursion on the value.
use slipvolt.Base.{
  ℕ, zero, suc, ◌+◌, ◌≤◌, ◌≡◌, ◌↔◌, refl, sym, ap, ◌∙◌, Bool, true, false, ◌&&◌, List, [], ◌∷◌,
  arith, ltb, Bool-cases, inl, inr,
}
use slipvolt.Base.Result.{Result, ok, ◌>>=◌, ◌>>◌, raise_if, >>=-eq-ok, raise_if-passed}
use slipvolt.Value.{Value}
use slipvolt.Structured.Growth.{nodes, fits, weight, fits_all, nodes_positive, children-Grows}
use slipvolt.Structured.{Encoder, children, walk, bounded_object}

deep_fits :
    (encoder : Encoder) (v : Value) (depth : ℕ) → ltb 16 depth ≡ true → fits encoder depth v ≡ false
unfolding fits
deep_fits encoder v depth deep = ground arith

deep_stops :
    (encoder : Encoder) (v : Value) (depth below left : ℕ) (others : Bool)
    (rest : Result (Unit {0}))
    → ltb 16 depth ≡ true
    → ((raise_if (ltb 16 depth) "Structured field complexity limit exceeded" >> rest) ≡ ok tt)
      ↔ ((nodes v + below ≤ suc left) × ((fits encoder depth v && others) ≡ true))
deep_stops encoder v depth below left others rest deep =
    let never = deep_fits encoder v depth deep in
    (
      λ e. (let (shallow, _) = raise_if-passed (ltb 16 depth) _ rest e in absurd (cc)),
      λ h. absurd (let (_, all) = h in ground (arith, never)),
    )

-- The walk accepts a stack just where the values on it fit and are not too many.
walk-accepts :
    (encoder : Encoder) (left : ℕ) (stack : List (Value × ℕ))
    → (walk encoder left stack ≡ ok tt) ↔ ((weight stack ≤ left) × (fits_all encoder stack ≡ true))
unfolding walk
walk-accepts encoder left [] = (λ e. (omega arith, refl), λ h. refl)
walk-accepts encoder zero ((v, depth) ∷ stack) = (
  λ e. absurd (cc),
  λ h. absurd (let some = nodes_positive v in let (few, fine) = h in omega arith),
)
walk-accepts encoder (suc left) ((v, depth) ∷ stack) = elim (Bool-cases (ltb 16 depth)) [
  | inl deep ↦ deep_stops encoder v depth (weight stack) left (fits_all encoder stack) _ deep
  | inr shallow ↦
      let goes =
        ap
          (λ b.
            raise_if b "Structured field complexity limit exceeded"
            >> (children encoder v depth stack >>= λ s. walk encoder left s))
          shallow in
      let (n, count, step) = children-Grows encoder v depth stack shallow in
      elim step [
        | inl (grown, is, many, fine) ↦
            let next = goes ∙ ap (λ r. r >>= λ s. walk encoder left s) is in
            let (there, back) = walk-accepts encoder left grown in
            (
              λ e. (let (few, all) = there (sym next ∙ e) in (omega arith, sym fine ∙ all)),
              λ h. (let (few, all) = h in next ∙ back (omega arith, fine ∙ all)),
            )
        | inr (x, is, bad) ↦
            let next = goes ∙ ap (λ r. r >>= λ s. walk encoder left s) is in
            (λ e. absurd (cc), λ h. absurd (let (few, all) = h in ground (arith, bad)))
      ]
]

-- What `bounded_object` allows: at most 16 KiB as JSON, at most `max_nodes` values, none deeper than 16,
-- no schema reference, and no pattern, enumeration or choice of branches above its limit.
abbrev pub IsBounded : Encoder → ℕ → Value → Type 0
IsBounded encoder max_nodes v =
    ((bytes : ℕ) × (encoder.dumped v ≡ ok bytes) × (bytes ≤ 16384))
    × (nodes v ≤ max_nodes)
    × (fits encoder 0 v ≡ true)

-- The walk with its explicit stack ends on every value, and accepts a structured field if and only if
-- the recursion on the value allows it: at most 16 KiB, at most `max_nodes` values, none deeper than
-- 16, no reference, and every pattern, enumeration and choice of branches within its limit.
pub bounded_object-IsBounded :
    (encoder : Encoder) (max_nodes : ℕ) (v : Value)
    → (bounded_object encoder max_nodes v ≡ ok tt) ↔ IsBounded encoder max_nodes v
unfolding bounded_object
bounded_object-IsBounded encoder max_nodes v =
    let (there, back) = walk-accepts encoder max_nodes ((v, 0) ∷ []) in
    (
      λ e.
          (let (bytes, read, e1) = >>=-eq-ok (encoder.dumped v) _ e in
            let (short, e2) = raise_if-passed (ltb 16384 bytes) _ _ e1 in
            let (few, all) = there e2 in ((bytes, read, ground arith), omega arith, ground arith)),
      λ h.
          (let ((bytes, read, short), few, fine) = h in
            let small : ltb 16384 bytes ≡ false = ground arith in
            ap
              (λ r. r >>= λ b.
                raise_if (ltb 16384 b) "Structured fields must fit within 16 KiB"
                >> walk encoder max_nodes ((v, 0) ∷ []))
              read
            ∙ (ap
                  (λ b.
                    raise_if b "Structured fields must fit within 16 KiB"
                    >> walk encoder max_nodes ((v, 0) ∷ []))
                  small
                ∙ back (omega arith, ground (arith, fine)))),
    )
