-- ===== src/Structured/Growth.antt =====
-- The values and the limits of a structured field as a recursion on the value, and how a step of the
-- walk changes what is left on its stack.
use slipvolt.Base.{
  ℕ, suc, ◌+◌, ◌≤◌, ◌≡◌, refl, sym, ap, ◌∙◌, String, Bool, true, false, not, ◌&&◌, List, [], ◌∷◌,
  arith, ltb, str_eq, Bool-cases, ◌⊎◌, inl, inr,
}
use slipvolt.Base.Result.{Result, Error, value_error, ok, err, ◌>>◌, raise_if}
use slipvolt.Value.{Value, Fields, Items, arr, obj, end, field, nil, cons}
use slipvolt.Structured.{
  Encoder, is_short, is_longer, is_branch, has_reference, push_fields, push_items, children,
}

-- How many values a value holds, itself counted.
unfoldable mutual
  pub nodes : Value → ℕ
  nodes (obj d) = suc (nodes_fields d)
  nodes (arr vs) = suc (nodes_items vs)
  nodes _ = 1

  pub nodes_fields : Fields → ℕ
  nodes_fields end = 0
  nodes_fields (field key v rest) = nodes v + nodes_fields rest

  pub nodes_items : Items → ℕ
  nodes_items nil = 0
  nodes_items (cons v rest) = nodes v + nodes_items rest

-- The field keeps to the limits on patterns, enumerations and branches.
unfoldable pub is_moderate : Encoder → String → Value → Bool
is_moderate encoder key v =
    not (str_eq key "pattern" && not (is_short encoder v))
    && (not (str_eq key "enum" && is_longer 256 v) && not (is_branch key && is_longer 16 v))

-- No value stands deeper than 16, no object has a reference, and every field is moderate.
unfoldable mutual
  pub fits : Encoder → ℕ → Value → Bool
  fits encoder depth (obj d) =
      not (ltb 16 depth) && (not (has_reference d) && fits_fields encoder (suc depth) d)
  fits encoder depth (arr vs) = not (ltb 16 depth) && fits_items encoder (suc depth) vs
  fits encoder depth _ = not (ltb 16 depth)

  pub fits_fields : Encoder → ℕ → Fields → Bool
  fits_fields encoder depth end = true
  fits_fields encoder depth (field key v rest) =
      is_moderate encoder key v && (fits encoder depth v && fits_fields encoder depth rest)

  pub fits_items : Encoder → ℕ → Items → Bool
  fits_items encoder depth nil = true
  fits_items encoder depth (cons v rest) = fits encoder depth v && fits_items encoder depth rest

abbrev pub weight : List (Value × ℕ) → ℕ
weight [] = 0
weight ((v, depth) ∷ stack) = nodes v + weight stack

abbrev pub fits_all : Encoder → List (Value × ℕ) → Bool
fits_all encoder [] = true
fits_all encoder ((v, depth) ∷ stack) = fits encoder depth v && fits_all encoder stack

exchange : (a b c : Bool) → (a && (b && c)) ≡ ((b && a) && c)
exchange a b c = ground arith

push_items-weight :
    (encoder : Encoder) (depth : ℕ) (vs : Items) (stack : List (Value × ℕ))
    → (weight (push_items depth vs stack) ≡ nodes_items vs + weight stack)
      × (fits_all encoder (push_items depth vs stack)
          ≡ (fits_items encoder (suc depth) vs && fits_all encoder stack))
unfolding push_items nodes_items fits_items
push_items-weight encoder depth nil stack = (omega arith, refl)
push_items-weight encoder depth (cons v rest) stack =
    let (many, fine) = push_items-weight encoder depth rest ((v, suc depth) ∷ stack) in
    (
      omega arith,
      fine
          ∙ exchange (fits_items encoder (suc depth) rest) (fits encoder (suc depth) v)
              (fits_all encoder stack),
    )

join_field : (m f r s g : Bool) → m ≡ true → g ≡ (r && (f && s)) → g ≡ ((m && (f && r)) && s)
join_field true f r s g h e = e ∙ exchange r f s
join_field false f r s g h e = cc

lose_field : (m f r : Bool) → r ≡ false → (m && (f && r)) ≡ false
lose_field m f r h = ground arith

-- Three guards in a row: all pass, or the chain ends with an error.
guards :
    {A : Type 0}
    → (a b c : Bool) (ma mb mc : String) (rest : Result A)
    → (((not a && (not b && not c)) ≡ true)
        × ((raise_if a ma >> (raise_if b mb >> (raise_if c mc >> rest))) ≡ rest))
      ⊎ (((not a && (not b && not c)) ≡ false)
          × (e : Error) × ((raise_if a ma >> (raise_if b mb >> (raise_if c mc >> rest))) ≡ err e))
guards true b c ma mb mc rest = inr (refl, value_error ma, refl)
guards false true c ma mb mc rest = inr (refl, value_error mb, refl)
guards false false true ma mb mc rest = inr (refl, value_error mc, refl)
guards false false false ma mb mc rest = inl (refl, refl)

-- A step of the walk: the stack grows by the children, or an error says that the value does not fit.
abbrev Grows : Encoder → Result (List (Value × ℕ)) → ℕ → Bool → List (Value × ℕ) → Type 0
Grows encoder result count fine stack =
    ((grown : List (Value × ℕ)) × (result ≡ ok grown)
      × (weight grown ≡ count + weight stack)
      × (fits_all encoder grown ≡ (fine && fits_all encoder stack)))
    ⊎ ((e : Error) × (result ≡ err e) × (fine ≡ false))

push_fields-Grows :
    (encoder : Encoder) (depth : ℕ) (d : Fields) (stack : List (Value × ℕ))
    → Grows encoder
        (push_fields encoder depth d stack)
        (nodes_fields d)
        (fits_fields encoder (suc depth) d)
        stack
unfolding push_fields nodes_fields fits_fields is_moderate
push_fields-Grows encoder depth end stack = inl (stack, refl, omega arith, refl)
push_fields-Grows encoder depth (field key v rest) stack =
    elim (guards (str_eq key "pattern" && not (is_short encoder v))
      (str_eq key "enum" && is_longer 256 v) (is_branch key && is_longer 16 v)
      "Schema pattern exceeds 512 bytes" "Schema enum is too large" "Too many schema branches"
      (push_fields encoder depth rest ((v, suc depth) ∷ stack))) [
        | inr (bad, e, ends) ↦ inr (
          e,
          ends,
          ap (λ b. b && (fits encoder (suc depth) v && fits_fields encoder (suc depth) rest)) bad,
        )
        | inl (good, goes) ↦ elim (push_fields-Grows encoder depth rest ((v, suc depth) ∷ stack)) [
          | inl (grown, is, many, fine) ↦ inl (
            grown,
            goes ∙ is,
            omega (arith, many),
            join_field (is_moderate encoder key v) (fits encoder (suc depth) v)
                (fits_fields encoder (suc depth) rest) (fits_all encoder stack)
                (fits_all encoder grown) good fine,
          )
          | inr (e, is, bad) ↦ inr (
            e,
            goes ∙ is,
            lose_field (is_moderate encoder key v) (fits encoder (suc depth) v)
                (fits_fields encoder (suc depth) rest) bad,
          )
        ]
      ]

pub nodes_positive : (v : Value) → 1 ≤ nodes v
unfolding nodes
nodes_positive v = ground arith

both_false : (a b f : Bool) → a ≡ false → b ≡ false → f ≡ (not a && (not b && f))
both_false a b f ha hb = ground arith

children_object :
    (encoder : Encoder) (d : Fields) (depth : ℕ) (stack : List (Value × ℕ))
    → ltb 16 depth ≡ false
    → Grows encoder
        (children encoder (obj d) depth stack)
        (nodes_fields d)
        (fits encoder depth (obj d))
        stack
unfolding children fits
children_object encoder d depth stack shallow = elim (Bool-cases (has_reference d)) [
  | inl refers ↦ inr (
    value_error "Schema references are not supported",
    ap (λ b. raise_if b "Schema references are not supported" >> push_fields encoder depth d stack)
        refers,
    (ap (λ b. not (ltb 16 depth) && (not b && fits_fields encoder (suc depth) d)) refers
        ∙ ground arith),
  )
  | inr plain ↦
      let goes =
        ap
          (λ b.
            raise_if b "Schema references are not supported" >> push_fields encoder depth d stack)
          plain in
      let same : fits_fields encoder (suc depth) d
          ≡ (not (ltb 16 depth) && (not (has_reference d) && fits_fields encoder (suc depth) d)) =
        both_false _ _ _ shallow plain in
      elim (push_fields-Grows encoder depth d stack) [
        | inl (grown, is, many, fine) ↦
            inl (grown, goes ∙ is, many, fine ∙ ap (λ b. b && fits_all encoder stack) same)
        | inr (e, is, bad) ↦ inr (e, goes ∙ is, sym same ∙ bad)
      ]
]

pub children-Grows :
    (encoder : Encoder) (v : Value) (depth : ℕ) (stack : List (Value × ℕ))
    → ltb 16 depth ≡ false
    → (n : ℕ) × (nodes v ≡ suc n)
      × Grows encoder (children encoder v depth stack) n (fits encoder depth v) stack
unfolding children nodes fits
children-Grows encoder (obj d) depth stack shallow =
    (nodes_fields d, refl, children_object encoder d depth stack shallow)
children-Grows encoder (arr vs) depth stack shallow =
    let (many, fine) = push_items-weight encoder depth vs stack in
    (
      nodes_items vs,
      refl,
      inl (
        push_items depth vs stack,
        refl,
        many,
        fine
            ∙ ap (λ b. (not b && fits_items encoder (suc depth) vs) && fits_all encoder stack)
                (sym shallow),
      ),
    )
children-Grows encoder v depth stack shallow = (
  0,
  refl,
  inl (stack, refl, omega arith, ap (λ b. not b && fits_all encoder stack) (sym shallow)),
)
