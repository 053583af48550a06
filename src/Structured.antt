-- ===== src/Structured.antt =====
-- The limits on structured request fields (gridraft/request_policy.py: bounded_object). What
-- `json.dumps` and `str.encode` compute is an argument.
pub mod Growth
pub mod Fitting
pub mod Extensions
pub mod Tools
use slipvolt.Base.{
  ℕ, zero, suc, String, Bool, true, false, not, ◌&&◌, ◌||◌, List, [], ◌∷◌, ltb, str_eq, length,
  is_some,
}
use slipvolt.Base.Result.{Result, ok, err, value_error, ◌>>=◌, ◌>>◌, raise_if}
use slipvolt.Value.{
  Value, Fields, Items, null, bool, int, float, str, arr, obj, end, field, nil, cons, get?, items,
}

-- The bytes of `json.dumps(obj)`, which raises on a number that is none, and of `s.encode()`.
pub record Encoder : Type 0 where
  pub dumped : Value → Result ℕ
  pub encoded : String → ℕ

-- `isinstance(v, str) and len(v.encode()) <= 512`
abbrev pub is_short : Encoder → Value → Bool
is_short encoder (str s) = not (ltb 512 (encoder.encoded s))
is_short encoder _ = false

-- `isinstance(v, list) and len(v) > n`
abbrev pub is_longer : ℕ → Value → Bool
is_longer n (arr vs) = ltb n (length (items vs))
is_longer n _ = false

abbrev pub is_branch : String → Bool
is_branch key = str_eq key "anyOf" || str_eq key "oneOf" || str_eq key "allOf"

-- `{'$ref','$defs','definitions'} & value.keys()`
abbrev pub has_reference : Fields → Bool
has_reference d =
    is_some (get? "$ref" d) || is_some (get? "$defs" d) || is_some (get? "definitions" d)

-- The loop over `value.items()`: the stack with the values of the fields, the last one on top.
unfoldable pub push_fields : Encoder → ℕ → Fields → List (Value × ℕ) → Result (List (Value × ℕ))
push_fields encoder depth end stack = ok stack
push_fields encoder depth (field key v rest) stack = do
  raise_if (str_eq key "pattern" && not (is_short encoder v)) "Schema pattern exceeds 512 bytes"
  raise_if (str_eq key "enum" && is_longer 256 v) "Schema enum is too large"
  raise_if (is_branch key && is_longer 16 v) "Too many schema branches"
  push_fields encoder depth rest ((v, suc depth) ∷ stack)

-- `stack.extend((v, depth+1) for v in value)`
unfoldable pub push_items : ℕ → Items → List (Value × ℕ) → List (Value × ℕ)
push_items depth nil stack = stack
push_items depth (cons v rest) stack = push_items depth rest ((v, suc depth) ∷ stack)

-- The branches on the kind of `value`.
unfoldable pub children : Encoder → Value → ℕ → List (Value × ℕ) → Result (List (Value × ℕ))
children encoder (obj d) depth stack = do
  raise_if (has_reference d) "Schema references are not supported"
  push_fields encoder depth d stack
children encoder (arr vs) depth stack = ok (push_items depth vs stack)
children encoder _ depth stack = ok stack

-- `while stack`, with the number of values that may still be taken from it (max_nodes - nodes).
unfoldable pub walk : Encoder → ℕ → List (Value × ℕ) → Result (Unit {0})
walk encoder left [] = ok tt
walk encoder zero (top ∷ stack) = err (value_error "Structured field complexity limit exceeded")
walk encoder (suc left) ((v, depth) ∷ stack) = do
  raise_if (ltb 16 depth) "Structured field complexity limit exceeded"
  stack' ← children encoder v depth stack
  walk encoder left stack'

-- `bounded_object(obj, max_nodes)`
unfoldable pub bounded_object : Encoder → ℕ → Value → Result (Unit {0})
bounded_object encoder max_nodes v = do
  bytes ← encoder.dumped v
  raise_if (ltb 16384 bytes) "Structured fields must fit within 16 KiB"
  walk encoder max_nodes ((v, 0) ∷ [])
