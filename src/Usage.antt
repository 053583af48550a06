-- ===== src/Usage.antt =====
-- The usage that the provider reports (gridraft/member_gateway.py, `parse_usage`).
pub mod Accepted
use slipvolt.Base.{
  ℕ, ◌+◌, ◌*◌, ◌^◌, String, Bool, true, false, not, Option, none, some, ltb, ◌==◌, if◌then◌else◌,
}
use slipvolt.Base.Int.{pos}
use slipvolt.Base.Result.{Result, ok, err, value_error, type_error, ◌>>=◌, ◌>>◌, raise_if}
use slipvolt.Value.{Value, Fields, null, int, obj, end, field, get?, get, integer}
use slipvolt.Settlement.{optional_integer}

-- The dict that `parse_usage` returns.
pub record Reported : Type 0 where
  pub prompt : ℕ
  pub completion : ℕ
  pub total : ℕ
  pub cached : Option ℕ
  pub reasoning : Option ℕ

-- `d[key]`, a KeyError where it is missing
abbrev pub item : String → Fields → Result Value
item key d = elim (get? key d) [ none ↦ err type_error | some v ↦ ok v ]

-- A dict or None, which has no fields.
unfoldable pub details_of : Value → String → Result Fields
details_of null message = ok end
details_of (obj d) message = ok d
details_of _ message = err (value_error message)

-- `'total_tokens' in usage and integer(usage['total_tokens'], 0, 2*10**7) != total`
unfoldable pub check_total : Fields → ℕ → Result (Unit {0})
check_total usage total = elim (get? "total_tokens" usage) [
  | none ↦ ok tt
  | some v ↦ do n ← integer v 0 (2 * 10 ^ 7); raise_if (not (n == total)) "Usage mismatch"
]

-- `part is not None and part > whole`
abbrev pub exceeds : Option ℕ → ℕ → Bool
exceeds none whole = false
exceeds (some n) whole = ltb whole n

unfoldable pub parse_fields : Fields → Result Reported
parse_fields usage = do
  a ← item "prompt_tokens" usage >>= λ v. integer v 0 (10 ^ 7)
  b ← item "completion_tokens" usage >>= λ v. integer v 0 (10 ^ 7)
  check_total usage (a + b)
  prompt_details ← details_of (get "prompt_tokens_details" usage) "Invalid prompt usage details"
  completion_details ←
      details_of (get "completion_tokens_details" usage) "Invalid completion usage details"
  cached ← optional_integer (get "cached_tokens" prompt_details) (10 ^ 7)
  reasoning ← optional_integer (get "reasoning_tokens" completion_details) (10 ^ 7)
  raise_if (exceeds cached a) "Cached usage exceeds prompt usage"
  raise_if (exceeds reasoning b) "Reasoning usage exceeds completion usage"
  ok (record { prompt = a; completion = b; total = a + b; cached = cached; reasoning = reasoning })

-- `parse_usage(usage)`
unfoldable pub parse_usage : Value → Result Reported
parse_usage (obj usage) = parse_fields usage
parse_usage _ = err (value_error "Missing usage")

abbrev pub optional_value : Option ℕ → Value
optional_value none = null
optional_value (some n) = int (pos n)

-- The dict again, as `settle` receives it.
abbrev pub usage_value : Reported → Value
usage_value u = obj (
    field "prompt_tokens" (int (pos u.prompt)) (
      field "completion_tokens" (int (pos u.completion)) (
        field "total_tokens" (int (pos u.total)) (
          field "cached_input_tokens" (optional_value u.cached)
            (field "reasoning_tokens" (optional_value u.reasoning) end)))))
