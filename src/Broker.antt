-- ===== src/Broker.antt =====
-- Reads of the provider's account (gridraft/broker.py): quantities, the balance and the cost of one
-- request. The JSON object that `read` gives is an argument, with `none` where it raises.
pub mod Costed
use Prim.Native.Char.{code}
use Prim.Native.String.{[] as empty_text, ◌∷◌ as ◌∷ₛ◌}
use text.Mathlib.Text.{starts_with}
use slipvolt.Base.{
  ℕ, ◌+◌, ◌-◌, ◌*◌, String, Bool, true, false, not, ◌&&◌, ◌||◌, Option, none, some, ltb, leb, ◌==◌,
  if◌then◌else◌, str_eq,
}
use slipvolt.Base.Int.{pos}
use slipvolt.Base.Result.{Result, ok, err, value_error, ◌>>=◌, ◌>>◌, raise_if}
use slipvolt.Value.{Value, Fields, int, str, get?, get, or_null, integer, ceiling}
use slipvolt.Host.{len}
use slipvolt.Usage.{item}

-- `int(value)` of ASCII digits, `none` where another character stands.
abbrev pub digits_from : ℕ → String → Option ℕ
digits_from n empty_text = some n
digits_from n (c ∷ₛ s) =
    let rest = digits_from (n * 10 + (code c - 48)) s in
    if leb 48 (code c) && leb (code c) 57 then rest else none

-- `isascii() and isdigit() and len(value) <= 16`, then `int`
unfoldable pub decimal_text : String → Option ℕ
decimal_text s = if str_eq s "" || ltb 16 (len s) then none else digits_from 0 s

abbrev pub or_value : Option ℕ → Value → Value
or_value none v = v
or_value (some n) v = int (pos n)

-- `quantity(value)`
unfoldable pub quantity : Value → Result ℕ
quantity (str s) = integer (or_value (decimal_text s) (str s)) 0 ceiling
quantity v = integer v 0 ceiling

pub record Balance : Type 0 where
  pub available : ℕ
  pub balance : Option ℕ
  pub reserved : Option ℕ
  pub min_reserve : Option ℕ
  pub status : String

-- `quantity(d[key]) if key in d else None`
unfoldable pub optional_quantity : String → Fields → Result (Option ℕ)
optional_quantity key d = elim (get? key d) [
  | none ↦ ok none
  | some v ↦ do n ← quantity v; ok (some n)
]

abbrev pub is_blocked : String → Bool
is_blocked s = str_eq s "pending_deposit" || str_eq s "suspended" || str_eq s "inactive"

-- `d.get('status') if d.get('status') in (...) else 'unreported'`
abbrev pub status_of : Value → String
status_of (str s) = if str_eq s "active" || is_blocked s then s else "unreported"
status_of _ = "unreported"

-- `balance()`, without the time and address that it adds for display
unfoldable pub balance : Fields → Result Balance
balance d = do
  available ← item "available_ngonka" d >>= quantity
  total ← optional_quantity "balance_ngonka" d
  reserved ← optional_quantity "reserved_ngonka" d
  min_reserve ← optional_quantity "min_reserve_ngonka" d
  ok (record {
    available = if is_blocked (status_of (get "status" d)) then 0 else available;
    balance = total;
    reserved = reserved;
    min_reserve = min_reserve;
    status = status_of (get "status" d);
  })

abbrev pub is_text : String → Value → Bool
is_text s (str t) = str_eq t s
is_text s _ = false

abbrev pub estimate_source : String
estimate_source = "conservative_budget_estimate"

-- `if isinstance(source, str) and source.startswith('devshard_') and len(source) <= 100`
unfoldable pub costed : Value → ℕ → ℕ → ℕ × String
costed (str source) cost estimate =
    if starts_with source "devshard_" && leb (len source) 100
    then (cost, source)
    else (if leb estimate cost then cost else estimate, estimate_source)
costed _ cost estimate = (if leb estimate cost then cost else estimate, estimate_source)

-- `d.get('cost_source', '')`
abbrev pub source_of : Option Value → Value
source_of none = str ""
source_of (some v) = v

-- `upstream_id in (d.get('response_id'), d.get('x_request_id'), d.get('id'))`
abbrev pub names_request : String → Fields → Bool
names_request id d =
    is_text id (get "response_id" d) || is_text id (get "x_request_id" d) || is_text id (get "id" d)

-- The body of the `try` in `request_cost`, after the read.
unfoldable pub reported_cost : String → String → ℕ → ℕ → Fields → Result (ℕ × String)
reported_cost upstream_id model tokens estimate d = do
  raise_if (not (names_request upstream_id d)) ""
  raise_if (not (is_text model (get "model" d))) ""
  total ← item "total_tokens" d >>= quantity
  raise_if (not (total == tokens)) ""
  cost ← item "cost_ngonka" d >>= quantity
  ok (costed (source_of (get? "cost_source" d)) cost estimate)

-- `except Exception: return estimate, ...`
abbrev pub or_estimate : Result (ℕ × String) → ℕ → ℕ × String
or_estimate (ok r) estimate = r
or_estimate (err e) estimate = (estimate, estimate_source)

-- `if not upstream_id: raise`, then the read, then its checks
abbrev pub cost_of : Option String → String → ℕ → ℕ → Option Fields → Result (ℕ × String)
cost_of none model tokens estimate response = err (value_error "")
cost_of (some id) model tokens estimate none = err (value_error "")
cost_of (some id) model tokens estimate (some d) = do
  raise_if (str_eq id "") ""
  reported_cost id model tokens estimate d

-- `request_cost(upstream_id, model, tokens, estimate)`
unfoldable pub request_cost : Option String → String → ℕ → ℕ → Option Fields → ℕ × String
request_cost upstream_id model tokens estimate response =
    or_estimate (cost_of upstream_id model tokens estimate response) estimate
