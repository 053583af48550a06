-- ===== src/Broker/Costed.antt =====
-- The cost of a request: the provider's figure only from its own billing, and never less than the
-- estimate otherwise.
use text.Mathlib.Text.{starts_with}
use slipvolt.Base.{ℕ, ◌≤◌, ◌≡◌, String, true, ◌⊎◌, Option, some}
use slipvolt.Base.Result.{ok, ◌>>=◌}
use slipvolt.Value.{Value, Fields, str, get?, get, integer_range, ceiling}
use slipvolt.Host.{len}
use slipvolt.Usage.{item}
use slipvolt.Broker.{quantity, or_value, decimal_text, names_request, is_text, estimate_source}

pub quantity-range : (v : Value) (n : ℕ) → quantity v ≡ ok n → n ≤ ceiling
unfolding quantity
quantity-range (str s) n e = (integer_range (or_value (decimal_text s) (str s)) 0 ceiling n e).2
quantity-range v n e = (integer_range v 0 ceiling n e).2

-- What the provider said of the request, and the cost in it.
pub record Reports (upstream_id : Option String) (model : String) (tokens : ℕ)
    (response : Option Fields) (figure : ℕ) : Type 0 where
  pub id : String
  pub said : Fields
  pub asked : upstream_id ≡ some id
  pub answered : response ≡ some said
  pub named : names_request id said ≡ true
  pub about : is_text model (get "model" said) ≡ true
  pub counted : (item "total_tokens" said >>= quantity) ≡ ok tokens
  pub cost : (item "cost_ngonka" said >>= quantity) ≡ ok figure
  pub bounded : figure ≤ ceiling

-- The source of the cost is one of the provider's shards.
abbrev pub IsShard : Fields → String → Type 0
IsShard said source =
    (get? "cost_source" said ≡ some (str source))
    × (starts_with source "devshard_" ≡ true)
    × (len source ≤ 100)

-- A cost and its source: the provider's own figure for this request where a shard billed it, else an
-- estimate, which is the larger one of the caller's and of the provider's figure, where there is one.
abbrev pub IsFair : Option String → String → ℕ → ℕ → Option Fields → ℕ × String → Type 0
IsFair upstream_id model tokens estimate response (cost, source) =
    ((report : Reports upstream_id model tokens response cost) × IsShard report.said source)
    ⊎ ((source ≡ estimate_source)
        × (estimate ≤ cost)
        × ((cost ≡ estimate) ⊎ Reports upstream_id model tokens response cost))
