-- ===== src/Usage/Accepted.antt =====
-- What the gateway parses the ledger accepts.
use slipvolt.Base.{ℕ, ◌+◌, ◌≤◌, ◌≡◌, refl, String, false, Option, none, some, arith}
use slipvolt.Base.Result.{ok, ◌>>=◌, >>=-eq-ok}
use slipvolt.Value.{Value, Fields, obj, get?, get, integer, integer_range}
use slipvolt.Settlement.{optional_integer, reported_details, usage_details}
use slipvolt.Usage.{Reported, item, exceeds, parse_fields, parse_usage, optional_value, usage_value}

-- The bounds of a report that was accepted.
pub record IsConsistent (u : Reported) : Type 0 where
  pub adds_up : u.prompt + u.completion ≡ u.total
  pub within : u.total ≤ 20000000
  pub cached_in_prompt : exceeds u.cached u.prompt ≡ false
  pub reasoning_in_completion : exceeds u.reasoning u.completion ≡ false

item_range :
    (key : String) (usage : Fields) (n maximum : ℕ)
    → (item key usage >>= λ v. integer v 0 maximum) ≡ ok n
    → n ≤ maximum
item_range key usage n maximum e =
    let (v, ev, en) = >>=-eq-ok (item key usage) (λ v. integer v 0 maximum) e in
    (integer_range v 0 maximum n en).2

parse_fields-IsConsistent :
    (usage : Fields) (u : Reported) → parse_fields usage ≡ ok u → IsConsistent u
unfolding parse_fields
parse_fields-IsConsistent usage u e =
    let (a, ea, e1) = >>=-eq-ok (item "prompt_tokens" usage >>= λ v. integer v 0 10000000) _ e in
    let (b, eb, e2) =
      >>=-eq-ok (item "completion_tokens" usage >>= λ v. integer v 0 10000000) _ e1 in
    let a_in = item_range "prompt_tokens" usage a 10000000 ea in
    let b_in = item_range "completion_tokens" usage b 10000000 eb in
    record {
      adds_up = ground arith;
      within = ground arith;
      cached_in_prompt = ground arith;
      reasoning_in_completion = ground arith;
    }

pub parse_usage-IsConsistent : (v : Value) (u : Reported) → parse_usage v ≡ ok u → IsConsistent u
unfolding parse_usage
parse_usage-IsConsistent (obj usage) u e = parse_fields-IsConsistent usage u e
parse_usage-IsConsistent v u e = ground arith

pub optional_integer-optional_value :
    (o : Option ℕ) (maximum : ℕ)
    → exceeds o maximum ≡ false
    → optional_integer (optional_value o) maximum ≡ ok o
unfolding optional_integer integer
optional_integer-optional_value none maximum h = refl
optional_integer-optional_value (some n) maximum h = ground arith

-- Usage that the gateway has parsed passes the checks of the ledger: a settlement with it and its
-- total records exactly the reported columns.
pub usage_details-usage_value :
    (v : Value) (u : Reported)
    → parse_usage v ≡ ok u
    → usage_details (usage_value u) u.total
      ≡ ok (record {
        prompt = some u.prompt;
        completion = some u.completion;
        cached = u.cached;
        reasoning = u.reasoning;
      })
unfolding usage_details reported_details get get? integer
usage_details-usage_value v u e =
    let c = parse_usage-IsConsistent v u e in
    ground (
      arith,
      optional_integer-optional_value u.cached u.prompt c.cached_in_prompt,
      optional_integer-optional_value u.reasoning u.completion c.reasoning_in_completion,
      c.adds_up,
      c.within,
    )
