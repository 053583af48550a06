-- ===== src/Settlement.antt =====
-- `settle` and `review` of the holder ledger (gridraft/membership.py). As in Membership.antt, an
-- operation that raises leaves the database alone.
pub mod Lifecycle
pub mod Once
pub mod Solvency
pub mod Retries
pub mod Recorded
use slipvolt.Base.{
  ℕ, ◌+◌, String, Bool, true, false, not, ◌&&◌, ◌||◌, Option, none, some, ltb, leb, ◌==◌,
  if◌then◌else◌, str_eq,
}
use slipvolt.Base.Result.{Result, ok, err, value_error, ◌>>=◌, ◌>>◌, raise_if}
use slipvolt.Value.{Value, Fields, null, obj, get, integer, ceiling}
use slipvolt.Host.{len}
use slipvolt.Db.{Db, MemberUsage, State, is_held, is_reserved}
use slipvolt.Db.Sql.{find}
use slipvolt.Pool.{has_id, update_usage}

-- The four columns of reported usage.
pub record Details : Type 0 where
  pub prompt : Option ℕ
  pub completion : Option ℕ
  pub cached : Option ℕ
  pub reasoning : Option ℕ

-- `if value is not None: value = integer(value, 0, maximum)`
unfoldable pub optional_integer : Value → ℕ → Result (Option ℕ)
optional_integer null maximum = ok none
optional_integer v maximum = do n ← integer v 0 maximum; ok (some n)

unfoldable pub reported_details : Fields → ℕ → Result Details
unfolding optional_integer
reported_details usage tokens = do
  prompt ← integer (get "prompt_tokens" usage) 0 1000000000
  completion ← integer (get "completion_tokens" usage) 0 1000000000
  total ← integer (get "total_tokens" usage) 0 1000000000
  raise_if (not (prompt + completion == total) || not (total == tokens)) "Usage detail mismatch"
  cached ← optional_integer (get "cached_input_tokens" usage) prompt
  reasoning ← optional_integer (get "reasoning_tokens" usage) completion
  ok (record {
    prompt = some prompt;
    completion = some completion;
    cached = cached;
    reasoning = reasoning;
  })

-- `usage=None` records nothing; what is no dict is refused.
unfoldable pub usage_details : Value → ℕ → Result Details
unfolding reported_details
usage_details null tokens =
    ok (record { prompt = none; completion = none; cached = none; reasoning = none })
usage_details (obj usage) tokens = reported_details usage tokens
usage_details _ tokens = err (value_error "Invalid usage detail")

-- `not evidence`
abbrev pub no_evidence : Option String → Bool
no_evidence none = true
no_evidence (some s) = str_eq s ""

-- `evidence is not None and not 1 <= len(evidence) <= 200`
abbrev pub bad_evidence : Option String → Bool
bad_evidence none = false
bad_evidence (some s) = not (leb 1 (len s) && leb (len s) 200)

-- What a settlement writes.
pub record Settled : Type 0 where
  pub tokens : ℕ
  pub cost : ℕ
  pub source : String
  pub details : Details
  pub upstream_id : Option String
  pub evidence : Option String

abbrev pub settle_row : Settled → MemberUsage → MemberUsage
settle_row s r = record r {
  tokens = s.tokens;
  cost_ngonka = s.cost;
  cost_source = some s.source;
  prompt_tokens = s.details.prompt;
  completion_tokens = s.details.completion;
  cached_input_tokens = s.details.cached;
  reasoning_tokens = s.details.reasoning;
  state = State.settled;
  upstream_id = s.upstream_id;
  evidence = s.evidence;
}

abbrev pub find_usage : String → Db → Option MemberUsage
find_usage rid db = find (has_id rid) db.member_usage

-- The arguments of `settle`.
pub record Settlement : Type 0 where
  pub rid : String
  pub tokens : Value
  pub cost : Value
  pub source : String
  pub upstream_id : Option String
  pub evidence : Option String
  pub usage : Value

-- The checks before the transaction.
unfoldable pub settled_of : Settlement → Result Settled
unfolding usage_details
settled_of a = do
  tokens ← integer a.tokens 0 1000000000
  cost ← integer a.cost 0 ceiling
  raise_if (ltb 100 (len a.source)) "Invalid cost source"
  details ← usage_details a.usage tokens
  ok (record {
    tokens = tokens;
    cost = cost;
    source = a.source;
    details = details;
    upstream_id = a.upstream_id;
    evidence = a.evidence;
  })

-- The transaction: `False` where the row is missing or closed.
unfoldable pub settle_found : Option MemberUsage → Settled → String → Db → Result (Bool × Db)
settle_found none s rid db = ok (false, db)
settle_found (some row) s rid db = if not (is_held row.state) then ok (false, db) else do
  raise_if (not (is_reserved row.state) && no_evidence s.evidence)
      "Reconciliation evidence required"
  raise_if (bad_evidence s.evidence) "Invalid evidence reference"
  db' ← update_usage (has_id rid) (settle_row s) db
  ok (true, db')

unfoldable pub settle : Settlement → Db → Result (Bool × Db)
settle a db = do s ← settled_of a; settle_found (find_usage a.rid db) s a.rid db

abbrev pub review_row : Option String → MemberUsage → MemberUsage
review_row upstream_id r = record r { state = State.needs_review; upstream_id = upstream_id }

-- UPDATE ... SET state='needs_review' WHERE id=? AND state='reserved'
unfoldable pub review : String → Option String → Db → Result Db
review rid upstream_id db =
    update_usage (λ r. has_id rid r && is_reserved r.state) (review_row upstream_id) db
