-- ===== src/ModelPolicy.antt =====
-- The limits of a model (gridraft/model_policy.py): the reviewed policy, what the provider reports, the
-- operator's cap and override. Of a row the limits and where they come from; names and prices are
-- text for display.
pub mod Cautious
use slipvolt.Base.{
  ℕ, ◌-◌, String, Bool, true, false, ◌&&◌, Option, none, some, ltb, leb, if◌then◌else◌, str_eq,
}
use slipvolt.Base.Int.{ℤ, pos}
use slipvolt.Value.{Value, Fields, int, obj, get}

-- A context length and a number of completion tokens.
pub record Limits : Type 0 where
  pub context : ℕ
  pub output : ℕ

-- MODEL_POLICIES
unfoldable pub model_policies : String → Option Limits
model_policies id =
    if str_eq id "MiniMaxAI/MiniMax-M2.7"
    then some (record { context = 180000; output = 4096 })
    else if str_eq id "deepseek-ai/DeepSeek-V4-Flash-0731"
    then some (record { context = 400000; output = 4096 })
    else if str_eq id "zai-org/GLM-5.3-Flash"
    then some (record { context = 400000; output = 4096 })
    else none

abbrev pub model_limit_ceiling : ℕ
model_limit_ceiling = 1048576

pub record Row : Type 0 where
  pub context_length : Option ℕ
  pub max_completion_tokens : Option ℕ
  pub discovered_context_length : Option ℕ
  pub discovered_max_completion_tokens : Option ℕ
  pub discovery_limits_status : String
  pub context_limit_source : Option String
  pub completion_limit_source : Option String
  pub operator_override_configured : Bool

abbrev pub context_of : Option Limits → Option ℕ
context_of none = none
context_of (some l) = some l.context

abbrev pub output_of : Option Limits → Option ℕ
output_of none = none
output_of (some l) = some l.output

-- `'reviewed_policy' if base.get(...) else None`
abbrev pub reviewed_source : Option ℕ → Option String
reviewed_source none = none
reviewed_source (some n) = some "reviewed_policy"

-- `snapshot(model_id)`
unfoldable pub snapshot : Option Limits → Row
snapshot policy = record {
  context_length = context_of policy;
  max_completion_tokens = output_of policy;
  discovered_context_length = none;
  discovered_max_completion_tokens = none;
  discovery_limits_status = "unknown";
  context_limit_source = reviewed_source (context_of policy);
  completion_limit_source = reviewed_source (output_of policy);
  operator_override_configured = false;
}

-- `type(value) is int and value > 0`
abbrev pub discovered : Value → Option ℕ
discovered (int (ℤ.pos n)) = if ltb 0 n then some n else none
discovered _ = none

abbrev pub reported_limit : String → Value → Option ℕ
reported_limit key (obj metadata) = discovered (get key metadata)
reported_limit key _ = none

abbrev pub status_of_limits : Option ℕ → Option ℕ → String
status_of_limits none none = "unknown"
status_of_limits (some c) (some o) = "reported"
status_of_limits _ _ = "partial"

-- The row with what was discovered noted.
unfoldable pub note_discovery : Value → Row → Row
note_discovery metadata row =
    let context = reported_limit "context_length" metadata in
    let output = reported_limit "max_completion_tokens" metadata in
    record row {
      discovered_context_length = context;
      discovered_max_completion_tokens = output;
      discovery_limits_status = status_of_limits context output;
    }

-- Two ints with `0 < output < context <= MODEL_LIMIT_CEILING`
abbrev pub valid_limits : Value → Value → Option Limits
valid_limits (int (ℤ.pos c)) (int (ℤ.pos o)) =
    if ltb 0 o && ltb o c && leb c model_limit_ceiling
    then some (record { context = c; output = o })
    else none
valid_limits _ _ = none

abbrev pub override_of : Value → Option Limits
override_of (obj d) = valid_limits (get "context_length" d) (get "max_completion_tokens" d)
override_of _ = none

abbrev pub smaller : ℕ → ℕ → ℕ
smaller a b = if leb a b then a else b

unfoldable pub apply_override : ℕ → Limits → Row → Row
apply_override cap l row = record row {
  context_length = some l.context;
  max_completion_tokens = some (smaller l.output cap);
  context_limit_source = some "operator_override_unverified";
  completion_limit_source = some "operator_override_unverified";
  operator_override_configured = true;
}

-- `if reviewed_context and discovered_context and discovered_context < reviewed_context`
abbrev pub tighter : Option ℕ → Option ℕ → Bool
tighter (some c) (some d) = ltb d c
tighter _ _ = false

unfoldable pub tighten_context : Row → Row
tighten_context row =
    if tighter row.context_length row.discovered_context_length
    then record row {
      context_length = row.discovered_context_length;
      context_limit_source = some "discovery_tighter_than_reviewed_policy";
    }
    else row

-- The effective output and its source: the cap, the discovery, the context window, in this order.
abbrev pub cap_output : ℕ → ℕ → ℕ × String
cap_output reviewed cap =
    (smaller reviewed cap, if ltb cap reviewed then "operator_cap" else "reviewed_policy")

abbrev pub discover_output : Option ℕ → ℕ × String → ℕ × String
discover_output none effective = effective
discover_output (some d) effective =
    if ltb d effective.0 then (d, "discovery_tighter_than_reviewed_policy") else effective

-- A context is at least 1 here, so that `context - 1` is the difference of the source.
abbrev pub fit_window : Option ℕ → ℕ × String → ℕ × String
fit_window none effective = effective
fit_window (some c) effective =
    if leb c effective.0 then (c - 1, "context_window_cap") else effective

abbrev pub or_none : ℕ → Option ℕ
or_none n = if ltb 0 n then some n else none

abbrev pub effective_output : Row → ℕ → ℕ → ℕ × String
effective_output row cap reviewed =
    fit_window row.context_length
      (discover_output row.discovered_max_completion_tokens (cap_output reviewed cap))

unfoldable pub tighten_output : ℕ → Row → Row
tighten_output cap row = elim row.max_completion_tokens [
  | none ↦ row
  | some reviewed ↦
      let effective = effective_output row cap reviewed in
      record row {
        max_completion_tokens = or_none effective.0;
        completion_limit_source = some effective.1;
      }
]

-- The row of a model with that reviewed policy.
unfoldable pub merge_policy : Option Limits → Value → ℕ → Value → Row
merge_policy policy metadata cap override =
    let row = note_discovery metadata (snapshot policy) in
    elim (override_of override) [
      | some l ↦ apply_override cap l row
      | none ↦ tighten_output cap (tighten_context row)
    ]

-- `merge_upstream_metadata(model_id, metadata, operator_cap, operator_override)`
unfoldable pub merge_upstream_metadata : String → Value → ℕ → Value → Row
merge_upstream_metadata id metadata cap override =
    merge_policy (model_policies id) metadata cap override
