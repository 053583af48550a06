-- ===== src/App/Requests.antt =====
-- The limits of one completion request (gridraft/app.py, `normalize_completion_request`).
pub mod Fitting
use slipvolt.Base.{
  ℕ, ◌+◌, ◌*◌, String, Bool, true, false, not, ◌&&◌, ◌||◌, Option, none, some, List, [], ◌∷◌, ltb,
  leb, ◌==◌, if◌then◌else◌, str_eq,
}
use slipvolt.App.Http.{Http, refused, granted, ◌>>=◌, ◌>>◌, refuse_if, or_refuse}
use slipvolt.ModelPolicy.{Row, smaller}
use slipvolt.Gateway.{Config, Body, input_budget, prepare}

-- `runtime()`: the settings of the admission, and the ones that the routes read.
pub record Runtime : Type 0 where
  pub config : Config
  pub default_output_tokens : ℕ
  pub max_output_tokens : ℕ
  pub input_rate : ℕ
  pub output_rate : ℕ
  pub maintenance_mode : Bool

-- `ChatInput`. The two lengths of its JSON texts depend on the `max_tokens` that the server writes in.
pub record Chat : Type 0 where
  pub model : String
  pub max_tokens : Option ℕ
  pub max_completion_tokens : Option ℕ
  pub n : ℕ
  pub stream : Bool
  pub json_bytes : ℕ → ℕ
  pub input_bytes : ℕ → ℕ
  pub messages : ℕ

-- `{m['id']: m for m in models}.get(model)`: the last row of an id counts.
abbrev pub by_id : String → List (String × Row) → Option Row
by_id id [] = none
by_id id ((name, row) ∷ rows) = elim (by_id id rows) [
  | some later ↦ some later
  | none ↦ if str_eq name id then some row else none
]

-- `body.max_completion_tokens if ... is not None else body.max_tokens`
abbrev pub requested_tokens : Chat → Option ℕ
requested_tokens chat = elim chat.max_completion_tokens [ some n ↦ some n | none ↦ chat.max_tokens ]

abbrev pub or_default : Option ℕ → ℕ → ℕ
or_default none default = default
or_default (some n) default = n

-- `isinstance(limit, int) and limit >= 1`
abbrev pub positive_limit : Option ℕ → Option ℕ
positive_limit none = none
positive_limit (some n) = if leb 1 n then some n else none

-- The body with `max_tokens` written in.
abbrev pub body_with : Chat → ℕ → Body
body_with chat tokens = record {
  model = chat.model;
  max_tokens = tokens;
  n = chat.n;
  stream = chat.stream;
  json_bytes = chat.json_bytes tokens;
  input_bytes = chat.input_bytes tokens;
  messages = chat.messages;
}

-- The tokens that the request may ask for under the cap.
unfoldable pub output_tokens : Runtime → ℕ → Chat → Http ℕ
output_tokens cfg model_cap chat = do
  let cap = smaller cfg.max_output_tokens model_cap
  let requested = or_default (requested_tokens chat) (smaller cfg.default_output_tokens cap)
  refuse_if (ltb cap requested) 400
  granted requested

-- `normalize_completion_request(body, models)`: the row of the model and the body.
unfoldable pub normalize_completion_request :
    Runtime → Chat → List (String × Row) → Http (Row × Body)
normalize_completion_request cfg chat models = do
  meta ← or_refuse (by_id chat.model models) 400
  model_cap ← or_refuse (positive_limit meta.max_completion_tokens) 503
  requested ← output_tokens cfg model_cap chat
  context ← or_refuse (positive_limit meta.context_length) 503
  let body = body_with chat requested
  tokens ← or_refuse (prepare cfg.config body) 413
  refuse_if (ltb context (input_budget body + requested)) 400
  granted (meta, body)
