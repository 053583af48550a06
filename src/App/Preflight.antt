-- ===== src/App/Preflight.antt =====
-- What a request would be admitted as, with nothing reserved (gridraft/app.py, `preflight`).
use slipvolt.Base.{ℕ, ◌+◌, ◌-◌, ◌*◌, String, not, Option, none, some, if◌then◌else◌, str_eq}
use slipvolt.Base.Int.{ℤ, pos, ◌-ℤ◌}
use slipvolt.Base.Result.{ok, err}
use slipvolt.Value.{int}
use slipvolt.Host.{Host}
use slipvolt.Db.{Db}
use slipvolt.Keys.{lookup_key}
use slipvolt.Membership.{Admission, Preview, preview}
use slipvolt.Sessions.Throttle.{Keeper}
use slipvolt.Gateway.{Config, Body, prepare}
use slipvolt.App.Http.{Http, refused, granted, ◌>>=◌, ◌>>◌, refuse_if, or_refuse}
use slipvolt.App.Requests.{Runtime, Chat, or_default, normalize_completion_request}
use slipvolt.App.Eligibility.{is_allowance}
use slipvolt.App.Ingress.{Moment, limited, session, require_enabled_user, bearer}
use slipvolt.App.Inference.{Server, unavailable}

-- The numbers of the reply.
pub record Forecast : Type 0 where
  pub result : Preview
  pub estimated_tokens : ℕ
  pub estimated_input : ℕ
  pub estimated_context : ℕ
  pub context_headroom : ℤ
  pub estimated_budget : ℕ

-- The key of the header, if there is one, and the wallet that asks.
unfoldable pub asking : Host → Option String → String → Moment → Db → Http (Option String × String)
asking host none cookie m db = do wallet ← session host cookie m db; granted (none, wallet)
asking host (some header) cookie m db = do
  key ← or_refuse (lookup_key host (bearer header) db) 401
  granted (some key.id, key.wallet)

-- The checks before the estimate: the body, and the context of its model.
unfoldable pub forecast_body : Server → Runtime → Chat → String → Db → Http (Body × ℕ)
forecast_body server cfg chat wallet db = do
  require_enabled_user wallet db
  refuse_if (not (is_allowance server.mode)) 400
  refuse_if cfg.maintenance_mode 503
  refuse_if (not server.provider_configured) 503
  refuse_if (not server.live) 503
  (row, body) ← normalize_completion_request cfg chat server.rows
  refuse_if (unavailable chat.model server.health) 503
  found ← server.standing wallet
  refuse_if (not found.eligible) 403
  require_enabled_user wallet db
  granted (body, or_default row.context_length 0)

abbrev pub preview_of_request : Config → Option String → String → Body → ℕ → ℕ → Admission
preview_of_request cfg key_id wallet body tokens available = record {
  key_id = key_id;
  wallet = wallet;
  model = body.model;
  idem = "";
  tokens = int (pos tokens);
  wallet_daily = cfg.wallet_daily;
  global_daily = cfg.global_daily;
  ngonka_per_token = int (pos cfg.ngonka_per_token);
  upstream_available = int (pos available);
  rpm = cfg.rpm;
  wallet_concurrency = cfg.wallet_concurrency;
  global_rpm = cfg.global_rpm;
  global_concurrency = cfg.global_concurrency;
}

-- The reason codes that are errors of their own.
unfoldable pub reason_status : Option String → Option ℕ
reason_status none = none
reason_status (some reason) =
    if str_eq reason "invalid_key"
    then some 401
    else if str_eq reason "user_disabled"
    then some 403
    else none

unfoldable pub checked_preview : Preview → Http Preview
checked_preview p = elim (reason_status p.reason_code) [
  | none ↦ granted p
  | some status ↦ refused status
]

-- The preview of the ledger; its exceptions are the server's.
unfoldable pub previewed : Admission → String → ℕ → Db → Http Preview
previewed a rid now db = elim (preview a rid now db) [
  | err e ↦ refused 500
  | ok p ↦ checked_preview p
]

-- After the throttle; `rid` is the id that the preview draws and rolls back.
unfoldable pub forecast :
    Host
    → Server
    → Runtime
    → Option ℕ
    → Chat
    → Option String
    → String
    → String
    → Moment
    → Db
    → Http Forecast
forecast host server cfg available chat header cookie rid m db = do
  (key_id, wallet) ← asking host header cookie m db
  (body, context) ← forecast_body server cfg chat wallet db
  tokens ← or_refuse (prepare cfg.config body) 413
  let estimated_input = tokens - body.max_tokens * body.n
  funds ← or_refuse available 503
  result ← previewed (preview_of_request cfg.config key_id wallet body tokens funds) rid m.now db
  granted (record {
    result = result;
    estimated_tokens = tokens;
    estimated_input = estimated_input;
    estimated_context = estimated_input + body.max_tokens;
    context_headroom = pos context -ℤ pos (estimated_input + body.max_tokens);
    estimated_budget = tokens * cfg.config.ngonka_per_token;
  })

-- `preflight(body, request)`
unfoldable pub preflight :
    Host
    → Server
    → Runtime
    → Option ℕ
    → Chat
    → String
    → Option String
    → String
    → String
    → Moment
    → Keeper
    → Http Forecast × Keeper
preflight host server cfg available chat ip header cookie rid m k =
    limited host "request-preflight" ip 30 m k
      λ k1. (forecast host server cfg available chat header cookie rid m k1.db, k1)
