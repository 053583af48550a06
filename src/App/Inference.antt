-- ===== src/App/Inference.antt =====
-- The completion route in both modes (gridraft/app.py, `chat`): who asks, what is asked, whether the
-- service may answer, and then the gateway or the prepaid half. What the catalogue, the health page and
-- the RPC say is an argument.
pub mod Closed
use slipvolt.Base.{
  ℕ, ◌^◌, String, Bool, true, false, not, ◌&&◌, ◌||◌, Option, none, some, List, [], ◌∷◌, ltb,
  if◌then◌else◌, str_eq,
}
use slipvolt.Value.{Value}
use slipvolt.Host.{Host}
use slipvolt.Db.{Db, ApiKey}
use slipvolt.Keys.{lookup_key}
use slipvolt.ModelPolicy.{Row}
use slipvolt.Sessions.Throttle.{Keeper}
use slipvolt.Gateway as gateway
use slipvolt.Gateway.{Body, Request, Dispatch}
use slipvolt.App.Http.{Http, refused, granted, ◌>>=◌, ◌>>◌, refuse_if, or_refuse}
use slipvolt.App.Requests.{Runtime, Chat, normalize_completion_request}
use slipvolt.App.Eligibility.{Mode, Standing, is_allowance}
use slipvolt.App.Ingress.{Moment, with_db, limited, require_enabled_user, bearer}
use slipvolt.App.PrepaidChat as prepaid
use slipvolt.App.PrepaidChat.{Budgets, Sending, prepaid_chat}

-- A row of the health page.
pub record Health : Type 0 where
  pub model : String
  pub status : String
  pub routable : Option Bool

abbrev pub is_down : Health → Bool
is_down h = elim h.routable [
  | none ↦ str_eq h.status "unavailable"
  | some true ↦ str_eq h.status "unavailable"
  | some false ↦ true
]

-- `next((m for m in ... if m.get('model') == body.model), None)`, and whether it is down
abbrev pub unavailable : String → List Health → Bool
unavailable model [] = false
unavailable model (h ∷ hs) =
    let rest = unavailable model hs in if str_eq h.model model then is_down h else rest

-- What the server knows besides the database.
pub record Server : Type 0 where
  pub mode : Mode
  pub provider_configured : Bool
  pub rows : List (String × Row)
  pub live : Bool
  pub health : List Health
  pub standing : String → Http Standing
  pub budgets : Budgets

-- What the client sends, and the ids that uuid4 draws.
pub record Call : Type 0 where
  pub ip : String
  pub authorization : String
  pub chat : Chat
  pub idempotency_key : Option String
  pub drawn_idem : String
  pub rid : String

-- What the provider answers, in either mode.
pub record Provider : Type 0 where
  pub available : Option ℕ
  pub dispatch : Dispatch
  pub sending : Sending
  pub shown : Value → String

pub data Reply : Type 0 where
  holder_reply : gateway.Reply → Reply
  prepaid_reply : prepaid.Reply → Reply

-- The guards in front of either mode: the key, and the body as it goes on.
unfoldable pub accepted : Host → Server → Runtime → Call → Db → Http (ApiKey × Body)
accepted host server cfg c db = do
  key ← or_refuse (lookup_key host (bearer c.authorization) db) 401
  require_enabled_user key.wallet db
  refuse_if cfg.maintenance_mode 503
  refuse_if (not server.provider_configured) 503
  refuse_if (not server.live) 503
  (row, body) ← normalize_completion_request cfg c.chat server.rows
  refuse_if (unavailable c.chat.model server.health) 503
  found ← server.standing key.wallet
  refuse_if (not found.eligible) 403
  granted (key, body)

abbrev pub request_of : Call → ApiKey → Body → Request
request_of c key body = record {
  key_id = key.id;
  wallet = key.wallet;
  body = body;
  idempotency_key = c.idempotency_key;
  drawn_idem = c.drawn_idem;
  rid = c.rid;
}

-- The half of the mode.
unfoldable pub answer : Host → Server → Runtime → Provider → Request → ℕ → Db → Reply × Db
answer host server cfg p r now db =
    if is_allowance server.mode
    then (let (reply, db') = gateway.call host cfg.config r p.available p.dispatch now db in
        (holder_reply reply, db'))
    else (let (reply, db') =
          prepaid_chat host p.shown cfg server.budgets r p.available p.sending now db in
        (prepaid_reply reply, db'))

-- The route after its throttle.
unfoldable pub serve :
    Host → Server → Runtime → Provider → Call → Moment → Keeper → Http Reply × Keeper
serve host server cfg p c m k = elim (accepted host server cfg c k.db) [
  | refused status ↦ (refused status, k)
  | granted (key, body) ↦
      let (reply, db) = answer host server cfg p (request_of c key body) m.now k.db in
      (granted reply, with_db k db)
]

abbrev pub ingress_limit : Runtime → ℕ
ingress_limit cfg = if ltb 120 cfg.config.global_rpm then cfg.config.global_rpm else 120

-- `chat(body, request)`
unfoldable pub chat :
    Host → Server → Runtime → Provider → Call → Moment → Keeper → Http Reply × Keeper
chat host server cfg p c m k =
    limited host "inference-ingress" c.ip (ingress_limit cfg) m k (serve host server cfg p c m)
