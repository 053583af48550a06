-- ===== src/App/KeyRoutes.antt =====
-- The routes of API keys (gridraft/app.py: `member_key`, `new_key`, `delete_key`, `revoke_all_keys`).
-- The standing of a wallet is what `eligibility` gives when the route asks for it.
use slipvolt.Base.{ℕ, ◌^◌, String, not, if◌then◌else◌}
use slipvolt.Base.Result.{Result, ok, err}
use slipvolt.Host.{Host}
use slipvolt.Db.{Db}
use slipvolt.Keys as store
use slipvolt.Sessions.Throttle.{Keeper}
use slipvolt.App.Http.{Http, refused, granted, ◌>>=◌, ◌>>◌, refuse_if, or_status}
use slipvolt.App.Requests.{Runtime}
use slipvolt.App.Eligibility.{Standing, Mode, is_allowance}
use slipvolt.App.Ingress.{Moment, with_db, limited, session, require_enabled_user, error_status}

-- What `secrets` and uuid4 draw for a key: its token and its id.
pub record Drawn : Type 0 where
  pub token : String
  pub id : String

-- `store.issue_key(...)` with its error reply
unfoldable pub issue : Host → String → String → ℕ → Drawn → Moment → Keeper → Http String × Keeper
issue host wallet name limit drawn m k =
    elim (store.issue_key host wallet name limit drawn.token drawn.id m.now k.db) [
      | err e ↦ (refused (error_status e), k)
      | ok (raw, db) ↦ (granted raw, with_db k db)
    ]

-- The wallet that may have a key in holder-allowance mode.
unfoldable pub member_wallet :
    Host → Mode → Runtime → (String → Http Standing) → String → Moment → Db → Http String
member_wallet host mode cfg standing cookie m db = do
  wallet ← session host cookie m db
  require_enabled_user wallet db
  refuse_if cfg.maintenance_mode 503
  refuse_if (not (is_allowance mode)) 503
  found ← standing wallet
  refuse_if (not found.eligible) 403
  granted wallet

-- The route after its throttle.
unfoldable pub issue_member :
    Host
    → Mode
    → Runtime
    → (String → Http Standing)
    → String
    → Drawn
    → Moment
    → Keeper
    → Http String × Keeper
issue_member host mode cfg standing cookie drawn m k =
    elim (member_wallet host mode cfg standing cookie m k.db) [
      | refused status ↦ (refused status, k)
      | granted wallet ↦ issue host wallet "My API key" (10 ^ 15) drawn m k
    ]

-- `member_key(request)`
unfoldable pub member_key :
    Host
    → Mode
    → Runtime
    → (String → Http Standing)
    → String
    → String
    → Drawn
    → Moment
    → Keeper
    → Http String × Keeper
member_key host mode cfg standing ip cookie drawn m k =
    limited host "member-key" ip 10 m k (issue_member host mode cfg standing cookie drawn m)

-- The wallet and the limit of a new key; `number` of gridraft/economics.py reads the limit.
unfoldable pub keyed_wallet :
    Host → (String → Http Standing) → Result ℕ → String → Moment → Db → Http (String × ℕ)
keyed_wallet host standing limit cookie m db = do
  wallet ← session host cookie m db
  require_enabled_user wallet db
  found ← standing wallet
  refuse_if (not found.eligible) 403
  amount ← or_status limit 400
  granted (wallet, amount)

-- `new_key(body, request)`
unfoldable pub new_key :
    Host
    → (String → Http Standing)
    → String
    → Result ℕ
    → String
    → Drawn
    → Moment
    → Keeper
    → Http String × Keeper
new_key host standing name limit cookie drawn m k =
    elim (keyed_wallet host standing limit cookie m k.db) [
      | refused status ↦ (refused status, k)
      | granted (wallet, amount) ↦ issue host wallet name amount drawn m k
    ]

-- `delete_key(key_id, request)`
unfoldable pub delete_key : Host → String → String → Moment → Keeper → Http (Unit {0}) × Keeper
delete_key host id cookie m k = elim (session host cookie m k.db) [
  | refused status ↦ (refused status, k)
  | granted wallet ↦
      let (found, db) = store.revoke id wallet k.db in
      (if found then granted tt else refused 404, with_db k db)
]

-- The route after its throttle.
unfoldable pub revoke_all : Host → String → Moment → Keeper → Http ℕ × Keeper
revoke_all host wallet m k = elim (store.revoke_all_keys host wallet m.now k.db) [
  | err e ↦ (refused (error_status e), k)
  | ok (n, db) ↦ (granted n, with_db k db)
]

-- `revoke_all_keys(request)`
unfoldable pub revoke_all_keys : Host → String → String → Moment → Keeper → Http ℕ × Keeper
revoke_all_keys host ip cookie m k = elim (session host cookie m k.db) [
  | refused status ↦ (refused status, k)
  | granted wallet ↦ limited host "revoke-all" ip 10 m k (revoke_all host wallet m)
]
