-- ===== src/App/SignIn.antt =====
-- The routes of sign-in (gridraft/app.py: `challenge`, `verify`, `logout`, `logout_all`). The check of
-- an Ed25519 signature (gridraft/security.py, `verify_signature`) and the texts that the server draws
-- are arguments.
pub mod Once
pub mod Proven
use slipvolt.Base.{ℕ, String, Bool, true, false, Option, none, some, if◌then◌else◌}
use slipvolt.Base.Result.{Result, ok, err}
use slipvolt.Value.{str}
use slipvolt.Host.{Host}
use slipvolt.Db.{Db, Challenge}
use slipvolt.Address.{decode_address}
use slipvolt.Prepaid.{ensure_account}
use slipvolt.Sessions as store
use slipvolt.Sessions.Throttle.{Keeper}
use slipvolt.App.Http.{Http, refused, granted}
use slipvolt.App.Ingress.{Moment, with_db, limited, session, error_status}

-- The challenge of an address.
unfoldable pub new_challenge :
    String → (String → String) → String → Moment → Keeper → Http String × Keeper
new_challenge wallet message id m k = elim (decode_address (str wallet)) [
  | err e ↦ (refused 400, k)
  | ok raw ↦ elim (store.challenge wallet (message id) id m.now k.db) [
    | err e ↦ (refused (error_status e), k)
    | ok db ↦ (granted id, with_db k db)
  ]
]

-- `challenge(body, request)`: the message is a function of the id.
unfoldable pub challenge :
    Host → String → String → (String → String) → String → Moment → Keeper → Http String × Keeper
challenge host ip wallet message id m k =
    limited host "challenge" ip 20 m k (new_challenge wallet message id m)

-- The session of the wallet that signed the challenge. Where the INSERT fails the account stays.
unfoldable pub open_session :
    Host → Challenge → String → Moment → Keeper → Http (String × String) × Keeper
open_session host row token m k = elim (store.new_session host row.wallet token m.now k.db) [
  | err e ↦ (refused (error_status e), with_db k (ensure_account row.wallet k.db))
  | ok (token', db) ↦ (granted (row.wallet, token'), with_db k db)
]

-- After the throttle: the challenge goes, whatever the signature is.
unfoldable pub verify_challenge :
    Host
    → (String → String → String → Bool)
    → String
    → String
    → String
    → Moment
    → Keeper
    → Http (String × String) × Keeper
verify_challenge host signed id signature token m k =
    let (row, db) = store.consume_challenge id m.now k.db in
    elim row [
      | none ↦ (refused 401, with_db k db)
      | some c ↦
          if signed c.wallet c.message signature
          then open_session host c token m (with_db k db)
          else (refused 401, with_db k db)
    ]

-- `verify(body, request)`: the wallet and the session's token.
unfoldable pub verify :
    Host
    → (String → String → String → Bool)
    → String
    → String
    → String
    → String
    → Moment
    → Keeper
    → Http (String × String) × Keeper
verify host signed ip id signature token m k =
    limited host "verify" ip 30 m k (verify_challenge host signed id signature token m)

-- `logout(request)`
unfoldable pub logout : Host → String → Keeper → Http (Unit {0}) × Keeper
logout host cookie k = (granted tt, with_db k (store.logout host cookie k.db))

-- `logout_all(request)`
unfoldable pub logout_all : Host → String → Moment → Keeper → Http ℕ × Keeper
logout_all host cookie m k = elim (session host cookie m k.db) [
  | refused status ↦ (refused status, k)
  | granted wallet ↦ elim (store.logout_all host wallet m.now k.db) [
    | err e ↦ (refused (error_status e), k)
    | ok (n, db) ↦ (granted n, with_db k db)
  ]
]
