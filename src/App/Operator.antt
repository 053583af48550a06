-- ===== src/App/Operator.antt =====
-- The operator's routes that change state (gridraft/app.py: `update_admin_user`, `admin_revoke_key`,
-- `admin_fund`) and the policy of a user (gridraft/store.py, `set_user_policy`).
use slipvolt.Base.{
  ℕ, ◌^◌, String, Bool, not, ◌||◌, Option, none, some, [], ◌∷◌, ◌++◌, ltb, if◌then◌else◌, str_eq,
  any,
}
use slipvolt.Base.Int.{pos}
use slipvolt.Base.Result.{Error, Result, ok, err, value_error, ◌>>=◌, ◌>>◌, raise_if}
use slipvolt.Value.{Value, int, str, integer}
use slipvolt.Host.{Host, len}
use slipvolt.Db.{Db, UserAdmin}
use slipvolt.Db.Sql.{update}
use slipvolt.Address.{decode_address}
use slipvolt.Prepaid.{ensure_account}
use slipvolt.Keys.{audit, take_text, revoke}
use slipvolt.Membership.{allocate}
use slipvolt.Sessions.Throttle.{Keeper}
use slipvolt.App.Http.{Http, refused, granted}
use slipvolt.App.Ingress.{Moment, with_db, as_admin, error_status}

-- The override: None, or an int from 1 to 10^9.
unfoldable pub checked_override : Value → Result (Option ℕ)
checked_override Value.null = ok none
checked_override v = do n ← integer v 1 (10 ^ 9); ok (some n)

abbrev pub of_user : String → UserAdmin → Bool
of_user wallet u = str_eq u.wallet wallet

abbrev pub policy_row : String → Bool → Option ℕ → String → ℕ → UserAdmin
policy_row wallet disabled override note now = record {
  wallet = wallet;
  disabled = disabled;
  daily_tokens_override = override;
  note = note;
  updated = now;
}

-- INSERT ... ON CONFLICT(wallet) DO UPDATE
unfoldable pub upsert_policy : UserAdmin → Db → Db
upsert_policy row db = record db {
  user_admin =
      if any (of_user row.wallet) db.user_admin
      then update (of_user row.wallet) (λ u. row) db.user_admin
      else db.user_admin ++ row ∷ [];
}

-- `set_user_policy(wallet, disabled, daily_tokens_override, note)`
unfoldable pub set_user_policy :
    Host → String → Bool → Value → String → ℕ → Db → Result (Unit {0} × Db)
set_user_policy host wallet disabled override note now db = do
  tokens ← checked_override override
  raise_if (ltb 500 (len note) || not (host.is_printable note)) "Invalid note"
  ok (tt, upsert_policy (policy_row wallet disabled tokens note now) (ensure_account wallet db))

-- The audit entry after a write that stays: its exception is the route's.
unfoldable pub audited {ℓ} :
    {A : Type ℓ}
    → Host
    → String
    → String
    → String
    → (Error → ℕ)
    → A
    → Moment
    → Keeper
    → Http A × Keeper
audited host action target note status reply m k = elim (audit host action target note m.now k.db) [
  | err e ↦ (refused (status e), k)
  | ok (u, db) ↦ (granted reply, with_db k db)
]

unfoldable pub set_policy :
    Host → String → Bool → Value → String → Moment → Keeper → Http (Unit {0}) × Keeper
set_policy host wallet disabled override note m k =
    elim (set_user_policy host wallet disabled override note m.now k.db) [
      | err e ↦ (refused (error_status e), k)
      | ok (u, db) ↦
          audited host "user_policy_updated" wallet (take_text 200 note) error_status tt m
            (with_db k db)
    ]

-- The rest of a route for the wallet of its path.
unfoldable pub for_address {ℓ} :
    {A : Type ℓ} → String → Keeper → (Keeper → Http A × Keeper) → Http A × Keeper
for_address wallet k rest = elim (decode_address (str wallet)) [
  | err e ↦ (refused 400, k)
  | ok raw ↦ rest k
]

-- `update_admin_user(wallet, body, request)`
unfoldable pub update_admin_user :
    Host
    → String
    → String
    → String
    → String
    → Bool
    → Value
    → String
    → Moment
    → Keeper
    → Http (Unit {0}) × Keeper
update_admin_user host admin_key header ip wallet disabled override note m k =
    as_admin host admin_key header ip m k
      λ k1. for_address wallet k1 (set_policy host wallet disabled override note m)

-- An exception that no handler of the route catches.
abbrev pub server_error : Error → ℕ
server_error e = 500

unfoldable pub revoke_for : Host → String → String → Moment → Keeper → Http (Unit {0}) × Keeper
revoke_for host wallet id m k =
    let (found, db) = revoke id wallet k.db in
    if found
    then audited host "key_revoked" wallet (take_text 80 id) server_error tt m (with_db k db)
    else (refused 404, with_db k db)

-- `admin_revoke_key(wallet, key_id, request)`
unfoldable pub admin_revoke_key :
    Host → String → String → String → String → String → Moment → Keeper → Http (Unit {0}) × Keeper
admin_revoke_key host admin_key header ip wallet id m k =
    as_admin host admin_key header ip m k λ k1. for_address wallet k1 (revoke_for host wallet id m)

-- A ValueError is a 400; any other exception leaves the balance unverified.
abbrev pub fund_status : Error → ℕ
fund_status (value_error message) = 400
fund_status e = 503

-- The allocation against the provider's balance, and its audit entry.
unfoldable pub allocate_funds : Host → ℕ → String → ℕ → Moment → Keeper → Http Bool × Keeper
allocate_funds host amount reference available m k =
    elim (allocate host (int (pos amount)) (str reference) (some (int (pos available))) m.now
      k.db) [
        | err e ↦ (refused (fund_status e), k)
        | ok (changed, db) ↦
            if changed
            then audited host "allowance_allocated" "GNK" (take_text 200 reference) fund_status
                changed m (with_db k db)
            else (granted changed, with_db k db)
      ]

-- The amount of gridraft/economics.py's `number`, then the balance.
unfoldable pub fund : Host → Result ℕ → Result ℕ → String → Moment → Keeper → Http Bool × Keeper
fund host (err e) available reference m k = (refused (fund_status e), k)
fund host (ok amount) (err e) reference m k = (refused (fund_status e), k)
fund host (ok amount) (ok available) reference m k =
    allocate_funds host amount reference available m k

-- `admin_fund(body, request)`
unfoldable pub admin_fund :
    Host
    → String
    → String
    → String
    → Bool
    → Result ℕ
    → Result ℕ
    → String
    → Moment
    → Keeper
    → Http Bool × Keeper
admin_fund host admin_key header ip confirmed amount available reference m k =
    as_admin host admin_key header ip m k
      λ k1. if confirmed then fund host amount available reference m k1 else (refused 400, k1)
