-- ===== src/App/Ingress.antt =====
-- What every route begins with (gridraft/app.py: `throttle`, `session`, `require_enabled_user`,
-- `admin_auth`; gridraft/route_support.py: `authenticate_admin`).
use Prim.Native.String.{[] as empty_text, ◌∷◌ as ◌∷ₛ◌, ◌++◌ as ◌++ₛ◌}
use text.Mathlib.Text.{starts_with}
use slipvolt.Base.{ℕ, zero, suc, String, Bool, not, ◌||◌, ltb, if◌then◌else◌, str_eq, all}
use slipvolt.Base.Result.{Error, value_error, integrity_error, type_error}
use slipvolt.Host.{Host, len}
use slipvolt.Db.{Db}
use slipvolt.Burn.{codes}
use slipvolt.Membership.{user_row, is_disabled}
use slipvolt.Sessions.{session_wallet}
use slipvolt.Sessions.Throttle.{Keeper, throttle}
use slipvolt.App.Http.{Http, refused, granted, ◌>>◌, refuse_if, or_refuse}

-- The two clocks when a request is handled.
pub record Moment : Type 0 where
  pub now : ℕ
  pub monotonic : ℕ

abbrev pub with_db : Keeper → Db → Keeper
with_db k db = record k { db = db }

-- `throttle(request, action, limit)`, then the rest of the route
unfoldable pub limited {ℓ} :
    {A : Type ℓ}
    → Host
    → String
    → String
    → ℕ
    → Moment
    → Keeper
    → (Keeper → Http A × Keeper)
    → Http A × Keeper
limited host action ip limit m k rest =
    let (admitted, k1) = throttle (host.digest (action ++ₛ ip)) limit 60 m.now m.monotonic k in
    if admitted then rest k1 else (refused 429, k1)

-- `session(request)`: the cookie is "" where there is none.
unfoldable pub session : Host → String → Moment → Db → Http String
session host cookie m db = or_refuse (session_wallet host cookie m.now db) 401

-- `require_enabled_user(wallet)`
unfoldable pub require_enabled_user : String → Db → Http (Unit {0})
require_enabled_user wallet db = refuse_if (is_disabled (user_row wallet db)) 403

-- text[n:]
abbrev pub drop_text : ℕ → String → String
drop_text zero s = s
drop_text (suc n) empty_text = empty_text
drop_text (suc n) (c ∷ₛ s) = drop_text n s

-- `header[7:] if header.startswith('Bearer ') else ''`
abbrev pub bearer : String → String
bearer header = if starts_with header "Bearer " then drop_text 7 header else ""

abbrev pub is_ascii : String → Bool
is_ascii s = all (λ c. ltb c 128) (codes s)

-- `authenticate_admin(request, settings, require_origin=False)`; no key is "".
unfoldable pub authenticate_admin : String → String → Http (Unit {0})
authenticate_admin admin_key header = do
  refuse_if (str_eq admin_key "") 503
  let key = bearer header
  refuse_if (str_eq key "" || not (is_ascii key) || ltb 512 (len key) || not (str_eq key admin_key))
      401

-- `admin_auth(request)`, then the rest of the route
unfoldable pub as_admin {ℓ} :
    {A : Type ℓ}
    → Host
    → String
    → String
    → String
    → Moment
    → Keeper
    → (Keeper → Http A × Keeper)
    → Http A × Keeper
as_admin host admin_key header ip m k rest =
    if str_eq admin_key ""
    then (refused 503, k)
    else limited host "admin-auth" ip 120 m k λ k1. elim (authenticate_admin admin_key header) [
      | refused status ↦ (refused status, k1)
      | granted u ↦ rest k1
    ]

-- A ValueError becomes a 400; another exception is the server's error.
abbrev pub error_status : Error → ℕ
error_status (value_error message) = 400
error_status integrity_error = 500
error_status type_error = 500
