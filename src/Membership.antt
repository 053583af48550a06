-- ===== src/Membership.antt =====
-- The holder ledger (gridraft/membership.py): allocation, admission, settlement and review of
-- finite allowances. An operation is `Db → Result (A × Db)`: it raises before its first write or
-- inside its transaction, so that after an error the database is the one before the call. The id
-- that `uuid4` draws and the clock are arguments.
pub mod Projected
pub mod Admitted
pub mod Reserved
pub mod Limits
pub mod Previewed
pub mod Breaker
use slipvolt.Base.{
  ℕ, ◌+◌, ◌-◌, ◌*◌, ◌/◌, String, Bool, true, false, not, ◌&&◌, ◌||◌, Option, none, some, List, [],
  ◌∷◌, ltb, leb, ◌==◌, if◌then◌else◌, str_eq, any, is_some,
}
use slipvolt.Base.Int.{pos}
use slipvolt.Base.Result.{
  Result, ok, err, Error, value_error, integrity_error, type_error, ◌>>=◌, ◌>>◌, raise_if, or_raise,
}
use slipvolt.Value.{Value, Fields, null, int, str, obj, get, is_null, integer, ceiling}
use slipvolt.Host.{Host, len}
use slipvolt.Db.{
  Db, ApiKey, Funding, MemberUsage, Totals, UserAdmin, State, is_held, is_reserved, second,
  day_length,
}
use slipvolt.Db.Sql.{find, count, sum}
use slipvolt.Pool.{insert_funding, insert_usage, update_usage}
use slipvolt.Startup.{holder_pending}

-- `pool()`
pub record Pool : Type 0 where
  pub allocated : ℕ
  pub budget_spent : ℕ
  pub reserved : ℕ
  pub available_budget : ℕ
  pub reconciliation_required : Bool

unfoldable pub pool : Db → Result Pool
pool db = do
  t ← or_raise db.member_pool_totals "Missing GNK budget projection; stop and repair the database"
  ok (record {
    allocated = t.allocated;
    budget_spent = t.spent;
    reserved = t.reserved;
    available_budget = t.allocated - t.spent - t.reserved;
    reconciliation_required = not (t.review_count == 0) || holder_pending db;
  })

-- `isinstance(reference, str) and 1 <= len(reference) <= 150 and reference.isprintable()`
abbrev pub accepted_reference : Host → Value → Result String
accepted_reference host (str s) =
    if leb 1 (len s) && leb (len s) 150 && host.is_printable s
    then ok s
    else err (value_error "A unique non-secret deposit/accounting reference is required")
accepted_reference host _ =
    err (value_error "A unique non-secret deposit/accounting reference is required")

-- The check against the broker's balance, where `upstream_available` is given.
abbrev pub upstream_covers : Option Value → ℕ → Db → Result (Unit {0})
upstream_covers none n db = ok tt
upstream_covers (some available) n db = do
  upstream ← integer available 0 ceiling
  p ← pool db
  raise_if (ltb upstream (p.available_budget + n))
      "Allocation would exceed the currently spendable OpenBroker balance"

-- `allocate(amount, reference, upstream_available=...)`
unfoldable pub allocate : Host → Value → Value → Option Value → ℕ → Db → Result (Bool × Db)
unfolding pool
allocate host amount reference upstream_available now db = do
  n ← integer amount 1 ceiling
  ref ← accepted_reference host reference
  elim (find (λ (f : Funding). str_eq f.reference ref) db.member_funding) [
    | some old ↦
        if old.amount_ngonka == n
        then ok (false, db)
        else err (value_error "Reference already allocated a different amount")
    | none ↦ do
      upstream_covers upstream_available n db
      p ← pool db
      raise_if (ltb ceiling (p.allocated + n)) "Budget too large"
      db' ← insert_funding (record { reference = ref; amount_ngonka = n; created = now }) db
      ok (true, db')
  ]

-- `totals(wallet)`, and `totals(None)` over every wallet
pub record DayTotals : Type 0 where
  pub used_tokens : ℕ
  pub reserved_tokens : ℕ
  pub resets_at : ℕ

-- AND wallet=?, where a wallet is given
abbrev pub of_wallet : Option String → String → Bool
of_wallet none w = true
of_wallet (some wallet) w = str_eq w wallet

unfoldable pub totals : Option String → ℕ → Db → DayTotals
totals who now db =
    let day = now / day_length * day_length in
    record {
      used_tokens =
          sum
            (λ (r : MemberUsage).
              if leb day r.created && of_wallet who r.wallet then r.tokens else 0)
            db.member_usage;
      reserved_tokens =
          sum
            (λ (r : MemberUsage).
              if is_held r.state && of_wallet who r.wallet then r.reserved_tokens else 0)
            db.member_usage;
      resets_at = day + day_length;
    }

-- `store.user_policy(wallet)`, the fields that admission reads
abbrev pub user_row : String → Db → Option UserAdmin
user_row wallet db = find (λ (u : UserAdmin). str_eq u.wallet wallet) db.user_admin

abbrev pub is_disabled : Option UserAdmin → Bool
is_disabled none = false
is_disabled (some u) = u.disabled

-- `policy['daily_tokens_override']` in place of the configured allowance, where it is not None
abbrev pub wallet_allowance : Option UserAdmin → ℕ → ℕ
wallet_allowance none daily = daily
wallet_allowance (some u) daily = elim u.daily_tokens_override [ none ↦ daily | some n ↦ n ]

-- The arguments of `_admit`, less `commit`.
pub record Admission : Type 0 where
  pub key_id : Option String
  pub wallet : String
  pub model : String
  pub idem : String
  pub tokens : Value
  pub wallet_daily : ℕ
  pub global_daily : ℕ
  pub ngonka_per_token : Value
  pub upstream_available : Value
  pub rpm : ℕ
  pub wallet_concurrency : ℕ
  pub global_rpm : ℕ
  pub global_concurrency : ℕ

-- id=? AND wallet=? AND revoked=0; `id=NULL` is never true
abbrev pub active_key : Option String → String → ApiKey → Bool
active_key none wallet k = false
active_key (some id) wallet k = str_eq k.id id && str_eq k.wallet wallet && not k.revoked

-- key_id=? AND idem=?
abbrev pub same_request : Option String → String → MemberUsage → Bool
same_request none idem r = false
same_request (some id) idem r = str_eq r.key_id id && str_eq r.idem idem

-- The quantities of a request: tokens, the ngonka to hold, and the broker's balance.
pub record Quantities : Type 0 where
  pub tokens : ℕ
  pub amount : ℕ
  pub upstream : ℕ

unfoldable pub quantities : Admission → Result Quantities
quantities a = do
  tokens ← integer a.tokens 1 ceiling
  rate ← integer a.ngonka_per_token 1 1000000
  upstream ← integer a.upstream_available 0 ceiling
  amount ← integer (int (pos (tokens * rate))) 1 ceiling
  ok (record { tokens = tokens; amount = amount; upstream = upstream })

-- The rows of the last sixty seconds, and those in flight.
abbrev pub recent : ℕ → MemberUsage → Bool
recent now r = ltb now (r.created + 60 * second)

abbrev pub wallet_recent : Admission → ℕ → Db → ℕ
wallet_recent a now db =
    count (λ (r : MemberUsage). str_eq r.wallet a.wallet && recent now r) db.member_usage

abbrev pub wallet_active : Admission → Db → ℕ
wallet_active a db =
    count (λ (r : MemberUsage). str_eq r.wallet a.wallet && is_reserved r.state) db.member_usage

abbrev pub global_recent : ℕ → Db → ℕ
global_recent now db = count (recent now) db.member_usage

abbrev pub global_active : Db → ℕ
global_active db = count (λ (r : MemberUsage). is_reserved r.state) db.member_usage

-- The budget guards of `_admit`.
unfoldable pub budget_guards : Admission → Quantities → ℕ → ℕ → Db → Result (Unit {0})
unfolding pool
budget_guards a q wallet_daily now db = do
  p ← pool db
  raise_if p.reconciliation_required "reconciliation_required"
  raise_if (ltb p.available_budget q.amount) "allowance_pool_unfunded_or_exhausted"
  raise_if (ltb q.upstream (p.reserved + q.amount)) "broker_balance_too_low"
  let w = totals (some a.wallet) now db
  raise_if (ltb wallet_daily (w.used_tokens + w.reserved_tokens + q.tokens))
      "wallet_allowance_exhausted"
  let g = totals none now db
  raise_if (ltb a.global_daily (g.used_tokens + g.reserved_tokens + q.tokens))
      "shared_allowance_exhausted"

-- The rate guards of `_admit`.
unfoldable pub rate_guards : Admission → ℕ → Db → Result (Unit {0})
rate_guards a now db = do
  raise_if (leb a.wallet_concurrency (wallet_active a db)) "wallet_concurrency_limit"
  raise_if (leb a.global_concurrency (global_active db)) "global_concurrency_limit"
  raise_if (leb a.rpm (wallet_recent a now db)) "wallet_rpm_limit"
  raise_if (leb a.global_rpm (global_recent now db)) "global_rpm_limit"

-- The row that a reservation inserts.
abbrev pub reservation : Admission → Quantities → String → String → ℕ → MemberUsage
reservation a q key rid now = record {
  id = rid;
  key_id = key;
  wallet = a.wallet;
  idem = a.idem;
  model = a.model;
  reserved_tokens = q.tokens;
  tokens = 0;
  reserved_ngonka = q.amount;
  cost_ngonka = 0;
  cost_source = none;
  prompt_tokens = none;
  completion_tokens = none;
  cached_input_tokens = none;
  reasoning_tokens = none;
  state = State.reserved;
  upstream_id = none;
  evidence = none;
  created = now;
}

-- INSERT INTO member_usage; key_id is NOT NULL
unfoldable pub insert_reservation :
    Admission → Quantities → String → ℕ → Db → Result (Option String × Db)
insert_reservation a q rid now db = elim a.key_id [
  | none ↦ err integrity_error
  | some key ↦ do db' ← insert_usage (reservation a q key rid now) db; ok (some rid, db')
]

-- `_admit(..., commit=commit)`
unfoldable pub admit : Bool → Admission → String → ℕ → Db → Result (Option String × Db)
admit commit a rid now db = do
  q ← quantities a
  raise_if ((is_some a.key_id || commit) && not (any (active_key a.key_id a.wallet) db.api_keys))
      "invalid_key"
  let policy = user_row a.wallet db
  raise_if (is_disabled policy) "user_disabled"
  raise_if (commit && any (same_request a.key_id a.idem) db.member_usage) "duplicate_request"
  budget_guards a q (wallet_allowance policy a.wallet_daily) now db
  rate_guards a now db
  if commit then insert_reservation a q rid now db else ok (none, db)

unfoldable pub reserve : Admission → String → ℕ → Db → Result (Option String × Db)
reserve a rid now db = admit true a rid now db

pub record Preview : Type 0 where
  pub allowed : Bool
  pub reason_code : Option String

-- `except ValueError`: any other exception goes on.
abbrev pub preview_of : Result (Option String × Db) → Result Preview
preview_of (ok r) = ok (record { allowed = true; reason_code = none })
preview_of (err (value_error text)) = ok (record { allowed = false; reason_code = some text })
preview_of (err e) = err e

unfoldable pub preview : Admission → String → ℕ → Db → Result Preview
preview a rid now db = preview_of (admit false a rid now db)
