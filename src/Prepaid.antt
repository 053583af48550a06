-- ===== src/Prepaid.antt =====
-- The prepaid ledger (gridraft/store.py): credits, reservations, settlements and reviews, in integer
-- nano-USD. An operation is `Db → Result (A × Db)`: it raises before its first write or inside its
-- transaction, so that after an error the database is the one before the call.
pub mod Booked
pub mod Held
pub mod Covered
pub mod Credited
use slipvolt.Base.{
  ℕ, ◌+◌, ◌*◌, ◌/◌, String, Bool, true, false, not, ◌&&◌, ◌||◌, Option, none, some, List, [], ◌∷◌,
  ◌++◌, ltb, leb, if◌then◌else◌, str_eq, any, ◌==◌,
}
use slipvolt.Base.Int.{ℤ, pos, negsuc, ◌+ℤ◌, ◌-ℤ◌, ltb_ℤ}
use slipvolt.Base.Result.{
  Result, ok, err, value_error, integrity_error, type_error, ◌>>=◌, ◌>>◌, raise_if, or_raise,
}
use slipvolt.Value.{Value, int, ceiling}
use slipvolt.Host.{Host, len}
use slipvolt.Db.{
  Db, Account, ApiKey, Credit, Usage, Reconciliation, State, is_held, is_reserved, is_review,
  second, day_length,
}
use slipvolt.Db.Sql.{find, count, sum, update}
use slipvolt.Startup.{prepaid_pending}

abbrev pub wallet_of : Account → String
wallet_of a = a.wallet

abbrev pub has_account : String → Account → Bool
has_account wallet a = str_eq a.wallet wallet

abbrev pub find_account : String → Db → Option Account
find_account wallet db = find (has_account wallet) db.accounts

-- INSERT OR IGNORE INTO accounts(wallet)
unfoldable pub ensure_account : String → Db → Db
ensure_account wallet db = if any (has_account wallet) db.accounts then db else record db {
  accounts = db.accounts ++ record { wallet = wallet; balance_nusd = pos 0 } ∷ [];
}

-- UPDATE accounts SET balance_nusd=balance_nusd+? WHERE wallet=?
abbrev pub add_balance : ℤ → Account → Account
add_balance d a = record a { balance_nusd = a.balance_nusd +ℤ d }

abbrev pub pay : String → ℤ → Db → Db
pay wallet d db = record db { accounts = update (has_account wallet) (add_balance d) db.accounts }

-- `type(amount) is int and minimum <= amount <= maximum`
unfoldable pub whole : Value → ℕ → String → Result ℕ
whole (int (pos n)) maximum message = if leb n maximum then ok n else err (value_error message)
whole _ maximum message = err (value_error message)

-- `type(amount) is int and amount > 0`
unfoldable pub positive : Value → String → Result ℕ
positive (int (pos n)) message = if n == 0 then err (value_error message) else ok n
positive _ message = err (value_error message)

-- The row that a credit inserts.
abbrev pub credit_row : String → ℕ → String → ℕ → Credit
credit_row wallet n reference now = record {
  reference = reference;
  wallet = wallet;
  amount_nusd = n;
  created = now;
}

-- The part of `credit` after the check of its arguments.
unfoldable pub credit_new : String → ℕ → String → ℕ → Db → Result (Unit {0} × Db)
credit_new wallet n reference now db =
    let db1 = ensure_account wallet db in
    elim (find_account wallet db1) [
      | none ↦ err type_error
      | some account ↦ do
        raise_if (ltb_ℤ (pos ceiling) (account.balance_nusd +ℤ pos n)) "Balance limit exceeded"
        ok (
          tt,
          pay wallet (pos n)
              (record db1 { credits = db1.credits ++ credit_row wallet n reference now ∷ [] }),
        )
    ]

-- `credit(wallet, amount, reference)`
unfoldable pub credit : String → Value → String → ℕ → Db → Result (Unit {0} × Db)
credit wallet amount reference now db = do
  n ← whole amount ceiling "Invalid credit or reference"
  raise_if (not (leb 1 (len reference) && leb (len reference) 200)) "Invalid credit or reference"
  elim (find (λ (c : Credit). str_eq c.reference reference) db.credits) [
    | some old ↦ do
      raise_if (not (str_eq old.wallet wallet && old.amount_nusd == n))
          "Reference already exists with different details"
      ok (tt, db)
    | none ↦ credit_new wallet n reference now db
  ]

-- `needs_review()`
unfoldable pub needs_review : Db → Bool
needs_review db = any (λ (u : Usage). is_review u.state) db.usage || prepaid_pending db

-- What a row weighs in a budget: its hold while it is open, its bill after.
abbrev pub charge : Usage → ℕ
charge u = if is_held u.state then u.reserved_nusd else u.billed_nusd

abbrev pub of_wallet : Option String → String → Bool
of_wallet none w = true
of_wallet (some wallet) w = str_eq w wallet

-- `budget_usage(wallet)`
unfoldable pub budget_usage : Option String → ℕ → Db → ℕ
budget_usage who now db =
    let day = now / day_length * day_length in
    sum
      (λ (u : Usage).
        if (leb day u.created || is_held u.state) && of_wallet who u.wallet then charge u else 0)
      db.usage

-- The arguments of `reserve`.
pub record Hold : Type 0 where
  pub key_id : String
  pub wallet : String
  pub amount : Value
  pub idem : String
  pub model : String
  pub rate_limit : ℕ
  pub daily_budget : Option ℕ
  pub wallet_daily_budget : Option ℕ

abbrev pub active_key : String → String → ApiKey → Bool
active_key id wallet k = str_eq k.id id && str_eq k.wallet wallet && not k.revoked

abbrev pub same_request : String → String → Usage → Bool
same_request key idem u = str_eq u.key_id key && str_eq u.idem idem

-- created > now - 60
abbrev pub recent : ℕ → Usage → Bool
recent now u = ltb now (u.created + 60 * second)

-- `budget is not None and used + amount > budget`
abbrev pub over_budget : Option ℕ → ℕ → ℕ → Bool
over_budget none used amount = false
over_budget (some budget) used amount = ltb budget (used + amount)

-- The guards of `reserve` on counts, reviews and budgets.
unfoldable pub hold_guards : Hold → ℕ → ℕ → Db → Result (Unit {0})
hold_guards h n now db = do
  raise_if (any (same_request h.key_id h.idem) db.usage) "duplicate_request"
  raise_if
      (leb h.rate_limit (count (λ (u : Usage). str_eq u.wallet h.wallet && recent now u) db.usage)
        || leb 300 (count (recent now) db.usage)
        || leb 3 (count (λ (u : Usage). str_eq u.wallet h.wallet && is_reserved u.state) db.usage))
      "rate_limit"
  raise_if (needs_review db) "billing_review_required"
  raise_if (over_budget h.daily_budget (budget_usage none now db) n) "daily_budget"
  raise_if (over_budget h.wallet_daily_budget (budget_usage (some h.wallet) now db) n)
      "wallet_daily_budget"

abbrev pub hold_row : Hold → ℕ → String → ℕ → Usage
hold_row h n rid now = record {
  id = rid;
  key_id = h.key_id;
  wallet = h.wallet;
  idem = h.idem;
  model = h.model;
  reserved_nusd = n;
  billed_nusd = 0;
  state = State.reserved;
  prompt_tokens = none;
  completion_tokens = none;
  upstream_id = none;
  created = now;
}

abbrev pub has_id : String → Usage → Bool
has_id rid u = str_eq u.id rid

abbrev pub has_key_id : String → ApiKey → Bool
has_key_id id k = str_eq k.id id

-- UPDATE api_keys SET spent_nusd=spent_nusd+? WHERE id=?
abbrev pub add_spent : ℤ → ApiKey → ApiKey
add_spent d k = record k { spent_nusd = k.spent_nusd +ℤ d }

-- The three writes of `reserve`; `usage` has a primary key and UNIQUE(key_id,idem).
unfoldable pub write_hold : Hold → ℕ → String → ℕ → Db → Result (String × Db)
write_hold h n rid now db =
    if any (λ u. has_id rid u || same_request h.key_id h.idem u) db.usage
    then err integrity_error
    else ok (
      rid,
      record db {
        accounts = update (has_account h.wallet) (add_balance (pos 0 -ℤ pos n)) db.accounts;
        api_keys = update (has_key_id h.key_id) (add_spent (pos n)) db.api_keys;
        usage = db.usage ++ hold_row h n rid now ∷ [];
      },
    )

-- `key['spent_nusd']+amount>key['limit_nusd']`, then the balance
unfoldable pub funds_guards : Option ApiKey → Option Account → ℕ → Result (Unit {0})
funds_guards none account n = err (value_error "invalid_key")
funds_guards (some key) account n = do
  raise_if (ltb_ℤ (pos key.limit_nusd) (key.spent_nusd +ℤ pos n)) "key_limit"
  a ← or_raise account "insufficient_credit"
  raise_if (ltb_ℤ a.balance_nusd (pos n)) "insufficient_credit"

-- `reserve(...)`
unfoldable pub reserve : Hold → String → ℕ → Db → Result (String × Db)
reserve h rid now db = do
  n ← positive h.amount "Invalid reservation"
  key ← or_raise (find (active_key h.key_id h.wallet) db.api_keys) "invalid_key"
  hold_guards h n now db
  funds_guards (some key) (find_account h.wallet db) n
  write_hold h n rid now db
