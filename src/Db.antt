-- ===== src/Db.antt =====
-- The tables of the SQLite database (gridraft/store.py, gridraft/membership.py and
-- gridraft/ledger_totals.py): a record for each kind of row, and one record for the database.
-- A row list stands in rowid order. Times are ticks, a million to the second.
pub mod Sql
pub mod Keyed
use slipvolt.Base.{ℕ, ◌*◌, String, Bool, Option, List}
use slipvolt.Base.Int.{ℤ}

abbrev pub second : ℕ
second = 1000000

-- time.time() // 86400, on ticks
abbrev pub day_length : ℕ
day_length = 86400 * second

-- The states of a usage row. `operator_settled` is written by the prepaid ledger alone.
pub data State : Type 0 where
  reserved needs_review settled operator_settled : State

-- state IN ('reserved','needs_review')
abbrev pub is_held : State → Bool
is_held State.reserved = Bool.true
is_held State.needs_review = Bool.true
is_held State.settled = Bool.false
is_held State.operator_settled = Bool.false

abbrev pub is_reserved : State → Bool
is_reserved State.reserved = Bool.true
is_reserved _ = Bool.false

abbrev pub is_review : State → Bool
is_review State.needs_review = Bool.true
is_review _ = Bool.false

pub record Account : Type 0 where
  pub wallet : String
  pub balance_nusd : ℤ

pub record Credit : Type 0 where
  pub reference : String
  pub wallet : String
  pub amount_nusd : ℕ
  pub created : ℕ

pub record ApiKey : Type 0 where
  pub id : String
  pub wallet : String
  pub hash : String
  pub prefix : String
  pub name : String
  pub limit_nusd : ℕ
  pub spent_nusd : ℤ
  pub revoked : Bool
  pub created : ℕ

-- A row of `usage`, the prepaid ledger.
pub record Usage : Type 0 where
  pub id : String
  pub key_id : String
  pub wallet : String
  pub idem : String
  pub model : String
  pub reserved_nusd : ℕ
  pub billed_nusd : ℕ
  pub state : State
  pub prompt_tokens : Option ℕ
  pub completion_tokens : Option ℕ
  pub upstream_id : Option String
  pub created : ℕ

pub record Reconciliation : Type 0 where
  pub request_id : String
  pub billed_nusd : ℕ
  pub evidence : String
  pub created : ℕ

pub record UserAdmin : Type 0 where
  pub wallet : String
  pub disabled : Bool
  pub daily_tokens_override : Option ℕ
  pub note : String
  pub updated : ℕ

pub record Audit : Type 0 where
  pub action : String
  pub target : String
  pub note : String
  pub created : ℕ

pub record Challenge : Type 0 where
  pub id : String
  pub wallet : String
  pub message : String
  pub expires : ℕ

pub record Session : Type 0 where
  pub hash : String
  pub wallet : String
  pub expires : ℕ

pub record RateHit : Type 0 where
  pub bucket : String
  pub created : ℕ

pub record Funding : Type 0 where
  pub reference : String
  pub amount_ngonka : ℕ
  pub created : ℕ

-- A row of `member_usage`, the holder ledger.
pub record MemberUsage : Type 0 where
  pub id : String
  pub key_id : String
  pub wallet : String
  pub idem : String
  pub model : String
  pub reserved_tokens : ℕ
  pub tokens : ℕ
  pub reserved_ngonka : ℕ
  pub cost_ngonka : ℕ
  pub cost_source : Option String
  pub prompt_tokens : Option ℕ
  pub completion_tokens : Option ℕ
  pub cached_input_tokens : Option ℕ
  pub reasoning_tokens : Option ℕ
  pub state : State
  pub upstream_id : Option String
  pub evidence : Option String
  pub created : ℕ

-- The row of `member_pool_totals`.
pub record Totals : Type 0 where
  pub allocated : ℕ
  pub spent : ℕ
  pub reserved : ℕ
  pub review_count : ℕ

pub record Db : Type 0 where
  pub accounts : List Account
  pub credits : List Credit
  pub challenges : List Challenge
  pub sessions : List Session
  pub api_keys : List ApiKey
  pub usage : List Usage
  pub reconciliations : List Reconciliation
  pub rate_hits : List RateHit
  pub user_admin : List UserAdmin
  pub admin_audit : List Audit
  pub startup_prepaid : List String
  pub startup_holder : List String
  pub member_funding : List Funding
  pub member_usage : List MemberUsage
  pub member_pool_totals : Option Totals
