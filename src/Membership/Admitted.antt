-- ===== src/Membership/Admitted.antt =====
-- What admission checks, as one predicate.
use slipvolt.Base.{
  ℕ, ◌+◌, ◌≤◌, ◌<◌, ◌≡◌, ◌↔◌, String, Bool, true, false, ◌||◌, Option, none, some, arith, any,
  is_some, if◌then◌else◌,
}
use slipvolt.Base.Result.{Result, ok, >>=-eq-ok}
use slipvolt.Value.{integer_range}
use slipvolt.Db.{Db, Totals}
use slipvolt.Startup.{holder_pending}
use slipvolt.Membership.{
  Admission, Quantities, admit, quantities, budget_guards, rate_guards, insert_reservation, totals,
  wallet_active, global_active, wallet_recent, global_recent, active_key, same_request, user_row,
  is_disabled, wallet_allowance,
}

-- The budgets that the request must fit, `t` being the row of pool totals.
pub record FitsBudget (a : Admission) (q : Quantities) (daily now : ℕ) (db : Db) (t : Totals)
    : Type 0 where
  pub reviewed : t.review_count ≡ 0
  pub started : holder_pending db ≡ false
  pub funded : t.spent + t.reserved + q.amount ≤ t.allocated
  pub covered : t.reserved + q.amount ≤ q.upstream
  pub in_wallet :
      (totals (some a.wallet) now db).used_tokens
        + (totals (some a.wallet) now db).reserved_tokens
        + q.tokens
      ≤ daily
  pub in_shared :
      (totals none now db).used_tokens + (totals none now db).reserved_tokens + q.tokens
      ≤ a.global_daily

pub record FitsRates (a : Admission) (now : ℕ) (db : Db) : Type 0 where
  pub slot : wallet_active a db < a.wallet_concurrency
  pub global_slot : global_active db < a.global_concurrency
  pub minute : wallet_recent a now db < a.rpm
  pub global_minute : global_recent now db < a.global_rpm

pub budget_guards_iff :
    (a : Admission) (q : Quantities) (daily now : ℕ) (db : Db) (t : Totals)
    → db.member_pool_totals ≡ some t
    → 1 ≤ q.amount
    → (budget_guards a q daily now db ≡ ok tt) ↔ FitsBudget a q daily now db t
unfolding budget_guards
budget_guards_iff a q daily now db t h pos_amount = (λ e. ground arith, λ f. ground arith)

pub rate_guards_iff :
    (a : Admission) (now : ℕ) (db : Db) → (rate_guards a now db ≡ ok tt) ↔ FitsRates a now db
unfolding rate_guards
rate_guards_iff a now db = (λ e. ground arith, λ f. ground arith)

pub quantities_range :
    (a : Admission) (q : Quantities) → quantities a ≡ ok q → (1 ≤ q.tokens) × (1 ≤ q.amount)
unfolding quantities
quantities_range a q e = grind (arith, integer_range)

-- Everything that `_admit` asks for.
pub record Admissible (commit : Bool) (a : Admission) (q : Quantities) (now : ℕ) (db : Db)
    (t : Totals) : Type 0 where
  pub known :
      (is_some a.key_id || commit) ≡ true → any (active_key a.key_id a.wallet) db.api_keys ≡ true
  pub enabled : is_disabled (user_row a.wallet db) ≡ false
  pub fresh : commit ≡ true → any (same_request a.key_id a.idem) db.member_usage ≡ false
  pub budget : FitsBudget a q (wallet_allowance (user_row a.wallet db) a.wallet_daily) now db t
  pub rates : FitsRates a now db

-- What `_admit` does once its guards are passed.
abbrev pub conclude : Bool → Admission → Quantities → String → ℕ → Db → Result (Option String × Db)
conclude commit a q rid now db = if commit then insert_reservation a q rid now db else ok (none, db)

pub admit-Admissible :
    (commit : Bool) (a : Admission) (q : Quantities) (rid : String) (now : ℕ) (db : Db) (t : Totals)
    → quantities a ≡ ok q
    → db.member_pool_totals ≡ some t
    → Admissible commit a q now db t
    → admit commit a rid now db ≡ conclude commit a q rid now db
unfolding admit
admit-Admissible commit a q rid now db t eq et h = ground (
  arith,
  (budget_guards_iff a q (wallet_allowance (user_row a.wallet db) a.wallet_daily) now db t et
        (quantities_range a q eq).1).1
      h.budget,
  (rate_guards_iff a now db).1 h.rates,
)

-- A successful call passed every guard.
pub admit_inversion :
    (commit : Bool) (a : Admission) (rid : String) (now : ℕ) (db : Db) (r : Option String × Db)
    → admit commit a rid now db ≡ ok r
    → (q : Quantities) × (quantities a ≡ ok q)
      × (conclude commit a q rid now db ≡ ok r)
      × ((t : Totals) → db.member_pool_totals ≡ some t → Admissible commit a q now db t)
unfolding admit
admit_inversion commit a rid now db r e =
    let (q, eq, e') = >>=-eq-ok (quantities a) _ e in
    (
      q,
      eq,
      ground arith,
      λ t et. record {
        known = ground arith;
        enabled = ground arith;
        fresh = ground arith;
        budget = (budget_guards_iff a q _ now db t et (quantities_range a q eq).1).0 (ground arith);
        rates = (rate_guards_iff a now db).0 (ground arith);
      },
    )
