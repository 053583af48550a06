-- ===== src/Tests/Prepaid.antt =====
-- The prepaid ledger and the keys at concrete databases.
use slipvolt.Base.{ℕ, ◌≤◌, ◌≡◌, ◌≢◌, refl, String, true, false, none, some, [], ◌∷◌, arith, inl}
use slipvolt.Base.Int.{pos, ◌+ℤ◌, ◌≤ℤ◌, ◌-ℤ◌}
use slipvolt.Base.Result.{ok, IsOk}
use slipvolt.Value.{int}
use slipvolt.Db.{Db, Account, ApiKey, State}
use slipvolt.Db.Sql.{find, count}
use slipvolt.Startup.{prepaid_pending}
use slipvolt.Prepaid.{
  Hold, reserve, credit, credit_new, ensure_account, find_account, needs_review, hold_guards,
  funds_guards, write_hold, positive, whole, budget_usage, active_key, hold_row,
}
use slipvolt.Prepaid.Booked.{IsBooked}
use slipvolt.Prepaid.Covered.{reserve_covered}
use slipvolt.Billing.{Bill, settle, settle_found, write_evidence, bill_row}
use slipvolt.Billing.Run.{
  here, next, credited_by, reserved, settled, Reach-IsBooked, reserve-breaker,
}
use slipvolt.Keys.{
  issue_key, insert_key, lookup_key, revoke, revoke_all_keys, audit, key_row, owned, is_active,
}
use slipvolt.Keys.Active.{
  lookup_key-issue_key, issue_key-bound, lookup_key-revoke, revoke_all_keys_effect,
}
use slipvolt.Tests.Holder.{host, key, empty, at_noon}

abbrev hold : Hold
hold = record {
  key_id = "k1";
  wallet = "w1";
  amount = int (pos 200);
  idem = "i1";
  model = "m";
  rate_limit = 30;
  daily_budget = some 1000;
  wallet_daily_budget = none;
}

-- No account yet.
abbrev bare : Db
bare = record empty { api_keys = record key { limit_nusd = 500 } ∷ [] }

abbrev pub funded : Db
funded = record bare {
  accounts = record { wallet = "w1"; balance_nusd = pos 700 } ∷ [];
  credits = record { reference = "c1"; wallet = "w1"; amount_nusd = 700; created = at_noon } ∷ [];
}

abbrev held : Db
held = record funded {
  accounts = record { wallet = "w1"; balance_nusd = pos 500 } ∷ [];
  api_keys = record key { limit_nusd = 500; spent_nusd = pos 200 } ∷ [];
  usage = hold_row hold 200 "r1" at_noon ∷ [];
}

abbrev bill : Bill
bill = record {
  rid = "r1";
  billed = int (pos 150);
  state = State.settled;
  prompt = some 20;
  completion = some 10;
  upstream_id = some "u1";
  evidence = none;
}

abbrev billed : Db
billed = record held {
  accounts = record { wallet = "w1"; balance_nusd = pos 550 } ∷ [];
  api_keys = record key { limit_nusd = 500; spent_nusd = pos 150 } ∷ [];
  usage = bill_row bill 150 (hold_row hold 200 "r1" at_noon) ∷ [];
}

credit-bare : credit "w1" (int (pos 700)) "c1" at_noon bare ≡ ok (tt, funded)
unfolding credit whole credit_new ensure_account ◌+ℤ◌
credit-bare = refl

reserve_funded : reserve hold "r1" at_noon funded ≡ ok ("r1", held)
unfolding reserve positive hold_guards funds_guards write_hold needs_review prepaid_pending
    budget_usage ◌+ℤ◌ ◌-ℤ◌
reserve_funded = refl

settle-held : settle host bill at_noon held ≡ ok (true, billed)
unfolding settle whole settle_found write_evidence ◌+ℤ◌ ◌-ℤ◌
settle-held = refl

bare-IsBooked : IsBooked bare
bare-IsBooked = record {
  ids = tt;
  balanced = λ wallet a e. ground arith;
  metered = λ id k e. ground arith;
  user_known = λ wallet e. refl;
  key_known = λ id e. refl;
  credit_known = λ wallet e. refl;
}

Reach-IsBooked_example : IsBooked billed
Reach-IsBooked_example = Reach-IsBooked bare-IsBooked (
    next
      (next (next here (credited_by "w1" (int (pos 700)) "c1" at_noon credit-bare))
        (reserved hold "r1" at_noon reserve_funded))
      (settled bill at_noon refl settle-held))

reserve_covered_example :
    (n : ℕ) × (a a' : Account) × (k k' : ApiKey) × (hold.amount ≡ int (pos n))
    × (find_account "w1" funded ≡ some a)
    × (find_account "w1" held ≡ some a')
    × (find (active_key "k1" "w1") funded.api_keys ≡ some k)
    × (find (active_key "k1" "w1") held.api_keys ≡ some k')
    × (a'.balance_nusd +ℤ pos n ≡ a.balance_nusd)
    × (k'.spent_nusd ≡ k.spent_nusd +ℤ pos n)
    × (pos 0 ≤ℤ a'.balance_nusd)
    × (k'.spent_nusd ≤ℤ pos k'.limit_nusd)
reserve_covered_example = reserve_covered hold "r1" "r1" at_noon funded held reserve_funded

-- The hold of the request is in review.
abbrev in_review : Db
in_review = record held {
  usage = record (hold_row hold 200 "r1" at_noon) { state = State.needs_review } ∷ [];
}

reserve-breaker_example : ¬ IsOk (reserve (record hold { idem = "i2" }) "r2" at_noon in_review)
reserve-breaker_example =
    reserve-breaker (record hold { idem = "i2" }) "r2" at_noon in_review (inl refl)

abbrev fresh : ApiKey
fresh = key_row host "w1" "second" 400 "token" "k2" at_noon

abbrev keyed : Db
keyed = record empty { api_keys = key ∷ fresh ∷ [] }

issue_second : issue_key host "w1" "second" 400 "token" "k2" at_noon empty ≡ ok ("sv_token", keyed)
unfolding issue_key insert_key
issue_second = refl

lookup_key-issue_key_example : lookup_key host "sv_token" keyed ≡ some fresh
lookup_key-issue_key_example =
    lookup_key-issue_key host "w1" "second" 400 "token" "k2" at_noon empty keyed "sv_token"
      (omega arith) issue_second

issue_key-bound_example : count (is_active "w1") keyed.api_keys ≤ 10
issue_key-bound_example =
    issue_key-bound host "w1" "second" 400 "token" "k2" at_noon empty keyed "sv_token" "w1"
      issue_second (omega arith)

lookup_other : lookup_key host "sv_token" (revoke "k1" "w1" keyed).1 ≡ some fresh
unfolding lookup_key revoke
lookup_other = refl

lookup_key-revoke_example : owned "k1" "w1" fresh ≡ false
lookup_key-revoke_example = lookup_key-revoke host "k1" "w1" "sv_token" keyed fresh lookup_other

abbrev no_keys : Db
no_keys = record keyed {
  api_keys = record key { revoked = true } ∷ record fresh { revoked = true } ∷ [];
  admin_audit =
      record { action = "wallet_keys_revoked"; target = "w1"; note = "0 keys"; created = at_noon }
      ∷ [];
}

revoke_both : revoke_all_keys host "w1" at_noon keyed ≡ ok (2, no_keys)
unfolding revoke_all_keys audit
revoke_both = refl

revoke_all_keys_effect_example :
    (2 ≡ count (is_active "w1") keyed.api_keys)
    × (count (is_active "w1") no_keys.api_keys ≡ 0)
    × ((other : String)
        → "w1" ≢ other
        → count (is_active other) no_keys.api_keys ≡ count (is_active other) keyed.api_keys)
revoke_all_keys_effect_example =
    revoke_all_keys_effect host "w1" at_noon keyed no_keys 2 revoke_both
