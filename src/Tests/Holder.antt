-- ===== src/Tests/Holder.antt =====
-- The holder ledger at concrete databases.
use slipvolt.Base.{
  ℕ, ◌+◌, ◌*◌, ◌≤◌, ◌≡◌, refl, String, true, false, none, some, [], ◌∷◌, arith, inl,
}
use slipvolt.Base.Int.{pos}
use slipvolt.Base.Result.{ok, IsOk}
use slipvolt.Value.{Value, integer, get, null, int, obj, end, field}
use slipvolt.Host.{Host}
use slipvolt.Db.{Db, Totals, State, MemberUsage, ApiKey, second}
use slipvolt.Pool.{insert_usage, update_usage, update_rows}
use slipvolt.Startup.{holder_pending}
use slipvolt.Membership.{
  Admission, reserve, preview, preview_of, admit, quantities, budget_guards, rate_guards,
  insert_reservation, totals, reservation,
}
use slipvolt.Membership.Breaker.{admit-breaker}
use slipvolt.Membership.Limits.{IsWithin, reserve-IsWithin}
use slipvolt.Membership.Previewed.{preview-reserve}
use slipvolt.Settlement.{
  Settlement, Settled, settled_of, settle_found, usage_details, settle, settle_row, find_usage,
}
use slipvolt.Settlement.Lifecycle.{Reach, here, next, reserved, settled, IsSound}
use slipvolt.Settlement.Once.{Reach-IsSound, Reach-closed}
use slipvolt.Settlement.Retries.{reserve_once, settle_once}
use slipvolt.Settlement.Solvency.{IsSolvent, start, then_step, PrudentReach-IsSolvent}
use slipvolt.Settlement.Recorded.{settle-Records, Records}

abbrev pub host : Host
host = record {
  is_printable = λ s. true;
  is_blank = λ s. false;
  digest = λ s. s;
  decimal = λ n. "0";
}

abbrev pub key : ApiKey
key = record {
  id = "k1";
  wallet = "w1";
  hash = "h1";
  prefix = "sv_h";
  name = "My API key";
  limit_nusd = 1000;
  spent_nusd = pos 0;
  revoked = false;
  created = 0;
}

abbrev pub empty : Db
empty = record {
  accounts = [];
  credits = [];
  challenges = [];
  sessions = [];
  api_keys = key ∷ [];
  usage = [];
  reconciliations = [];
  rate_hits = [];
  user_admin = [];
  admin_audit = [];
  startup_prepaid = [];
  startup_holder = [];
  member_funding = record { reference = "f1"; amount_ngonka = 100000; created = 0 } ∷ [];
  member_usage = [];
  member_pool_totals =
      some (record { allocated = 100000; spent = 0; reserved = 0; review_count = 0 });
}

abbrev request : String → Admission
request idem = record {
  key_id = some "k1";
  wallet = "w1";
  model = "m";
  idem = idem;
  tokens = int (pos 50);
  wallet_daily = 1000;
  global_daily = 5000;
  ngonka_per_token = int (pos 10);
  upstream_available = int (pos 100000);
  rpm = 30;
  wallet_concurrency = 2;
  global_rpm = 300;
  global_concurrency = 50;
}

abbrev pub at_noon : ℕ
at_noon = 43200 * second

abbrev pub first : Db
first = record empty {
  member_usage =
      reservation (request "i1") (record { tokens = 50; amount = 500; upstream = 100000 }) "k1" "r1"
        at_noon
      ∷ [];
  member_pool_totals =
      some (record { allocated = 100000; spent = 0; reserved = 500; review_count = 0 });
}

reserve-first : reserve (request "i1") "r1" at_noon empty ≡ ok (some "r1", first)
unfolding reserve admit quantities budget_guards rate_guards insert_reservation totals
    holder_pending integer insert_usage
reserve-first = refl

pub empty-IsSound : IsSound empty
empty-IsSound = record { projected = refl; apart = tt }

pub first-IsSound : IsSound first
first-IsSound = record { projected = refl; apart = (refl, tt) }

reserve-IsWithin_example :
    (t : Totals) × (first.member_pool_totals ≡ some t)
    × IsWithin (request "i1") 1000 at_noon first t
reserve-IsWithin_example =
    reserve-IsWithin (request "i1") "r1" at_noon empty first (some "r1") refl reserve-first

preview-reserve_example :
    preview (request "i2") "r2" at_noon first
    ≡ preview_of (reserve (request "i2") "r2" at_noon first)
preview-reserve_example = preview-reserve (request "i2") "k1" "r2" at_noon first refl refl refl refl

reserve_once_example : ¬ IsOk (reserve (request "i1") "r9" (at_noon + second) first)
reserve_once_example =
    reserve_once (request "i1") (request "i1") "r1" "r9" at_noon (at_noon + second) empty first
      first (some "r1") empty-IsSound reserve-first here refl refl

-- Usage as the gateway reports it.
abbrev usage : Value
usage = obj (
    field "prompt_tokens" (int (pos 20)) (
      field "completion_tokens" (int (pos 10)) (
        field "total_tokens" (int (pos 30))
          (field "cached_input_tokens" (int (pos 5)) (field "reasoning_tokens" null end)))))

abbrev settlement : Settlement
settlement = record {
  rid = "r1";
  tokens = int (pos 30);
  cost = int (pos 300);
  source = "devshard_1";
  upstream_id = some "u1";
  evidence = none;
  usage = usage;
}

abbrev charge : Settled
charge = record {
  tokens = 30;
  cost = 300;
  source = "devshard_1";
  details = record { prompt = some 20; completion = some 10; cached = some 5; reasoning = none };
  upstream_id = some "u1";
  evidence = none;
}

abbrev closed_row : MemberUsage
closed_row = settle_row charge (
    reservation (request "i1") (record { tokens = 50; amount = 500; upstream = 100000 }) "k1" "r1"
      at_noon)

abbrev second_db : Db
second_db = record first {
  member_usage = closed_row ∷ [];
  member_pool_totals =
      some (record { allocated = 100000; spent = 300; reserved = 0; review_count = 0 });
}

settle-first : settle settlement first ≡ ok (true, second_db)
unfolding settle settled_of usage_details settle_found update_usage update_rows integer get
settle-first = refl

settle_again : settle settlement second_db ≡ ok (false, second_db)
unfolding settle settled_of usage_details settle_found update_usage update_rows integer get
settle_again = refl

settle_once_example : (false ≡ false) × (second_db ≡ second_db)
settle_once_example =
    settle_once settlement settlement first second_db second_db second_db false first-IsSound
      settle-first here refl settle_again

settle-Records_example : Records settlement first second_db
settle-Records_example = settle-Records settlement first second_db refl settle-first

-- The run that reserves and settles.
abbrev run : Reach empty second_db
run =
    next (next here (reserved (request "i1") "r1" at_noon reserve-first))
      (settled settlement settle-first)

Reach-IsSound_example : IsSound second_db
Reach-IsSound_example = Reach-IsSound empty-IsSound run

second_db-IsSound : IsSound second_db
second_db-IsSound = record { projected = refl; apart = (refl, tt) }

Reach-closed_example : find_usage "r1" second_db ≡ some closed_row
Reach-closed_example =
    Reach-closed "r1" closed_row second_db-IsSound refl refl
      (next here (settled settlement settle_again))

within_hold :
    (row : MemberUsage) (s : Settled)
    → find_usage "r1" first ≡ some row
    → settled_of settlement ≡ ok s
    → s.cost ≤ row.reserved_ngonka
unfolding settled_of usage_details integer get
within_hold row s er es = ground arith

PrudentReach-IsSolvent_example : IsSound second_db × IsSolvent second_db
PrudentReach-IsSolvent_example = PrudentReach-IsSolvent empty-IsSound (omega arith) (
    then_step (then_step start (reserved (request "i1") "r1" at_noon reserve-first) tt)
      (settled settlement settle-first) within_hold)

abbrev uncertain : Db
uncertain = record first {
  member_usage =
      record closed_row { state = State.needs_review; reserved_ngonka = 500; cost_ngonka = 0 } ∷ [];
  member_pool_totals =
      some (record { allocated = 100000; spent = 0; reserved = 500; review_count = 1 });
}

admit-breaker_example : ¬ IsOk (admit true (request "i2") "r2" at_noon uncertain)
admit-breaker_example = admit-breaker true (request "i2") "r2" at_noon uncertain refl (inl refl)
