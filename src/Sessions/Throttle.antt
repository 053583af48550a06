-- ===== src/Sessions/Throttle.antt =====
-- The rate limiter with its housekeeping (gridraft/store.py, `throttle`). Its outcome carries the
-- database in both cases: what the housekeeping deletes is committed when the request is refused too.
use slipvolt.Base.{
  ℕ, zero, suc, ◌+◌, ◌*◌, String, Bool, true, false, ◌&&◌, Option, none, some, List, [], ◌∷◌, ◌++◌,
  ltb, leb, if◌then◌else◌, str_eq,
}
use slipvolt.Db.{Db, RateHit, Challenge, Session, second}
use slipvolt.Db.Sql.{count}

-- HOUSEKEEPING_INTERVAL_SECONDS and HOUSEKEEPING_BATCH_SIZE
abbrev pub housekeeping_interval : ℕ
housekeeping_interval = 60 * second

abbrev pub housekeeping_batch : ℕ
housekeeping_batch = 1000

-- The database, with `_last_housekeeping` on the monotonic clock.
pub record Keeper : Type 0 where
  pub db : Db
  pub last_housekeeping : Option ℕ

-- DELETE ... WHERE rowid IN (SELECT rowid ... WHERE p LIMIT n)
abbrev pub delete_some {ℓ} : {A : Type ℓ} → ℕ → (A → Bool) → List A → List A
delete_some zero p rows = rows
delete_some (suc n) p [] = []
delete_some (suc n) p (x ∷ rows) = elim (p x) [
  | true ↦ delete_some n p rows
  | false ↦ x ∷ delete_some (suc n) p rows
]

-- The three deletions; `created < now - 7200` has the sum on the other side.
unfoldable pub housekeep : ℕ → Db → Db
housekeep now db = record db {
  rate_hits =
      delete_some housekeeping_batch (λ (h : RateHit). ltb (h.created + 7200 * second) now)
        db.rate_hits;
  challenges = delete_some housekeeping_batch (λ (c : Challenge). ltb c.expires now) db.challenges;
  sessions = delete_some housekeeping_batch (λ (s : Session). ltb s.expires now) db.sessions;
}

-- `self._last_housekeeping is None or monotonic_now - self._last_housekeeping >= ...`
abbrev pub is_due : Option ℕ → ℕ → Bool
is_due none monotonic = true
is_due (some last) monotonic = leb (last + housekeeping_interval) monotonic

-- bucket=? AND created>?
abbrev pub hit_within : String → ℕ → ℕ → RateHit → Bool
hit_within bucket seconds now h = str_eq h.bucket bucket && ltb now (h.created + seconds * second)

-- `throttle(bucket, limit, seconds)`: whether the request is let through, and the state after.
unfoldable pub throttle : String → ℕ → ℕ → ℕ → ℕ → Keeper → Bool × Keeper
throttle bucket limit seconds now monotonic k =
    let due = is_due k.last_housekeeping monotonic in
    let db1 = if due then housekeep now k.db else k.db in
    let rejected = leb limit (count (hit_within bucket seconds now) db1.rate_hits) in
    let last = if due then some monotonic else k.last_housekeeping in
    if rejected then (false, record { db = db1; last_housekeeping = last }) else (
      true,
      record {
        db = record db1 {
          rate_hits = db1.rate_hits ++ record { bucket = bucket; created = now } ∷ [];
        };
        last_housekeeping = last;
      },
    )
