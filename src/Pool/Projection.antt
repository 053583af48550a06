-- ===== src/Pool/Projection.antt =====
-- The totals are the sums over the tables, whatever rows are written.
use slipvolt.Base.{◌+◌, ◌-◌, ◌≤◌, ◌≡◌, Bool, false, none, some, List, [], ◌∷◌, ◌++◌, arith, any}
use slipvolt.Base.Result.{ok}
use slipvolt.Db.{Db, Funding, MemberUsage, Totals}
use slipvolt.Db.Sql.{sum, sum-append, update}
use slipvolt.Pool.{
  held_ngonka, review_mark, usage_part, trigger, insert_funding, insert_usage, update_rows,
  update_usage, recount, initialize_pool_totals, same_row,
}

-- The projection row is there and agrees with its sources.
abbrev pub IsProjected : Db → Type 0
IsProjected db = db.member_pool_totals ≡ some (recount db)

pub initialize_pool_totals-IsProjected :
    (db : Db) → db.member_pool_totals ≡ none → IsProjected (initialize_pool_totals db)
unfolding initialize_pool_totals
initialize_pool_totals-IsProjected db h = ground arith

pub insert_funding-IsProjected :
    (r : Funding) (db db' : Db) → IsProjected db → insert_funding r db ≡ ok db' → IsProjected db'
unfolding insert_funding
insert_funding-IsProjected r db db' h e =
    ground (arith, sum-append (λ (f : Funding). f.amount_ngonka) db.member_funding (r ∷ []))

pub insert_usage-IsProjected :
    (r : MemberUsage) (db db' : Db) → IsProjected db → insert_usage r db ≡ ok db' → IsProjected db'
unfolding insert_usage
insert_usage-IsProjected r db db' h e = ground (
  arith,
  sum-append (λ (r : MemberUsage). r.cost_ngonka) db.member_usage (r ∷ []),
  sum-append held_ngonka db.member_usage (r ∷ []),
  sum-append review_mark db.member_usage (r ∷ []),
)

-- The totals after a table `rs` has become `rs'`.
abbrev shifted : List MemberUsage → List MemberUsage → Totals → Totals
shifted rs rs' t = record {
  allocated = t.allocated;
  spent =
      t.spent
      + sum (λ (r : MemberUsage). r.cost_ngonka) rs'
      - sum (λ (r : MemberUsage). r.cost_ngonka) rs;
  reserved = t.reserved + sum held_ngonka rs' - sum held_ngonka rs;
  review_count = t.review_count + sum review_mark rs' - sum review_mark rs;
}

-- The columns cover a table, so no trigger's CHECK can refuse.
abbrev Covers : Totals → List MemberUsage → Type 0
Covers t rs =
    (sum (λ (r : MemberUsage). r.cost_ngonka) rs ≤ t.spent)
    × (sum held_ngonka rs ≤ t.reserved)
    × (sum review_mark rs ≤ t.review_count)

-- One row's trigger.
trigger-step :
    (r r' : MemberUsage) (rs : List MemberUsage) (t : Totals)
    → Covers t (r ∷ rs)
    → trigger (usage_part r) (usage_part r') (some t) ≡ ok (some (shifted (r ∷ []) (r' ∷ []) t))
unfolding trigger
trigger-step r r' rs t c = ground arith

update_rows-eq :
    (p : MemberUsage → Bool) (f : MemberUsage → MemberUsage) (rs : List MemberUsage) (t : Totals)
    → Covers t rs
    → update_rows p f rs (some t) ≡ ok (update p f rs, some (shifted rs (update p f rs) t))
unfolding update_rows
update_rows-eq p f [] t c = ground arith
update_rows-eq p f (r ∷ rs) t c = ground (
  arith,
  trigger-step r (f r) rs t c,
  update_rows-eq p f rs t,
  update_rows-eq p f rs (shifted (r ∷ []) (f r ∷ []) t),
)

-- The database after an UPDATE of `member_usage`, its totals counted afresh.
abbrev pub written : List MemberUsage → Db → Db
written rows db = record db {
  member_usage = rows;
  member_pool_totals = some (recount (record db { member_usage = rows }));
}

-- UPDATE member_usage never fails on a projected database, and writes the rows that it should.
pub update_usage-eq :
    (p : MemberUsage → Bool) (f : MemberUsage → MemberUsage) (db : Db)
    → IsProjected db
    → update_usage p f db ≡ ok (written (update p f db.member_usage) db)
unfolding update_usage
update_usage-eq p f db h =
    rw (h, update_rows-eq p f db.member_usage (recount db) (omega arith)) (ground arith)

-- INSERT INTO member_usage succeeds on a projected database unless a key is taken.
pub insert_usage-eq :
    (r : MemberUsage) (db : Db)
    → IsProjected db
    → any (same_row r) db.member_usage ≡ false
    → insert_usage r db ≡ ok (written (db.member_usage ++ r ∷ []) db)
unfolding insert_usage
insert_usage-eq r db h new = ground (
  arith,
  sum-append (λ (r : MemberUsage). r.cost_ngonka) db.member_usage (r ∷ []),
  sum-append held_ngonka db.member_usage (r ∷ []),
  sum-append review_mark db.member_usage (r ∷ []),
)

pub insert_usage_inversion :
    (r : MemberUsage) (db db' : Db)
    → IsProjected db
    → insert_usage r db ≡ ok db'
    → (any (same_row r) db.member_usage ≡ false) × (db' ≡ written (db.member_usage ++ r ∷ []) db)
unfolding insert_usage
insert_usage_inversion r db db' h e = ground (
  arith,
  insert_usage-eq r db h,
  sum-append (λ (r : MemberUsage). r.cost_ngonka) db.member_usage (r ∷ []),
  sum-append held_ngonka db.member_usage (r ∷ []),
  sum-append review_mark db.member_usage (r ∷ []),
)
