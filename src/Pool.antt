-- ===== src/Pool.antt =====
-- The lifetime totals of the holder pool and the triggers that keep them (gridraft/ledger_totals.py):
-- every INSERT and UPDATE of `member_funding` and `member_usage` goes through here.
pub mod Projection
use slipvolt.Base.{
  ℕ, ◌+◌, ◌-◌, String, Bool, true, false, ◌&&◌, ◌||◌, Option, none, some, List, [], ◌∷◌, ◌++◌, leb,
  if◌then◌else◌, any, str_eq,
}
use slipvolt.Base.Result.{Result, ok, err, integrity_error, ◌>>=◌}
use slipvolt.Db.{Db, Funding, MemberUsage, Totals, is_held, is_review}
use slipvolt.Db.Sql.{sum}

-- What one row adds to each column.
abbrev pub funding_part : Funding → Totals
funding_part r = record { allocated = r.amount_ngonka; spent = 0; reserved = 0; review_count = 0 }

abbrev pub held_ngonka : MemberUsage → ℕ
held_ngonka r = if is_held r.state then r.reserved_ngonka else 0

abbrev pub review_mark : MemberUsage → ℕ
review_mark r = if is_review r.state then 1 else 0

abbrev pub usage_part : MemberUsage → Totals
usage_part r = record {
  allocated = 0;
  spent = r.cost_ngonka;
  reserved = held_ngonka r;
  review_count = review_mark r;
}

abbrev pub nothing : Totals
nothing = record { allocated = 0; spent = 0; reserved = 0; review_count = 0 }

-- column = column + (after) - (before), for every column; the CHECK refuses a negative result.
abbrev pub retotal : Totals → Totals → Totals → Result Totals
retotal before after t =
    if leb before.allocated (t.allocated + after.allocated)
      && leb before.spent (t.spent + after.spent)
      && leb before.reserved (t.reserved + after.reserved)
      && leb before.review_count (t.review_count + after.review_count)
    then ok (record {
      allocated = t.allocated + after.allocated - before.allocated;
      spent = t.spent + after.spent - before.spent;
      reserved = t.reserved + after.reserved - before.reserved;
      review_count = t.review_count + after.review_count - before.review_count;
    })
    else err integrity_error

-- The body of a trigger: UPDATE ... WHERE id=1, which does nothing without that row.
unfoldable pub trigger : Totals → Totals → Option Totals → Result (Option Totals)
trigger before after none = ok none
trigger before after (some t) = do t' ← retotal before after t; ok (some t')

-- INSERT INTO member_funding, under its primary key
unfoldable pub insert_funding : Funding → Db → Result Db
unfolding trigger
insert_funding r db =
    if any (λ (f : Funding). str_eq f.reference r.reference) db.member_funding
    then err integrity_error
    else do
      t ← trigger nothing (funding_part r) db.member_pool_totals
      ok (record db { member_funding = db.member_funding ++ r ∷ []; member_pool_totals = t })

-- id=?
abbrev pub has_id : String → MemberUsage → Bool
has_id rid r = str_eq r.id rid

abbrev pub same_row : MemberUsage → MemberUsage → Bool
same_row r u = has_id r.id u || str_eq u.key_id r.key_id && str_eq u.idem r.idem

-- INSERT INTO member_usage, under its primary key and UNIQUE(key_id,idem)
unfoldable pub insert_usage : MemberUsage → Db → Result Db
unfolding trigger
insert_usage r db = if any (same_row r) db.member_usage then err integrity_error else do
  t ← trigger nothing (usage_part r) db.member_pool_totals
  ok (record db { member_usage = db.member_usage ++ r ∷ []; member_pool_totals = t })

-- The rows of an UPDATE in turn, with the trigger after each row that it changes.
unfoldable pub update_rows :
    (MemberUsage → Bool)
    → (MemberUsage → MemberUsage)
    → List MemberUsage
    → Option Totals
    → Result (List MemberUsage × Option Totals)
unfolding trigger
update_rows p f [] t = ok ([], t)
update_rows p f (r ∷ rs) t = elim (p r) [
  | true ↦ do
    t' ← trigger (usage_part r) (usage_part (f r)) t
    (rs', t'') ← update_rows p f rs t'
    ok (f r ∷ rs', t'')
  | false ↦ do (rs', t') ← update_rows p f rs t; ok (r ∷ rs', t')
]

-- UPDATE member_usage SET f WHERE p
unfoldable pub update_usage : (MemberUsage → Bool) → (MemberUsage → MemberUsage) → Db → Result Db
update_usage p f db = do
  (rows, t) ← update_rows p f db.member_usage db.member_pool_totals
  ok (record db { member_usage = rows; member_pool_totals = t })

-- The backfill: the sums over both tables.
abbrev pub recount : Db → Totals
recount db = record {
  allocated = sum (λ (f : Funding). f.amount_ngonka) db.member_funding;
  spent = sum (λ (r : MemberUsage). r.cost_ngonka) db.member_usage;
  reserved = sum held_ngonka db.member_usage;
  review_count = sum review_mark db.member_usage;
}

-- `initialize_pool_totals`: the row is written only where it is missing.
unfoldable pub initialize_pool_totals : Db → Db
initialize_pool_totals db = elim db.member_pool_totals [
  | none ↦ record db { member_pool_totals = some (recount db) }
  | some t ↦ db
]
