-- ===== src/Settlement/Lifecycle.antt =====
-- The life of the holder ledger: the steps that the program can take, and what no step breaks.
use slipvolt.Base.{
  ℕ, ◌≡◌, refl, String, Bool, true, false, ◌&&◌, Option, none, some, List, [], ◌∷◌, ◌++◌, arith,
  any, inl, inr, str_eq, eq_iff, Bool-cases,
}
use slipvolt.Base.Result.{ok, >>=-eq-ok}
use slipvolt.Value.{Value}
use slipvolt.Host.{Host}
use slipvolt.Db.{Db, MemberUsage, is_held, is_reserved}
use slipvolt.Db.Sql.{find, update}
use slipvolt.Db.Keyed.{IsApart}
use slipvolt.Pool.{has_id, same_row, insert_funding}
use slipvolt.Pool.Projection.{IsProjected, written, update_usage-eq}
use slipvolt.Membership.{Admission, allocate, reserve}
use slipvolt.Settlement.{
  Settlement, Settled, settle, settled_of, settle_found, settle_row, review, review_row, find_usage,
}

-- One committed operation. `elsewhere` is a write to the other tables, or a restart of the server,
-- which starts its snapshot of open holds afresh.
pub data Step : Db → Db → Type 0 where
  allocated :
      {db db' : Db} {b : Bool} (host : Host) (amount reference : Value) (upstream : Option Value)
      (now : ℕ)
      → allocate host amount reference upstream now db ≡ ok (b, db')
      → Step db db'
  reserved :
      {db db' : Db} {r : Option String} (a : Admission) (rid : String) (now : ℕ)
      → reserve a rid now db ≡ ok (r, db')
      → Step db db'
  settled : {db db' : Db} {b : Bool} (a : Settlement) → settle a db ≡ ok (b, db') → Step db db'
  reviewed :
      {db db' : Db} (rid : String) (upstream_id : Option String)
      → review rid upstream_id db ≡ ok db'
      → Step db db'
  elsewhere :
      {db db' : Db}
      → db'.member_usage ≡ db.member_usage
      → db'.member_funding ≡ db.member_funding
      → db'.member_pool_totals ≡ db.member_pool_totals
      → Step db db'

pub data Reach (db : Db) : Db → Type 0 where
  here : Reach db db
  next : {mid last : Db} → Reach db mid → Step mid last → Reach db last

-- The totals are right and no two rows share an id, or a key with an idempotency key.
pub record IsSound (db : Db) : Type 0 where
  pub projected : IsProjected db
  pub apart : IsApart same_row db.member_usage

str_eq_comm : (s t : String) → str_eq s t ≡ str_eq t s
str_eq_comm s t = ground (arith, eq_iff s t, eq_iff t s)

pub same_row_comm : (r u : MemberUsage) → same_row r u ≡ same_row u r
same_row_comm r u =
    ground (arith, str_eq_comm r.id u.id, str_eq_comm r.key_id u.key_id, str_eq_comm r.idem u.idem)

-- The key columns, which no UPDATE touches.
abbrev pub KeepsKeys : (MemberUsage → MemberUsage) → Type 0
KeepsKeys f =
    (x : MemberUsage) → ((f x).id ≡ x.id) × ((f x).key_id ≡ x.key_id) × ((f x).idem ≡ x.idem)

-- What a step does to the rows: nothing, one more row, or an UPDATE that passes over closed rows.
pub data Change (rows : List MemberUsage) : List MemberUsage → Type 0 where
  same : {rows' : List MemberUsage} → rows' ≡ rows → Change rows rows'
  added :
      {rows' : List MemberUsage} (row : MemberUsage)
      → any (same_row row) rows ≡ false
      → rows' ≡ rows ++ row ∷ []
      → Change rows rows'
  changed :
      {rows' : List MemberUsage} (p : MemberUsage → Bool) (f : MemberUsage → MemberUsage)
      → KeepsKeys f
      → ((rid : String) (r : MemberUsage)
          → find (has_id rid) rows ≡ some r
          → is_held r.state ≡ false
          → p r ≡ false)
      → rows' ≡ update p f rows
      → Change rows rows'

-- How `settle` can end.
pub data Settles (a : Settlement) (db : Db) : Bool → Db → Type 0 where
  closed : {b : Bool} {db' : Db} → b ≡ false → db' ≡ db → Settles a db b db'
  closes :
      {b : Bool} {db' : Db} (s : Settled) (row : MemberUsage)
      → settled_of a ≡ ok s
      → find_usage a.rid db ≡ some row
      → is_held row.state ≡ true
      → b ≡ true
      → db' ≡ written (update (has_id a.rid) (settle_row s) db.member_usage) db
      → Settles a db b db'

settle_found-Settles :
    (a : Settlement) (s : Settled) (found : Option MemberUsage) (db db' : Db) (b : Bool)
    → IsProjected db
    → settled_of a ≡ ok s
    → find_usage a.rid db ≡ found
    → settle_found found s a.rid db ≡ ok (b, db')
    → Settles a db b db'
unfolding settle_found
settle_found-Settles a s none db db' b h es ef e = closed (ground arith) (ground arith)
settle_found-Settles a s (some row) db db' b h es ef e = elim (Bool-cases (is_held row.state)) [
  | inl held ↦
      let done = update_usage-eq (has_id a.rid) (settle_row s) db h in
      closes s row es ef held (ground (arith, done)) (ground (arith, done))
  | inr shut ↦ closed (ground arith) (ground arith)
]

pub settle-Settles :
    (a : Settlement) (db db' : Db) (b : Bool)
    → IsProjected db
    → settle a db ≡ ok (b, db')
    → Settles a db b db'
unfolding settle
settle-Settles a db db' b h e =
    let (s, es, e') = >>=-eq-ok (settled_of a) _ e in
    settle_found-Settles a s (find_usage a.rid db) db db' b h es refl e'

pub review-eq :
    (rid : String) (upstream_id : Option String) (db : Db)
    → IsProjected db
    → review rid upstream_id db
      ≡ ok (
          written
            (update
              (λ r. has_id rid r && is_reserved r.state)
              (review_row upstream_id)
              db.member_usage)
            db)
unfolding review
review-eq rid u db h = update_usage-eq _ _ db h

pub allocate-usage :
    (host : Host) (amount reference : Value) (upstream : Option Value) (now : ℕ) (db db' : Db)
    (b : Bool)
    → allocate host amount reference upstream now db ≡ ok (b, db')
    → db'.member_usage ≡ db.member_usage
unfolding allocate insert_funding
allocate-usage host amount reference upstream now db db' b e = ground arith
