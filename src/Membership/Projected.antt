-- ===== src/Membership/Projected.antt =====
-- Every operation of the holder ledger keeps the totals equal to the sums over the tables.
use slipvolt.Base.{ℕ, ◌≡◌, refl, String, Bool, Option, arith}
use slipvolt.Base.Result.{ok}
use slipvolt.Value.{Value}
use slipvolt.Host.{Host}
use slipvolt.Db.{Db, MemberUsage}
use slipvolt.Pool.{update_usage}
use slipvolt.Pool.Projection.{IsProjected, insert_funding-IsProjected, update_usage-eq}
use slipvolt.Membership.{Admission, allocate, reserve}
use slipvolt.Membership.Reserved.{reserve_inversion}
use slipvolt.Settlement.{Settlement, settle, settle_found, review}

pub update_usage-IsProjected :
    (p : MemberUsage → Bool) (f : MemberUsage → MemberUsage) (db db' : Db)
    → IsProjected db
    → update_usage p f db ≡ ok db'
    → IsProjected db'
update_usage-IsProjected p f db db' h e = ground (arith, update_usage-eq p f db h)

pub allocate-IsProjected :
    (host : Host) (amount reference : Value) (upstream : Option Value) (now : ℕ) (db db' : Db)
    (b : Bool)
    → IsProjected db
    → allocate host amount reference upstream now db ≡ ok (b, db')
    → IsProjected db'
unfolding allocate
allocate-IsProjected host amount reference upstream now db db' b h e =
    grind (arith, insert_funding-IsProjected)

pub reserve-IsProjected :
    (a : Admission) (rid : String) (now : ℕ) (db db' : Db) (r : Option String)
    → IsProjected db
    → reserve a rid now db ≡ ok (r, db')
    → IsProjected db'
reserve-IsProjected a rid now db db' r h e =
    let (_, _, _, _, _, edb, _, _) = reserve_inversion a rid now db db' r h e in rw edb refl

pub settle-IsProjected :
    (a : Settlement) (db db' : Db) (b : Bool)
    → IsProjected db
    → settle a db ≡ ok (b, db')
    → IsProjected db'
unfolding settle settle_found
settle-IsProjected a db db' b h e = grind (arith, update_usage-IsProjected)

pub review-IsProjected :
    (rid : String) (upstream_id : Option String) (db db' : Db)
    → IsProjected db
    → review rid upstream_id db ≡ ok db'
    → IsProjected db'
unfolding review
review-IsProjected rid u db db' h e = update_usage-IsProjected _ _ db db' h e
