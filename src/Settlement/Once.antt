-- ===== src/Settlement/Once.antt =====
-- What holds along every run of the holder ledger: sound tables, closed rows that stay as they are,
-- and idempotency keys that serve once.
use slipvolt.Base.{
  ◌≡◌, refl, sym, ap, ◌∙◌, String, Bool, true, false, ◌&&◌, Option, none, some, List, [], ◌∷◌,
  arith, any, inl, inr, eq_iff, Bool-cases,
}
use slipvolt.Db.{Db, MemberUsage, is_held, is_reserved}
use slipvolt.Db.Sql.{find, any-append_left, any-update, find-some}
use slipvolt.Db.Keyed.{IsApart, IsApart-snoc, IsApart-update, find-update, find-append_left}
use slipvolt.Pool.{has_id, same_row}
use slipvolt.Pool.Projection.{IsProjected}
use slipvolt.Membership.{reservation, same_request}
use slipvolt.Membership.Projected.{
  allocate-IsProjected, reserve-IsProjected, settle-IsProjected, review-IsProjected,
}
use slipvolt.Membership.Reserved.{reserve_inversion}
use slipvolt.Settlement.{Settlement, settle_row, review_row, find_usage}
use slipvolt.Settlement.Lifecycle.{
  Step, Reach, here, next, allocated, reserved, settled, reviewed, elsewhere, IsSound, Change, same,
  added, changed, KeepsKeys, Settles, closed, closes, settle-Settles, review-eq, allocate-usage,
  same_row_comm,
}

settle-Change :
    (a : Settlement) (db db' : Db) (b : Bool)
    → Settles a db b db'
    → Change db.member_usage db'.member_usage
settle-Change a db db' b (closed eb e) = same (ap (λ (d : Db). d.member_usage) e)
settle-Change a db db' b (closes s row es ef held eb e) =
    changed (has_id a.rid) (settle_row s) (λ x. (refl, refl, refl))
      (λ rid r found shut. elim (Bool-cases (has_id a.rid r)) [
        | inl hit ↦
            let one : r.id ≡ rid =
              (eq_iff r.id rid).0 (find-some (has_id rid) db.member_usage r found) in
            let two : r.id ≡ a.rid = (eq_iff r.id a.rid).0 hit in
            let found' : find (has_id a.rid) db.member_usage ≡ some r = rw (sym two ∙ one) found in
            ground arith
        | inr miss ↦ miss
      ])
      (ap (λ (d : Db). d.member_usage) e)

-- Every step of the ledger is one of the three changes.
pub Step-Change : {db db' : Db} → IsSound db → Step db db' → Change db.member_usage db'.member_usage
Step-Change {db} {db'} h (allocated {b = b} host amount reference upstream now e) =
    same (allocate-usage host amount reference upstream now db db' b e)
Step-Change {db} {db'} h (reserved {r = r} a rid now e) =
    let (q, key, eq, ek, er, edb, taken, admissible) =
      reserve_inversion a rid now db db' r h.projected e in
    added (reservation a q key rid now) taken (ap (λ (d : Db). d.member_usage) edb)
Step-Change {db} {db'} h (settled {b = b} a e) =
    settle-Change a db db' b (settle-Settles a db db' b h.projected e)
Step-Change {db} {db'} h (reviewed rid u e) =
    changed (λ r. has_id rid r && is_reserved r.state) (review_row u) (λ x. (refl, refl, refl))
      (λ k r found shut. ground arith) (ground (arith, review-eq rid u db h.projected))
Step-Change {db} {db'} h (elsewhere rows funding totals) = same rows

Step-IsProjected : {db db' : Db} → IsProjected db → Step db db' → IsProjected db'
Step-IsProjected {db} {db'} h (allocated {b = b} host amount reference upstream now e) =
    allocate-IsProjected host amount reference upstream now db db' b h e
Step-IsProjected {db} {db'} h (reserved {r = r} a rid now e) =
    reserve-IsProjected a rid now db db' r h e
Step-IsProjected {db} {db'} h (settled {b = b} a e) = settle-IsProjected a db db' b h e
Step-IsProjected {db} {db'} h (reviewed rid u e) = review-IsProjected rid u db db' h e
Step-IsProjected {db} {db'} h (elsewhere rows funding totals) = ground arith

keeps_left :
    (f : MemberUsage → MemberUsage)
    → KeepsKeys f
    → (x y : MemberUsage) → same_row (f x) y ≡ same_row x y
keeps_left f k x y = ground (arith, k x)

keeps_right :
    (f : MemberUsage → MemberUsage)
    → KeepsKeys f
    → (x y : MemberUsage) → same_row x (f y) ≡ same_row x y
keeps_right f k x y = ground (arith, k y)

Change-IsApart :
    {rows rows' : List MemberUsage}
    → IsApart same_row rows
    → Change rows rows'
    → IsApart same_row rows'
Change-IsApart {rows} h (same e) = rw e h
Change-IsApart {rows} h (added row free e) =
    rw e (IsApart-snoc same_row same_row_comm rows row h free)
Change-IsApart {rows} h (changed p f keeps passes e) =
    rw e (IsApart-update same_row p f (keeps_left f keeps) (keeps_right f keeps) rows h)

pub Step-IsSound : {db db' : Db} → IsSound db → Step db db' → IsSound db'
Step-IsSound h s = record {
  projected = Step-IsProjected h.projected s;
  apart = Change-IsApart h.apart (Step-Change h s);
}

-- From a sound database every run stays sound: the totals agree with the tables, and no two rows
-- share an id, or a key together with an idempotency key.
pub Reach-IsSound : {db db' : Db} → IsSound db → Reach db db' → IsSound db'
Reach-IsSound h here = h
Reach-IsSound h (next r s) = Step-IsSound (Reach-IsSound h r) s

Change-closed :
    {rows rows' : List MemberUsage} (rid : String) (row : MemberUsage)
    → find (has_id rid) rows ≡ some row
    → is_held row.state ≡ false
    → Change rows rows'
    → find (has_id rid) rows' ≡ some row
Change-closed {rows} rid row found shut (same e) = rw e found
Change-closed {rows} rid row found shut (added new free e) =
    rw e (find-append_left (λ (r : MemberUsage). r.id) rid rows (new ∷ []) row found)
Change-closed {rows} rid row found shut (changed p f keeps passes e) =
    let kept = find-update (λ (r : MemberUsage). r.id) rid p f (λ x. (keeps x).0) rows row found in
    rw e (ground (arith, kept, passes rid row found shut))

-- A row that is settled is the same row ever after: no later call charges it again or changes it.
pub Reach-closed :
    {db db' : Db} (rid : String) (row : MemberUsage)
    → IsSound db
    → find_usage rid db ≡ some row
    → is_held row.state ≡ false
    → Reach db db'
    → find_usage rid db' ≡ some row
Reach-closed rid row h found shut here = found
Reach-closed rid row h found shut (next r s) =
    Change-closed rid row (Reach-closed rid row h found shut r) shut
      (Step-Change (Reach-IsSound h r) s)

Change-used :
    {rows rows' : List MemberUsage} (key : Option String) (idem : String)
    → any (same_request key idem) rows ≡ true
    → Change rows rows'
    → any (same_request key idem) rows' ≡ true
Change-used {rows} key idem used (same e) = rw e used
Change-used {rows} key idem used (added new free e) =
    rw e (any-append_left (same_request key idem) rows (new ∷ []) used)
Change-used {rows} none idem used (changed p f keeps passes e) =
    rw (e, any-update (same_request none idem) p f rows (λ x. refl)) used
Change-used {rows} (some key) idem used (changed p f keeps passes e) =
    rw (e, any-update (same_request (some key) idem) p f rows (λ x. ground (arith, keeps x))) used

pub Reach-used :
    {db db' : Db} (key : Option String) (idem : String)
    → IsSound db
    → any (same_request key idem) db.member_usage ≡ true
    → Reach db db'
    → any (same_request key idem) db'.member_usage ≡ true
Reach-used key idem h used here = used
Reach-used key idem h used (next r s) =
    Change-used key idem (Reach-used key idem h used r) (Step-Change (Reach-IsSound h r) s)
