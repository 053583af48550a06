-- ===== src/Settlement/Solvency.antt =====
-- What the pool has spent and holds stays within what was allocated to it, as long as no settlement
-- costs more than its hold.
use slipvolt.Base.{
  ℕ, ◌+◌, ◌≤◌, ◌≡◌, refl, String, Bool, false, ◌&&◌, Option, some, List, [], ◌∷◌, arith, any,
}
use slipvolt.Base.Result.{ok}
use slipvolt.Value.{Value}
use slipvolt.Host.{Host}
use slipvolt.Db.{Db, MemberUsage, Funding, is_reserved}
use slipvolt.Db.Sql.{update, sum, sum-append}
use slipvolt.Db.Keyed.{IsApart, sum-update_key, same_key}
use slipvolt.Pool.{has_id, same_row, recount, held_ngonka, insert_funding}
use slipvolt.Membership.{allocate, reservation}
use slipvolt.Membership.Reserved.{reserve_inversion}
use slipvolt.Settlement.{
  Settlement, Settled, settled_of, settle_row, review, review_row, find_usage,
}
use slipvolt.Settlement.Lifecycle.{
  Step, allocated, reserved, settled, reviewed, elsewhere, IsSound, Settles, closed, closes,
  settle-Settles, review-eq, allocate-usage,
}
use slipvolt.Settlement.Once.{Step-IsSound}

-- Spent and held ngonka are covered by the allocations.
abbrev pub IsSolvent : Db → Type 0
IsSolvent db = (recount db).spent + (recount db).reserved ≤ (recount db).allocated

IsApart-ids :
    (rows : List MemberUsage)
    → IsApart same_row rows
    → IsApart (same_key (λ (r : MemberUsage). r.id)) rows
IsApart-ids [] h = tt
IsApart-ids (r ∷ rows) h = (differs rows h.0, IsApart-ids rows h.1)
  where
    differs :
        (others : List MemberUsage)
        → any (same_row r) others ≡ false
        → any (same_key (λ (r : MemberUsage). r.id) r) others ≡ false
    differs [] k = refl
    differs (u ∷ others) k = ground (arith, differs others)

-- A settlement within its hold releases at least what it spends.
settle-IsSolvent :
    (a : Settlement) (db db' : Db) (b : Bool)
    → IsSound db
    → IsSolvent db
    → ((row : MemberUsage) (s : Settled)
        → find_usage a.rid db ≡ some row
        → settled_of a ≡ ok s
        → s.cost ≤ row.reserved_ngonka)
    → Settles a db b db'
    → IsSolvent db'
settle-IsSolvent a db db' b h v within (closed eb e) = rw e v
settle-IsSolvent a db db' b h v within (closes s row es ef held eb e) =
    let ids = IsApart-ids db.member_usage h.apart in
    let spent =
      sum-update_key (λ (r : MemberUsage). r.id) (λ (r : MemberUsage). r.cost_ngonka) a.rid
        (settle_row s) db.member_usage row ids ef in
    let holds =
      sum-update_key (λ (r : MemberUsage). r.id) held_ngonka a.rid (settle_row s) db.member_usage
        row ids ef in
    let bound = within row s ef es in rw e (ground (arith, spent, holds, bound, held))

-- A review changes no sum.
held-review :
    (p : MemberUsage → Bool) (u : Option String) (rows : List MemberUsage)
    → (sum held_ngonka (update (λ r. p r && is_reserved r.state) (review_row u) rows)
        ≡ sum held_ngonka rows)
      × (sum
            (λ (r : MemberUsage). r.cost_ngonka)
            (update (λ r. p r && is_reserved r.state) (review_row u) rows)
          ≡ sum (λ (r : MemberUsage). r.cost_ngonka) rows)
held-review p u [] = (refl, refl)
held-review p u (r ∷ rows) =
    let rest = held-review p u rows in (ground (arith, rest), ground (arith, rest))

review-IsSolvent :
    (rid : String) (u : Option String) (db db' : Db)
    → IsSound db
    → IsSolvent db
    → review rid u db ≡ ok db'
    → IsSolvent db'
review-IsSolvent rid u db db' h v e =
    let sums = held-review (has_id rid) u db.member_usage in
    ground (arith, review-eq rid u db h.projected, sums)

insert_funding-grows :
    (f : Funding) (db db' : Db)
    → insert_funding f db ≡ ok db'
    → (recount db).allocated ≤ (recount db').allocated
unfolding insert_funding
insert_funding-grows f db db' e =
    ground (arith, sum-append (λ (f : Funding). f.amount_ngonka) db.member_funding (f ∷ []))

allocate-grows :
    (host : Host) (amount reference : Value) (upstream : Option Value) (now : ℕ) (db db' : Db)
    (b : Bool)
    → allocate host amount reference upstream now db ≡ ok (b, db')
    → (recount db).allocated ≤ (recount db').allocated
unfolding allocate
allocate-grows host amount reference upstream now db db' b e = grind (arith, insert_funding-grows)

-- The hypothesis on a step: a settlement costs at most what its row holds.
abbrev pub IsPrudent : {db db' : Db} → Step db db' → Type 0
IsPrudent {db} (settled a e) =
    (row : MemberUsage) (s : Settled)
    → find_usage a.rid db ≡ some row
    → settled_of a ≡ ok s
    → s.cost ≤ row.reserved_ngonka
IsPrudent _ = Unit {0}

Step-IsSolvent :
    {db db' : Db} → IsSound db → IsSolvent db → (s : Step db db') → IsPrudent s → IsSolvent db'
Step-IsSolvent {db} {db'} h v (allocated {b = b} host amount reference upstream now e) p =
    let rows = allocate-usage host amount reference upstream now db db' b e in
    ground (arith, allocate-grows host amount reference upstream now db db' b e, rows)
Step-IsSolvent {db} {db'} h v (reserved {r = r} a rid now e) p =
    let (q, key, eq, ek, er, edb, taken, admissible) =
      reserve_inversion a rid now db db' r h.projected e in
    let row = reservation a q key rid now in
    rw edb (
      ground (
        arith,
        admissible.budget.funded,
        sum-append (λ (r : MemberUsage). r.cost_ngonka) db.member_usage (row ∷ []),
        sum-append held_ngonka db.member_usage (row ∷ []),
      ))
Step-IsSolvent {db} {db'} h v (settled {b = b} a e) p =
    settle-IsSolvent a db db' b h v p (settle-Settles a db db' b h.projected e)
Step-IsSolvent {db} {db'} h v (reviewed rid u e) p = review-IsSolvent rid u db db' h v e
Step-IsSolvent {db} {db'} h v (elsewhere rows funding totals) p = rw (rows, funding) v

-- A run in which every settlement is within its hold.
pub data PrudentReach (db : Db) : Db → Type 0 where
  start : PrudentReach db db
  then_step :
      {mid last : Db}
      → PrudentReach db mid
      → (s : Step mid last) → IsPrudent s
      → PrudentReach db last

-- Along such a run a solvent pool stays solvent, and sound.
pub PrudentReach-IsSolvent :
    {db db' : Db} → IsSound db → IsSolvent db → PrudentReach db db' → IsSound db' × IsSolvent db'
PrudentReach-IsSolvent h v start = (h, v)
PrudentReach-IsSolvent h v (then_step r s p) =
    let (h', v') = PrudentReach-IsSolvent h v r in (Step-IsSound h' s, Step-IsSolvent h' v' s p)
