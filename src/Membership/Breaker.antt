-- ===== src/Membership/Breaker.antt =====
-- The circuit breaker: no admission while a charge is uncertain.
use slipvolt.Base.{ℕ, ◌≤◌, ◌≡◌, String, Bool, true, List, [], ◌∷◌, arith, any, inl, inr, ◌⊎◌}
use slipvolt.Base.Result.{IsOk, Result-cases}
use slipvolt.Db.{Db, MemberUsage, is_review}
use slipvolt.Db.Sql.{sum}
use slipvolt.Pool.{review_mark, recount}
use slipvolt.Pool.Projection.{IsProjected}
use slipvolt.Startup.{holder_pending}
use slipvolt.Membership.{Admission, admit}
use slipvolt.Membership.Admitted.{admit_inversion}

-- Some row waits for an operator.
abbrev pub in_review : Db → Bool
in_review db = any (λ (r : MemberUsage). is_review r.state) db.member_usage

review_mark-pos :
    (rows : List MemberUsage)
    → any (λ (r : MemberUsage). is_review r.state) rows ≡ true
    → 1 ≤ sum review_mark rows
review_mark-pos [] h = ground arith
review_mark-pos (r ∷ rows) h = ground (arith, review_mark-pos rows)

-- While a row is in review, or a hold from before the start is open, nothing is admitted.
pub admit-breaker :
    (commit : Bool) (a : Admission) (rid : String) (now : ℕ) (db : Db)
    → IsProjected db
    → (in_review db ≡ true) ⊎ (holder_pending db ≡ true)
    → ¬ IsOk (admit commit a rid now db)
admit-breaker commit a rid now db h open_holds accepted =
    elim (Result-cases (admit commit a rid now db)) [
      | inl (r, e) ↦
          let (q, eq, c, admissible) = admit_inversion commit a rid now db r e in
          let b = (admissible (recount db) h).budget in
          ground (arith, b.reviewed, b.started, review_mark-pos db.member_usage)
      | inr (e, ee) ↦ ground arith
    ]
