-- ===== src/Membership/Previewed.antt =====
-- `preview` tells what `reserve` would do.
use slipvolt.Base.{ℕ, ◌≡◌, String, false, some, arith, any, inl, inr}
use slipvolt.Base.Result.{Result-cases}
use slipvolt.Db.{Db}
use slipvolt.Pool.{has_id}
use slipvolt.Pool.Projection.{IsProjected}
use slipvolt.Membership.{Admission, admit, quantities, reserve, preview, preview_of, same_request}
use slipvolt.Membership.Reserved.{insert_reservation-eq}

-- On a projected database, with a key, an idempotency key that was not used with it and an id that was
-- not used, `preview` gives the answer that `reserve` gives, the reason of a refusal included.
pub preview-reserve :
    (a : Admission) (key rid : String) (now : ℕ) (db : Db)
    → IsProjected db
    → a.key_id ≡ some key
    → any (has_id rid) db.member_usage ≡ false
    → any (same_request (some key) a.idem) db.member_usage ≡ false
    → preview a rid now db ≡ preview_of (reserve a rid now db)
unfolding preview reserve admit
preview-reserve a key rid now db h k new fresh = elim (Result-cases (quantities a)) [
  | inl (q, eq) ↦ ground (arith, insert_reservation-eq a q key rid now db h k new fresh)
  | inr (e, ee) ↦ ground arith
]
