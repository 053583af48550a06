-- ===== src/Membership/Reserved.antt =====
-- What a reservation leaves behind: the row it writes and the limits that hold after it.
use slipvolt.Base.{
  ℕ, ◌≡◌, sym, String, true, false, ◌++◌, Option, some, [], ◌∷◌, arith, inl, inr, Option-cases, any,
}
use slipvolt.Base.Result.{ok}
use slipvolt.Db.{Db}
use slipvolt.Db.Sql.{any-or}
use slipvolt.Pool.{has_id, same_row, insert_usage, recount}
use slipvolt.Pool.Projection.{IsProjected, written, insert_usage-eq, insert_usage_inversion}
use slipvolt.Membership.{
  Admission, Quantities, quantities, insert_reservation, reservation, reserve, same_request,
}
use slipvolt.Membership.Admitted.{Admissible, admit_inversion}

-- The database after the INSERT.
abbrev pub reserved_db : Admission → Quantities → String → String → ℕ → Db → Db
reserved_db a q key rid now db = written (db.member_usage ++ reservation a q key rid now ∷ []) db

pub insert_reservation-eq :
    (a : Admission) (q : Quantities) (key rid : String) (now : ℕ) (db : Db)
    → IsProjected db
    → a.key_id ≡ some key
    → any (has_id rid) db.member_usage ≡ false
    → any (same_request (some key) a.idem) db.member_usage ≡ false
    → insert_reservation a q rid now db ≡ ok (some rid, reserved_db a q key rid now db)
unfolding insert_reservation
insert_reservation-eq a q key rid now db h k new fresh = ground (
  arith,
  any-or (has_id rid) (same_request (some key) a.idem) db.member_usage new fresh,
  insert_usage-eq (reservation a q key rid now) db h,
)

insert_reservation_inversion :
    (a : Admission) (q : Quantities) (rid : String) (now : ℕ) (db db' : Db) (r : Option String)
    → IsProjected db
    → insert_reservation a q rid now db ≡ ok (r, db')
    → (key : String) × (a.key_id ≡ some key)
      × (r ≡ some rid)
      × (any (same_row (reservation a q key rid now)) db.member_usage ≡ false)
      × (db' ≡ reserved_db a q key rid now db)
unfolding insert_reservation
insert_reservation_inversion a q rid now db db' r h e = elim (Option-cases a.key_id) [
  | inl missing ↦ ground arith
  | inr (key, found) ↦
      let made : (some rid ≡ r) × (insert_usage (reservation a q key rid now) db ≡ ok db') =
        ground arith in
      let done = insert_usage_inversion (reservation a q key rid now) db db' h made.1 in
      (key, found, sym made.0, done.0, done.1)
]

-- A reservation that succeeds writes its row, under a key and an id that were free.
pub reserve_inversion :
    (a : Admission) (rid : String) (now : ℕ) (db db' : Db) (r : Option String)
    → IsProjected db
    → reserve a rid now db ≡ ok (r, db')
    → (q : Quantities) × (key : String) × (quantities a ≡ ok q)
      × (a.key_id ≡ some key)
      × (r ≡ some rid)
      × (db' ≡ reserved_db a q key rid now db)
      × (any (same_row (reservation a q key rid now)) db.member_usage ≡ false)
      × Admissible true a q now db (recount db)
unfolding reserve
reserve_inversion a rid now db db' r h e =
    let (q, eq, c, admissible) = admit_inversion true a rid now db (r, db') e in
    let (key, ek, er, taken, edb) = insert_reservation_inversion a q rid now db db' r h c in
    (q, key, eq, ek, er, edb, taken, admissible (recount db) h)
