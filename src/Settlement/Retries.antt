-- ===== src/Settlement/Retries.antt =====
-- Retried calls: an idempotency key reserves once, and a reservation is settled once.
use slipvolt.Base.{
  ℕ, ◌≡◌, refl, String, Bool, true, false, Option, some, [], ◌∷◌, arith, any, inl, inr,
}
use text.Mathlib.TextPositions.{eq_refl}
use slipvolt.Base.Result.{ok, IsOk, Result-cases}
use slipvolt.Db.{Db, MemberUsage, is_held}
use slipvolt.Db.Sql.{any-append_right, find-some}
use slipvolt.Db.Keyed.{find-update}
use slipvolt.Pool.{has_id, recount}
use slipvolt.Pool.Projection.{IsProjected}
use slipvolt.Membership.{Admission, reserve, admit, reservation, same_request}
use slipvolt.Membership.Reserved.{reserve_inversion}
use slipvolt.Membership.Admitted.{admit_inversion}
use slipvolt.Settlement.{Settlement, settle, settle_row, find_usage}
use slipvolt.Settlement.Lifecycle.{
  Reach, reserved, settled, IsSound, Settles, closed, closes, settle-Settles,
}
use slipvolt.Settlement.Once.{Reach-IsSound, Reach-closed, Reach-used, Step-IsSound}

reserve-used :
    (a : Admission) (rid : String) (now : ℕ) (db db' : Db) (r : Option String)
    → IsProjected db
    → reserve a rid now db ≡ ok (r, db')
    → any (same_request a.key_id a.idem) db'.member_usage ≡ true
reserve-used a rid now db db' r h e =
    let (q, key, eq, ek, er, edb, taken, admissible) = reserve_inversion a rid now db db' r h e in
    let row = reservation a q key rid now in
    let mine : any (same_request (some key) a.idem) (row ∷ []) ≡ true =
      ground (arith, eq_refl key, eq_refl a.idem) in
    rw (edb, ek) (any-append_right (same_request (some key) a.idem) db.member_usage (row ∷ []) mine)

-- After a reservation no later call with the same key and idempotency key reserves again, whatever
-- happens in between.
pub reserve_once :
    (a a' : Admission) (rid rid' : String) (now now' : ℕ) (db db' late : Db) (r : Option String)
    → IsSound db
    → reserve a rid now db ≡ ok (r, db')
    → Reach db' late
    → a'.key_id ≡ a.key_id
    → a'.idem ≡ a.idem
    → ¬ IsOk (reserve a' rid' now' late)
unfolding reserve
reserve_once a a' rid rid' now now' db db' late r h e run ek ei accepted =
    let sound : IsSound db' = Step-IsSound h (reserved a rid now e) in
    let used =
      Reach-used a.key_id a.idem sound (reserve-used a rid now db db' r h.projected e) run in
    elim (Result-cases (admit true a' rid' now' late)) [
      | inl (r', e') ↦
          let (q, eq, c, admissible) = admit_inversion true a' rid' now' late r' e' in
          let fresh = (admissible (recount late) (Reach-IsSound sound run).projected).fresh refl in
          let fresh' : any (same_request a.key_id a.idem) late.member_usage ≡ false =
            rw (← ek, ← ei) fresh in
          cc
      | inr (x, ex) ↦ ground arith
    ]

-- What a settlement leaves under its id is a closed row.
settle-closed :
    (a : Settlement) (db db' : Db)
    → Settles a db true db'
    → (row : MemberUsage) × (find_usage a.rid db' ≡ some row) × (is_held row.state ≡ false)
settle-closed a db db' (closed eb e) = absurd (cc)
settle-closed a db db' (closes s row es ef held eb e) =
    let mine =
      find-update (λ (r : MemberUsage). r.id) a.rid (has_id a.rid) (settle_row s) (λ x. refl)
        db.member_usage row ef in
    let hit = find-some (has_id a.rid) db.member_usage row ef in
    (settle_row s row, rw e (ground (arith, mine, hit)), refl)

no_second :
    (a : Settlement) (db db' : Db) (b : Bool) (row : MemberUsage)
    → find_usage a.rid db ≡ some row
    → is_held row.state ≡ false
    → Settles a db b db'
    → (b ≡ false) × (db' ≡ db)
no_second a db db' b row found shut (closed eb e) = (eb, e)
no_second a db db' b row found shut (closes s row' es ef held eb e) = absurd (ground arith)

-- A request is settled once: after a settlement, a later call for the same id, whatever happens in
-- between, raises or returns `False`, and changes nothing.
pub settle_once :
    (a a' : Settlement) (db db' late last : Db) (b : Bool)
    → IsSound db
    → settle a db ≡ ok (true, db')
    → Reach db' late
    → a'.rid ≡ a.rid
    → settle a' late ≡ ok (b, last)
    → (b ≡ false) × (last ≡ late)
settle_once a a' db db' late last b h e run er e' =
    let sound : IsSound db' = Step-IsSound h (settled a e) in
    let (row, found, shut) = settle-closed a db db' (settle-Settles a db db' true h.projected e) in
    let found' : find_usage a'.rid late ≡ some row =
      rw er (Reach-closed a.rid row sound found shut run) in
    no_second a' late last b row found' shut
      (settle-Settles a' late last b (Reach-IsSound sound run).projected e')
