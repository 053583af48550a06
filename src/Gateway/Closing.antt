-- ===== src/Gateway/Closing.antt =====
-- What `review` and `settle` leave of a hold: no open row.
use slipvolt.Base.{
  ℕ, ◌≡◌, refl, String, Bool, false, ◌&&◌, Option, none, some, List, [], ◌∷◌, arith, inl, inr,
  Bool-cases,
}
use slipvolt.Base.Result.{ok, >>=-eq-ok}
use slipvolt.Base.Int.{pos}
use slipvolt.Value.{int, integer, integer_range, ceiling}
use slipvolt.Db.{Db, MemberUsage, State, is_held, is_reserved}
use slipvolt.Db.Sql.{find, update}
use slipvolt.Pool.{has_id}
use slipvolt.Pool.Projection.{IsProjected}
use slipvolt.Settlement.{
  Settlement, Settled, settle, settle_row, settle_found, settled_of, review, review_row, find_usage,
}
use slipvolt.Settlement.Lifecycle.{closed, closes, settle-Settles, review-eq}

-- The request has no open hold: no row, or one that is settled or in review.
abbrev pub IsClosed : String → Db → Type 0
IsClosed rid db = (row : MemberUsage) → find_usage rid db ≡ some row → is_reserved row.state ≡ false

abbrev open_row : String → MemberUsage → Bool
open_row rid r = has_id rid r && is_reserved r.state

none_open :
    (rid : String) (upstream_id : Option String) (rows : List MemberUsage) (row : MemberUsage)
    → find (has_id rid) (update (open_row rid) (review_row upstream_id) rows) ≡ some row
    → is_reserved row.state ≡ false
none_open rid upstream_id [] row e = ground arith
none_open rid upstream_id (r ∷ rows) row e = elim (Bool-cases (has_id rid r)) [
  | inl mine ↦ elim (Bool-cases (is_reserved r.state)) [
    | inl held ↦ ground arith
    | inr shut ↦ ground arith
  ]
  | inr other ↦ none_open rid upstream_id rows row (ground arith)
]

pub review-IsClosed :
    (rid : String) (upstream_id : Option String) (db db' : Db)
    → IsProjected db
    → review rid upstream_id db ≡ ok db'
    → IsClosed rid db'
review-IsClosed rid upstream_id db db' h e row found =
    none_open rid upstream_id db.member_usage row (ground (arith, review-eq rid upstream_id db h))

not_held : (s : State) → is_held s ≡ false → is_reserved s ≡ false
not_held State.reserved h = h
not_held State.needs_review h = refl
not_held State.settled h = refl
not_held State.operator_settled h = refl

pub settled_rows :
    (rid : String) (s : Settled) (rows : List MemberUsage) (row : MemberUsage)
    → find (has_id rid) (update (has_id rid) (settle_row s) rows) ≡ some row
    → (row.state ≡ State.settled) × (row.tokens ≡ s.tokens) × (row.cost_ngonka ≡ s.cost)
settled_rows rid s [] row e = absurd (ground arith)
settled_rows rid s (r ∷ rows) row e = elim (Bool-cases (has_id rid r)) [
  | inl mine ↦ (ground arith, ground arith, ground arith)
  | inr other ↦ settled_rows rid s rows row (ground arith)
]

found-IsClosed :
    (a : Settlement) (found : Option MemberUsage) (s : Settled) (db db' : Db)
    → find_usage a.rid db ≡ found
    → settle_found found s a.rid db ≡ ok (false, db')
    → IsClosed a.rid db'
unfolding settle_found
found-IsClosed a none s db db' ef e row found = absurd (ground arith)
found-IsClosed a (some old) s db db' ef e row found = elim (Bool-cases (is_held old.state)) [
  | inl held ↦ absurd (ground arith)
  | inr shut ↦ ground (arith, not_held row.state)
]

pub settle-IsClosed :
    (a : Settlement) (db db' : Db) (b : Bool)
    → IsProjected db
    → settle a db ≡ ok (b, db')
    → IsClosed a.rid db'
unfolding settle
settle-IsClosed a db db' b h e row found = elim (settle-Settles a db db' b h e) [
  | closed eb edb ↦
      let (s, es, e') = >>=-eq-ok (settled_of a) _ e in
      found-IsClosed a (find_usage a.rid db) s db db' refl (ground arith) row found
  | closes s old es ef held eb edb ↦
      let done = settled_rows a.rid s db.member_usage row (ground (arith, edb)) in
      ground (arith, done)
]

pub settled_of-amounts :
    (a : Settlement) (s : Settled) (tokens cost : ℕ)
    → settled_of a ≡ ok s
    → a.tokens ≡ int (pos tokens)
    → a.cost ≡ int (pos cost)
    → (s.tokens ≡ tokens) × (s.cost ≡ cost)
unfolding settled_of
settled_of-amounts a s tokens cost e et ec =
    let (t, at, e1) = >>=-eq-ok (integer a.tokens 0 1000000000) _ e in
    let (c, ac, e2) = >>=-eq-ok (integer a.cost 0 ceiling) _ e1 in
    let t_is = (integer_range a.tokens 0 1000000000 t at).0 in
    let c_is = (integer_range a.cost 0 ceiling c ac).0 in
    (ground (arith, t_is), ground (arith, c_is))
