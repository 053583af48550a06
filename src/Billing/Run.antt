-- ===== src/Billing/Run.antt =====
-- The prepaid ledger along every run.
use slipvolt.Base.{ℕ, ◌≡◌, String, Bool, true, false, ◌⊎◌, Option, arith, any, inl, inr}
use slipvolt.Base.Result.{ok, IsOk, Result-cases}
use slipvolt.Value.{Value}
use slipvolt.Host.{Host}
use slipvolt.Db.{Db, Usage, is_held, is_review}
use slipvolt.Startup.{prepaid_pending}
use slipvolt.Prepaid.{Hold, reserve, credit, ensure_account, needs_review, hold_guards}
use slipvolt.Prepaid.Booked.{IsBooked}
use slipvolt.Prepaid.Held.{Took, reserve-Took}
use slipvolt.Prepaid.Covered.{reserve-IsBooked}
use slipvolt.Prepaid.Credited.{credit-IsBooked, ensure_account-IsBooked}
use slipvolt.Billing.{Bill, settle, review}
use slipvolt.Keys.{issue_key, revoke, revoke_all_keys}
use slipvolt.Billing.Keyed.{
  IsElsewhere, elsewhere-IsBooked, issue_key-IsBooked, revoke-IsBooked, revoke_all_keys-IsBooked,
}
use slipvolt.Billing.Settled.{settle-IsBooked, review-IsBooked}

-- One committed operation of the prepaid ledger, a key that is issued or revoked, or a write to other
-- tables. A settlement closes its row, as every caller asks.
pub data Step (host : Host) : Db → Db → Type 0 where
  opened : {db : Db} (wallet : String) → Step host db (ensure_account wallet db)
  credited_by :
      {db db' : Db} {u : Unit {0}} (wallet : String) (amount : Value) (reference : String) (now : ℕ)
      → credit wallet amount reference now db ≡ ok (u, db')
      → Step host db db'
  reserved :
      {db db' : Db} {out : String} (h : Hold) (rid : String) (now : ℕ)
      → reserve h rid now db ≡ ok (out, db')
      → Step host db db'
  settled :
      {db db' : Db} {done : Bool} (b : Bill) (now : ℕ)
      → is_held b.state ≡ false
      → settle host b now db ≡ ok (done, db')
      → Step host db db'
  reviewed :
      {db : Db} (rid : String) (upstream_id : Option String)
      → Step host db (review rid upstream_id db)
  issued :
      {db db' : Db} {raw : String} (wallet name : String) (limit : ℕ) (token id : String) (now : ℕ)
      → issue_key host wallet name limit token id now db ≡ ok (raw, db')
      → Step host db db'
  revoked : {db : Db} (id wallet : String) → Step host db (revoke id wallet db).1
  all_revoked :
      {db db' : Db} {n : ℕ} (wallet : String) (now : ℕ)
      → revoke_all_keys host wallet now db ≡ ok (n, db')
      → Step host db db'
  elsewhere : {db db' : Db} → IsElsewhere db db' → Step host db db'

pub data Reach (host : Host) (db : Db) : Db → Type 0 where
  here : Reach host db db
  next : {mid last : Db} → Reach host db mid → Step host mid last → Reach host db last

Step-IsBooked : {host : Host} {db db' : Db} → IsBooked db → Step host db db' → IsBooked db'
Step-IsBooked b (opened {db = db} wallet) = ensure_account-IsBooked wallet db b
Step-IsBooked {host} {db} {db'} b (credited_by {u = u} wallet amount reference now e) =
    credit-IsBooked wallet amount reference now db db' u b e
Step-IsBooked {host} {db} {db'} b (reserved {out = out} h rid now e) =
    reserve-IsBooked h rid out now db db' b e
Step-IsBooked {host} {db} {db'} b (settled {done = done} bill now closes e) =
    settle-IsBooked host bill now db db' done b closes e
Step-IsBooked b (reviewed {db = db} rid upstream_id) = review-IsBooked rid upstream_id db b
Step-IsBooked {host} {db} {db'} b (issued {raw = raw} wallet name limit token id now e) =
    issue_key-IsBooked host wallet name limit token id raw now db db' b e
Step-IsBooked b (revoked {db = db} id wallet) = revoke-IsBooked id wallet db b
Step-IsBooked {host} {db} {db'} b (all_revoked {n = n} wallet now e) =
    revoke_all_keys-IsBooked host wallet now n db db' b e
Step-IsBooked {host} {db} {db'} b (elsewhere same) = elsewhere-IsBooked db db' same b

-- Along every run, keys issued and revoked and writes to other tables among its steps, the books
-- balance: for each wallet the credits are the balance and the charges of its requests together, and
-- each key's spending is the charges of its requests.
pub Reach-IsBooked : {host : Host} {db db' : Db} → IsBooked db → Reach host db db' → IsBooked db'
Reach-IsBooked b here = b
Reach-IsBooked b (next r s) = Step-IsBooked (Reach-IsBooked b r) s

-- While a row is in review, or a hold from before the start is open, nothing is reserved.
pub reserve-breaker :
    (h : Hold) (rid : String) (now : ℕ) (db : Db)
    → (any (λ (u : Usage). is_review u.state) db.usage ≡ true) ⊎ (prepaid_pending db ≡ true)
    → ¬ IsOk (reserve h rid now db)
unfolding hold_guards needs_review
reserve-breaker h rid now db open_holds accepted = elim (Result-cases (reserve h rid now db)) [
  | inl ((out, db'), e) ↦
      let t : Took h rid now db db' = (reserve-Took h rid out now db db' e).0 in
      absurd (ground (arith, t.guarded))
  | inr (x, ex) ↦ ground arith
]
