-- ===== src/Billing/Settled.antt =====
-- Settling and reviewing keep the books.
use slipvolt.Base.{
  ℕ, ◌≡◌, refl, sym, ◌∙◌, String, Bool, true, false, ◌&&◌, Option, none, some, List, [], ◌∷◌, arith,
  str_eq, inl, inr, Bool-cases,
}
use mathlib.Core.Path.{subst}
use slipvolt.Base.Int.{pos, ◌+ℤ◌, ◌-ℤ◌, int_laws}
use slipvolt.Base.Result.{ok, >>=-eq-ok, raise_if}
use slipvolt.Host.{Host}
use slipvolt.Value.{ceiling}
use slipvolt.Db.{Db, Usage, Reconciliation, is_held, is_reserved}
use slipvolt.Db.Sql.{find, sum, update, any-update}
use slipvolt.Db.Keyed.{IsApart-update, same_key, sum-update_key}
use slipvolt.Prepaid.{has_id, whole}
use slipvolt.Prepaid.Booked.{
  IsBooked, credited, charged, charge_to, charge_on, spent_on, share, rebalanced, remetered,
  account_missing, key_missing,
}
use slipvolt.Billing.{
  Bill, bill_row, write_bill, write_evidence, settle_found, settle, review, review_row,
  bad_reference,
}

-- What the wallets' and keys' charges become.
module _ (b : Bill) (n : ℕ) (row : Usage) (db : Db) (books : IsBooked db)
    (found : find (has_id b.rid) db.usage ≡ some row) (held : is_held row.state ≡ true)
    (closes : is_held b.state ≡ false) where
  charge_back :
      (wallet : String)
      → pos (credited wallet db) +ℤ pos (charged wallet db)
        ≡ pos (credited wallet db)
          +ℤ pos (charged wallet (write_bill b n row db))
          +ℤ share row.wallet wallet (pos row.reserved_nusd -ℤ pos n)
  charge_back wallet =
      let moved =
        sum-update_key (λ (u : Usage). u.id) (charge_to wallet) b.rid (bill_row b n) db.usage row
          books.ids found in
      elim (Bool-cases (str_eq row.wallet wallet)) [
        | inl one ↦ rw one (grind (int_laws, moved, one, held, closes))
        | inr other ↦ rw other (grind (int_laws, moved, other, held, closes))
      ]

  spent_back :
      (key : String)
      → pos (spent_on key (write_bill b n row db))
        ≡ pos (spent_on key db) +ℤ share row.key_id key (pos 0 -ℤ (pos row.reserved_nusd -ℤ pos n))
  spent_back key =
      let moved =
        sum-update_key (λ (u : Usage). u.id) (charge_on key) b.rid (bill_row b n) db.usage row
          books.ids found in
      elim (Bool-cases (str_eq row.key_id key)) [
        | inl one ↦ rw one (grind (int_laws, moved, one, held, closes))
        | inr other ↦ rw other (grind (int_laws, moved, other, held, closes))
      ]

  pub write_bill-IsBooked : IsBooked (write_bill b n row db)
  write_bill-IsBooked = record {
    ids =
        IsApart-update (same_key (λ (u : Usage). u.id)) (has_id b.rid) (bill_row b n) (λ x y. refl)
          (λ x y. refl) db.usage books.ids;
    balanced = λ wallet a' e.
        rebalanced row.wallet wallet (pos row.reserved_nusd -ℤ pos n) db.accounts a' _ _ _ _
          (books.balanced wallet) e (charge_back wallet);
    metered = λ key k' e.
        remetered row.key_id key (pos 0 -ℤ (pos row.reserved_nusd -ℤ pos n)) db.api_keys k' _ _
          (books.metered key) e (spent_back key);
    user_known = λ wallet e.
        any-update (λ (u : Usage). str_eq u.wallet wallet) (has_id b.rid) (bill_row b n) db.usage
          (λ x. refl)
        ∙ books.user_known wallet (account_missing row.wallet wallet _ db.accounts e);
    key_known = λ key e.
        any-update (λ (u : Usage). str_eq u.key_id key) (has_id b.rid) (bill_row b n) db.usage
          (λ x. refl)
        ∙ books.key_known key (key_missing row.key_id key _ db.api_keys e);
    credit_known =
        λ wallet e. books.credit_known wallet (account_missing row.wallet wallet _ db.accounts e);
  }

-- How `settle` can end.
pub data Ends (b : Bill) (db : Db) : Bool → Db → Type 0 where
  passed : {done : Bool} {db' : Db} → done ≡ false → db' ≡ db → Ends b db done db'
  billed :
      {done : Bool} {db' : Db} (n : ℕ) (row : Usage)
      → find (has_id b.rid) db.usage ≡ some row
      → is_held row.state ≡ true
      → whole b.billed ceiling "Invalid settlement" ≡ ok n
      → done ≡ true
      → db' ≡ record (write_bill b n row db) { reconciliations = db'.reconciliations }
      → Ends b db done db'

write_evidence-other :
    (b : Bill) (n now : ℕ) (db db' : Db)
    → write_evidence b n now db ≡ ok db'
    → db' ≡ record db { reconciliations = db'.reconciliations }
unfolding write_evidence
write_evidence-other b n now db db' e = ground arith

settle_found-Ends :
    (b : Bill) (n now : ℕ) (found : Option Usage) (db db' : Db) (done : Bool)
    → find (has_id b.rid) db.usage ≡ found
    → whole b.billed ceiling "Invalid settlement" ≡ ok n
    → settle_found found b n now db ≡ ok (done, db')
    → Ends b db done db'
unfolding settle_found
settle_found-Ends b n now none db db' done ef en e = passed (ground arith) (ground arith)
settle_found-Ends b n now (some row) db db' done ef en e = elim (Bool-cases (is_held row.state)) [
  | inl held ↦
      billed n row ef held en (ground arith)
        (write_evidence-other b n now (write_bill b n row db) db' (ground arith))
  | inr shut ↦ passed (ground arith) (ground arith)
]

pub settle-Ends :
    (host : Host) (b : Bill) (now : ℕ) (db db' : Db) (done : Bool)
    → settle host b now db ≡ ok (done, db')
    → Ends b db done db'
unfolding settle
settle-Ends host b now db db' done e =
    let (n, en, e1) = >>=-eq-ok (whole b.billed ceiling "Invalid settlement") _ e in
    let (_, _, e2) = >>=-eq-ok (raise_if (bad_reference host b.state b.evidence) _) _ e1 in
    settle_found-Ends b n now (find (has_id b.rid) db.usage) db db' done refl en e2

-- The books do not name the reconciliations.
other_tables :
    (db : Db) (rows : List Reconciliation)
    → IsBooked db
    → IsBooked (record db { reconciliations = rows })
other_tables db rows b = record {
  ids = b.ids;
  balanced = b.balanced;
  metered = b.metered;
  user_known = b.user_known;
  key_known = b.key_known;
  credit_known = b.credit_known;
}

Ends-IsBooked :
    (b : Bill) (db db' : Db) (done : Bool)
    → IsBooked db
    → is_held b.state ≡ false
    → Ends b db done db'
    → IsBooked db'
Ends-IsBooked b db db' done books closes (passed ed e) = rw e books
Ends-IsBooked b db db' done books closes (billed n row ef held en ed e) = subst IsBooked (sym e) (
    other_tables (write_bill b n row db) db'.reconciliations
      (write_bill-IsBooked b n row db books ef held closes))

-- A settlement to a closed state keeps the books: the hold beyond the bill returns to the wallet.
pub settle-IsBooked :
    (host : Host) (b : Bill) (now : ℕ) (db db' : Db) (done : Bool)
    → IsBooked db
    → is_held b.state ≡ false
    → settle host b now db ≡ ok (done, db')
    → IsBooked db'
settle-IsBooked host b now db db' done books closes e =
    Ends-IsBooked b db db' done books closes (settle-Ends host b now db db' done e)

-- A review moves no money: the row goes on holding what it held.
sum-review :
    (v : Usage → ℕ) (rid : String) (upstream_id : Option String) (rows : List Usage)
    → ((u : Usage) → is_reserved u.state ≡ true → v (review_row upstream_id u) ≡ v u)
    → sum v (update (λ u. has_id rid u && is_reserved u.state) (review_row upstream_id) rows)
      ≡ sum v rows
sum-review v rid upstream_id [] h = refl
sum-review v rid upstream_id (u ∷ rows) h = ground (arith, sum-review v rid upstream_id rows h, h u)

pub review-IsBooked :
    (rid : String) (upstream_id : Option String) (db : Db)
    → IsBooked db
    → IsBooked (review rid upstream_id db)
unfolding review
review-IsBooked rid upstream_id db b =
    let f = review_row upstream_id in
    let p = λ (u : Usage). has_id rid u && is_reserved u.state in
    record {
      ids =
          IsApart-update (same_key (λ (u : Usage). u.id)) p f (λ x y. refl) (λ x y. refl) db.usage
            b.ids;
      balanced = λ wallet a e.
          rw (sum-review (charge_to wallet) rid upstream_id db.usage (λ u e'. ground arith))
            (b.balanced wallet a e);
      metered = λ key k e.
          rw (sum-review (charge_on key) rid upstream_id db.usage (λ u e'. ground arith))
            (b.metered key k e);
      user_known = λ wallet e. any-update _ p f db.usage (λ x. refl) ∙ b.user_known wallet e;
      key_known = λ key e. any-update _ p f db.usage (λ x. refl) ∙ b.key_known key e;
      credit_known = b.credit_known;
    }
