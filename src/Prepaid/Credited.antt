-- ===== src/Prepaid/Credited.antt =====
-- A credit keeps the books.
use slipvolt.Base.{
  ℕ, ◌≡◌, String, ◌++◌, none, some, List, [], ◌∷◌, arith, any, if◌then◌else◌, str_eq, eq_iff, inl,
  inr, Bool-cases, Option-cases,
}
use slipvolt.Base.Int.{pos, ◌+ℤ◌, int_laws, +ℤ-zero}
use slipvolt.Base.Result.{ok, >>=-eq-ok}
use slipvolt.Value.{Value, ceiling}
use slipvolt.Db.{Db, Account, Credit, Usage}
use slipvolt.Db.Sql.{find, sum, sum-append, sum-if_none, any-snoc}
use slipvolt.Prepaid.{
  has_account, find_account, charge, ensure_account, pay, credit, credit_new, credit_row, whole,
}
use slipvolt.Prepaid.Booked.{IsBooked, credited, charged, share, rebalanced, account_missing}

find-snoc :
    (wallet : String) (accounts : List Account) (r : Account)
    → find (has_account wallet) (accounts ++ r ∷ []) ≡ elim (find (has_account wallet) accounts) [
      | some a ↦ some a
      | none ↦ (if has_account wallet r then some r else none)
    ]
find-snoc wallet [] r = ground arith
find-snoc wallet (a ∷ accounts) r = ground (arith, find-snoc wallet accounts r)

abbrev opened : String → Account
opened wallet = record { wallet = wallet; balance_nusd = pos 0 }

new_balance :
    (wallet name : String) (db : Db) (a : Account)
    → IsBooked db
    → find (has_account name) (db.accounts ++ opened wallet ∷ []) ≡ some a
    → pos (credited name db) ≡ a.balance_nusd +ℤ pos (charged name db)
new_balance wallet name db a b e = elim (Option-cases (find (has_account name) db.accounts)) [
  | inl missing ↦
      let nothing_due : charged name db ≡ 0 =
        sum-if_none (λ (u : Usage). str_eq u.wallet name) charge db.usage
          (b.user_known name missing) in
      let nothing_paid : credited name db ≡ 0 =
        sum-if_none (λ (c : Credit). str_eq c.wallet name) (λ c. c.amount_nusd) db.credits
          (b.credit_known name missing) in
      let mine : a.balance_nusd ≡ pos 0 =
        ground (arith, find-snoc name db.accounts (opened wallet), missing) in
      rw (nothing_due, nothing_paid, mine, +ℤ-zero)
  | inr (a0, e0) ↦
      b.balanced name a (ground (arith, find-snoc name db.accounts (opened wallet), e0))
]

not_missing :
    (wallet name : String) (db : Db)
    → find (has_account name) (db.accounts ++ opened wallet ∷ []) ≡ none
    → find (has_account name) db.accounts ≡ none
not_missing wallet name db e = ground (arith, find-snoc name db.accounts (opened wallet))

abbrev with_account : String → Db → Db
with_account wallet db = record db { accounts = db.accounts ++ opened wallet ∷ [] }

with_account-IsBooked :
    (wallet : String) (db : Db) → IsBooked db → IsBooked (with_account wallet db)
with_account-IsBooked wallet db b = record {
  ids = b.ids;
  balanced = λ name a e. new_balance wallet name db a b e;
  metered = b.metered;
  user_known = λ name e. b.user_known name (not_missing wallet name db e);
  key_known = b.key_known;
  credit_known = λ name e. b.credit_known name (not_missing wallet name db e);
}

-- A new account starts at nothing, as its wallet has no credit and no request.
pub ensure_account-IsBooked :
    (wallet : String) (db : Db) → IsBooked db → IsBooked (ensure_account wallet db)
unfolding ensure_account
ensure_account-IsBooked wallet db b = elim (Bool-cases (any (has_account wallet) db.accounts)) [
  | inl there ↦ rw there b
  | inr new ↦ rw new (with_account-IsBooked wallet db b)
]

credit_shift :
    (wallet name reference : String) (n now : ℕ) (db : Db)
    → pos (
          sum
            (λ (c : Credit). if str_eq c.wallet name then c.amount_nusd else 0)
            (db.credits ++ credit_row wallet n reference now ∷ []))
        +ℤ pos (charged name db)
      ≡ pos (credited name db) +ℤ pos (charged name db) +ℤ share wallet name (pos n)
credit_shift wallet name reference n now db =
    let row = credit_row wallet n reference now in
    let added =
      sum-append (λ (c : Credit). if str_eq c.wallet name then c.amount_nusd else 0) db.credits
        (row ∷ []) in
    elim (Bool-cases (str_eq wallet name)) [
      | inl one ↦ rw one (grind (int_laws, added, one))
      | inr other ↦ rw other (grind (int_laws, added, other))
    ]

-- The two writes of a credit.
abbrev credited_db : String → ℕ → String → ℕ → Db → Db
credited_db wallet n reference now db =
    pay wallet (pos n)
      (record db { credits = db.credits ++ credit_row wallet n reference now ∷ [] })

credited_db-IsBooked :
    (wallet reference : String) (n now : ℕ) (db : Db) (a : Account)
    → IsBooked db
    → find_account wallet db ≡ some a
    → IsBooked (credited_db wallet n reference now db)
credited_db-IsBooked wallet reference n now db a b ea = record {
  ids = b.ids;
  balanced = λ name a' e.
      rebalanced wallet name (pos n) db.accounts a' _ _ _ _ (b.balanced name) e
        (credit_shift wallet name reference n now db);
  metered = b.metered;
  user_known = λ name e. b.user_known name (account_missing wallet name (pos n) db.accounts e);
  key_known = b.key_known;
  credit_known = λ name e.
      let gone = account_missing wallet name (pos n) db.accounts e in
      any-snoc _ db.credits (credit_row wallet n reference now) (b.credit_known name gone)
        (ground (arith, eq_iff wallet name, gone, ea));
}

credit_new-IsBooked :
    (wallet : String) (n : ℕ) (reference : String) (now : ℕ) (db db' : Db) (u : Unit {0})
    → IsBooked db
    → credit_new wallet n reference now db ≡ ok (u, db')
    → IsBooked db'
unfolding credit_new
credit_new-IsBooked wallet n reference now db db' u b e =
    let db1 = ensure_account wallet db in
    elim (Option-cases (find_account wallet db1)) [
      | inl missing ↦ absurd (ground arith)
      | inr (a, ea) ↦
          let made : db' ≡ credited_db wallet n reference now db1 = ground arith in
          rw made (
            credited_db-IsBooked wallet reference n now db1 a (ensure_account-IsBooked wallet db b)
              ea)
    ]

-- A credit, new or repeated, keeps the books.
pub credit-IsBooked :
    (wallet : String) (amount : Value) (reference : String) (now : ℕ) (db db' : Db) (u : Unit {0})
    → IsBooked db
    → credit wallet amount reference now db ≡ ok (u, db')
    → IsBooked db'
unfolding credit
credit-IsBooked wallet amount reference now db db' u b e =
    let (n, en, e1) = >>=-eq-ok (whole amount ceiling "Invalid credit or reference") _ e in
    elim (Option-cases (find (λ (c : Credit). str_eq c.reference reference) db.credits)) [
      | inl new ↦ credit_new-IsBooked wallet n reference now db db' u b (ground arith)
      | inr (old, eo) ↦ let same : db ≡ db' = ground arith in rw same at b
    ]
