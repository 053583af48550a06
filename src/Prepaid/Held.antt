-- ===== src/Prepaid/Held.antt =====
-- A reservation keeps the books: what it holds leaves the wallet's balance and counts on the key.
use slipvolt.Base.{
  ℕ, ◌≡◌, refl, String, true, false, ◌||◌, Option, none, some, [], ◌∷◌, ◌++◌, arith, any, str_eq,
  eq_iff, inl, inr, Bool-cases,
}
use slipvolt.Base.Int.{pos, ◌+ℤ◌, ◌-ℤ◌, ◌≤ℤ◌, int_laws}
use slipvolt.Base.Result.{ok, >>=-eq-ok, or_raise}
use slipvolt.Db.{Db, Account, ApiKey, Usage}
use slipvolt.Db.Sql.{find, update, sum-append, any-snoc}
use slipvolt.Db.Keyed.{IsApart-snoc, same_key}
use slipvolt.Prepaid.{
  Hold, has_account, find_account, has_id, has_key_id, active_key, add_balance, add_spent,
  write_hold, hold_row, reserve, same_request, positive, hold_guards, funds_guards,
}
use slipvolt.Prepaid.Booked.{
  IsBooked, credited, charged, charge_to, charge_on, spent_on, share, rebalanced, remetered,
  account_missing, key_missing,
}

-- The database after the three writes.
abbrev pub held_db : Hold → ℕ → String → ℕ → Db → Db
held_db h n rid now db = record db {
  accounts = update (has_account h.wallet) (add_balance (pos 0 -ℤ pos n)) db.accounts;
  api_keys = update (has_key_id h.key_id) (add_spent (pos n)) db.api_keys;
  usage = db.usage ++ hold_row h n rid now ∷ [];
}

-- The shares of the new row.
charge_shift :
    (h : Hold) (n : ℕ) (rid : String) (now : ℕ) (db : Db) (wallet : String)
    → pos (credited wallet db) +ℤ pos (charged wallet db)
      ≡ pos (credited wallet db)
        +ℤ pos (charged wallet (held_db h n rid now db))
        +ℤ share h.wallet wallet (pos 0 -ℤ pos n)
charge_shift h n rid now db wallet =
    let row = hold_row h n rid now in
    elim (Bool-cases (str_eq h.wallet wallet)) [
      | inl one ↦ rw one (grind (int_laws, sum-append (charge_to wallet) db.usage (row ∷ []), one))
      | inr other ↦
          rw other (grind (int_laws, sum-append (charge_to wallet) db.usage (row ∷ []), other))
    ]

spent_shift :
    (h : Hold) (n : ℕ) (rid : String) (now : ℕ) (db : Db) (key : String)
    → pos (spent_on key (held_db h n rid now db))
      ≡ pos (spent_on key db) +ℤ share h.key_id key (pos n)
spent_shift h n rid now db key =
    let row = hold_row h n rid now in
    elim (Bool-cases (str_eq h.key_id key)) [
      | inl one ↦ rw one (grind (int_laws, sum-append (charge_on key) db.usage (row ∷ []), one))
      | inr other ↦
          rw other (grind (int_laws, sum-append (charge_on key) db.usage (row ∷ []), other))
    ]

str_eq_sym : (s t : String) → str_eq s t ≡ str_eq t s
str_eq_sym s t = ground (arith, eq_iff s t, eq_iff t s)

pub held_db-IsBooked :
    (h : Hold) (n : ℕ) (rid : String) (now : ℕ) (db : Db) (a : Account) (k : ApiKey)
    → IsBooked db
    → find_account h.wallet db ≡ some a
    → find (has_key_id h.key_id) db.api_keys ≡ some k
    → any (has_id rid) db.usage ≡ false
    → IsBooked (held_db h n rid now db)
held_db-IsBooked h n rid now db a k b ea ek new = record {
  ids =
      IsApart-snoc (same_key (λ (u : Usage). u.id)) (λ x y. str_eq_sym y.id x.id) db.usage
        (hold_row h n rid now) b.ids new;
  balanced = λ wallet a' e.
      rebalanced h.wallet wallet (pos 0 -ℤ pos n) db.accounts a' _ _ _ _ (b.balanced wallet) e
        (charge_shift h n rid now db wallet);
  metered = λ key k' e.
      remetered h.key_id key (pos n) db.api_keys k' _ _ (b.metered key) e
        (spent_shift h n rid now db key);
  user_known = λ wallet e.
      let gone = account_missing h.wallet wallet (pos 0 -ℤ pos n) db.accounts e in
      any-snoc _ db.usage (hold_row h n rid now) (b.user_known wallet gone)
        (ground (arith, eq_iff h.wallet wallet, gone, ea));
  key_known = λ key e.
      let gone = key_missing h.key_id key (pos n) db.api_keys e in
      any-snoc _ db.usage (hold_row h n rid now) (b.key_known key gone)
        (ground (arith, eq_iff h.key_id key, gone, ek));
  credit_known = λ wallet e.
      b.credit_known wallet (account_missing h.wallet wallet (pos 0 -ℤ pos n) db.accounts e);
}

pub active_is_key :
    (id wallet : String) (k : ApiKey) → active_key id wallet k ≡ true → has_key_id id k ≡ true
active_is_key id wallet k e = ground arith

-- What a reservation that succeeds has checked and written.
pub record Took (h : Hold) (rid : String) (now : ℕ) (db db' : Db) : Type 0 where
  pub n : ℕ
  pub account : Account
  pub key : ApiKey
  pub asked : positive h.amount "Invalid reservation" ≡ ok n
  pub found : find_account h.wallet db ≡ some account
  pub active : find (active_key h.key_id h.wallet) db.api_keys ≡ some key
  pub guarded : hold_guards h n now db ≡ ok tt
  pub in_limit : key.spent_nusd +ℤ pos n ≤ℤ pos key.limit_nusd
  pub covered : pos n ≤ℤ account.balance_nusd
  pub free : any (λ u. has_id rid u || same_request h.key_id h.idem u) db.usage ≡ false
  pub written : db' ≡ held_db h n rid now db

funds_inversion :
    (key : ApiKey) (o : Option Account) (n : ℕ)
    → funds_guards (some key) o n ≡ ok tt
    → (a : Account) × (o ≡ some a)
      × (key.spent_nusd +ℤ pos n ≤ℤ pos key.limit_nusd)
      × (pos n ≤ℤ a.balance_nusd)
unfolding funds_guards
funds_inversion key none n e = absurd (ground arith)
funds_inversion key (some a) n e = (a, refl, ground arith, ground arith)

pub reserve-Took :
    (h : Hold) (rid out : String) (now : ℕ) (db db' : Db)
    → reserve h rid now db ≡ ok (out, db')
    → Took h rid now db db' × (out ≡ rid)
unfolding reserve write_hold
reserve-Took h rid out now db db' e =
    let (n, en, e1) = >>=-eq-ok (positive h.amount "Invalid reservation") _ e in
    let (key, ekey, e2) =
      >>=-eq-ok (or_raise (find (active_key h.key_id h.wallet) db.api_keys) "invalid_key") _ e1 in
    let (_, eg, e3) = >>=-eq-ok (hold_guards h n now db) _ e2 in
    let (_, ef, e4) = >>=-eq-ok (funds_guards (some key) (find_account h.wallet db) n) _ e3 in
    let (a, ea, limit, cover) = funds_inversion key (find_account h.wallet db) n ef in
    (
      record {
        n = n;
        account = a;
        key = key;
        asked = en;
        found = ea;
        active = ground arith;
        guarded = eg;
        in_limit = limit;
        covered = cover;
        free = ground arith;
        written = ground arith;
      },
      ground arith,
    )
