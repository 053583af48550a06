-- ===== src/Prepaid/Booked.antt =====
-- The books of the prepaid ledger: for each wallet and each key, the tables agree.
use slipvolt.Base.{
  ℕ, ◌≡◌, refl, String, false, none, some, List, arith, any, if◌then◌else◌, str_eq, eq_iff, inl,
  inr, Bool-cases, Option-cases,
}
use slipvolt.Base.Int.{ℤ, pos, ◌+ℤ◌, int_laws, +ℤ-zero}
use slipvolt.Db.{Db, Account, ApiKey, Credit, Usage}
use slipvolt.Db.Sql.{find, sum, update, find-some}
use slipvolt.Db.Keyed.{IsApart, same_key, find-update-changed}
use slipvolt.Prepaid.{has_account, find_account, charge, has_key_id, add_balance, add_spent}

-- All that a wallet has been credited.
abbrev pub credited : String → Db → ℕ
credited wallet db =
    sum (λ (c : Credit). if str_eq c.wallet wallet then c.amount_nusd else 0) db.credits

-- All that its requests hold or were billed.
abbrev pub charge_to : String → Usage → ℕ
charge_to wallet u = if str_eq u.wallet wallet then charge u else 0

abbrev pub charged : String → Db → ℕ
charged wallet db = sum (charge_to wallet) db.usage

abbrev pub charge_on : String → Usage → ℕ
charge_on key u = if str_eq u.key_id key then charge u else 0

abbrev pub spent_on : String → Db → ℕ
spent_on key db = sum (charge_on key) db.usage

-- Credits are balance plus charges, wallet by wallet; a key's `spent_nusd` is the charges of its
-- requests; request ids are unique, and no request or credit is without its account.
pub record IsBooked (db : Db) : Type 0 where
  pub ids : IsApart (same_key (λ (u : Usage). u.id)) db.usage
  pub balanced :
      (wallet : String) (a : Account)
      → find_account wallet db ≡ some a
      → pos (credited wallet db) ≡ a.balance_nusd +ℤ pos (charged wallet db)
  pub metered :
      (key : String) (k : ApiKey)
      → find (has_key_id key) db.api_keys ≡ some k
      → k.spent_nusd ≡ pos (spent_on key db)
  pub user_known :
      (wallet : String)
      → find_account wallet db ≡ none
      → any (λ (u : Usage). str_eq u.wallet wallet) db.usage ≡ false
  pub key_known :
      (key : String)
      → find (has_key_id key) db.api_keys ≡ none
      → any (λ (u : Usage). str_eq u.key_id key) db.usage ≡ false
  pub credit_known :
      (wallet : String)
      → find_account wallet db ≡ none
      → any (λ (c : Credit). str_eq c.wallet wallet) db.credits ≡ false

-- d where the two names are one, nothing elsewhere
abbrev pub share : String → String → ℤ → ℤ
share w wallet d = if str_eq w wallet then d else pos 0

moved_balance :
    (w wallet : String) (d : ℤ) (a a' : Account)
    → a.wallet ≡ wallet
    → a' ≡ (if has_account w a then add_balance d a else a)
    → a'.balance_nusd ≡ a.balance_nusd +ℤ share w wallet d
moved_balance w wallet d a a' same e = elim (Bool-cases (str_eq w wallet)) [
  | inl one ↦ ground (arith, e, one, same, eq_iff w wallet, eq_iff a.wallet w)
  | inr other ↦
      ground (arith, e, other, same, +ℤ-zero a.balance_nusd, eq_iff w wallet, eq_iff a.wallet w)
]

balance_sum :
    (b b' d : ℤ) (credit charge credit' charge' : ℕ)
    → pos credit ≡ b +ℤ pos charge
    → b' ≡ b +ℤ d
    → pos credit' +ℤ pos charge ≡ pos credit +ℤ pos charge' +ℤ d
    → pos credit' ≡ b' +ℤ pos charge'
balance_sum b b' d credit charge credit' charge' h k shift = grind int_laws

-- A balance moves with the credits and charges of its wallet.
pub rebalanced :
    (w wallet : String) (d : ℤ) (accounts : List Account) (a' : Account)
    (credit charge credit' charge' : ℕ)
    → ((a : Account)
        → find (has_account wallet) accounts ≡ some a
        → pos credit ≡ a.balance_nusd +ℤ pos charge)
    → find (has_account wallet) (update (has_account w) (add_balance d) accounts) ≡ some a'
    → pos credit' +ℤ pos charge ≡ pos credit +ℤ pos charge' +ℤ share w wallet d
    → pos credit' ≡ a'.balance_nusd +ℤ pos charge'
rebalanced w wallet d accounts a' credit charge credit' charge' old found shift =
    let moved =
      find-update-changed (λ (a : Account). a.wallet) wallet (has_account w) (add_balance d)
        (λ x. refl) accounts in
    elim (Option-cases (find (has_account wallet) accounts)) [
      | inl missing ↦ absurd (ground (arith, moved, missing))
      | inr (a, e) ↦
          let same : a.wallet ≡ wallet =
            (eq_iff a.wallet wallet).0 (find-some (has_account wallet) accounts a e) in
          let before = old a e in
          let after : a'.balance_nusd ≡ a.balance_nusd +ℤ share w wallet d =
            moved_balance w wallet d a a' same
              (ground (arith, moved, e, same, eq_iff w wallet, eq_iff wallet w)) in
          balance_sum a.balance_nusd a'.balance_nusd (share w wallet d) credit charge credit'
            charge' before after shift
    ]

moved_spent :
    (w key : String) (d : ℤ) (k k' : ApiKey)
    → k.id ≡ key
    → k' ≡ (if has_key_id w k then add_spent d k else k)
    → k'.spent_nusd ≡ k.spent_nusd +ℤ share w key d
moved_spent w key d k k' same e = elim (Bool-cases (str_eq w key)) [
  | inl one ↦ ground (arith, e, one, same, eq_iff w key, eq_iff k.id w)
  | inr other ↦ ground (arith, e, other, same, +ℤ-zero k.spent_nusd, eq_iff w key, eq_iff k.id w)
]

spent_sum :
    (b b' d : ℤ) (spent spent' : ℕ)
    → b ≡ pos spent
    → b' ≡ b +ℤ d
    → pos spent' ≡ pos spent +ℤ d
    → b' ≡ pos spent'
spent_sum b b' d spent spent' h k shift = grind int_laws

-- A key's meter moves with the charges of its requests.
pub remetered :
    (w key : String) (d : ℤ) (keys : List ApiKey) (k' : ApiKey) (spent spent' : ℕ)
    → ((k : ApiKey) → find (has_key_id key) keys ≡ some k → k.spent_nusd ≡ pos spent)
    → find (has_key_id key) (update (has_key_id w) (add_spent d) keys) ≡ some k'
    → pos spent' ≡ pos spent +ℤ share w key d
    → k'.spent_nusd ≡ pos spent'
remetered w key d keys k' spent spent' old found shift =
    let moved =
      find-update-changed (λ (k : ApiKey). k.id) key (has_key_id w) (add_spent d) (λ x. refl)
        keys in
    elim (Option-cases (find (has_key_id key) keys)) [
      | inl missing ↦ absurd (ground (arith, moved, missing))
      | inr (k, e) ↦
          let same : k.id ≡ key = (eq_iff k.id key).0 (find-some (has_key_id key) keys k e) in
          let before = old k e in
          let after : k'.spent_nusd ≡ k.spent_nusd +ℤ share w key d =
            moved_spent w key d k k' same
              (ground (arith, moved, e, same, eq_iff w key, eq_iff key w)) in
          spent_sum k.spent_nusd k'.spent_nusd (share w key d) spent spent' before after shift
    ]

-- What is not found after an UPDATE was not there before.
pub account_missing :
    (w wallet : String) (d : ℤ) (accounts : List Account)
    → find (has_account wallet) (update (has_account w) (add_balance d) accounts) ≡ none
    → find (has_account wallet) accounts ≡ none
account_missing w wallet d accounts e = ground (
  arith,
  find-update-changed (λ (a : Account). a.wallet) wallet (has_account w) (add_balance d) (λ x. refl)
      accounts,
)

pub key_missing :
    (w key : String) (d : ℤ) (keys : List ApiKey)
    → find (has_key_id key) (update (has_key_id w) (add_spent d) keys) ≡ none
    → find (has_key_id key) keys ≡ none
key_missing w key d keys e = ground (
  arith,
  find-update-changed (λ (k : ApiKey). k.id) key (has_key_id w) (add_spent d) (λ x. refl) keys,
)
