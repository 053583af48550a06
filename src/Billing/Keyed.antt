-- ===== src/Billing/Keyed.antt =====
-- Keys that come and go keep the books of the prepaid ledger: a new key has spent nothing.
use mathlib.Core.Path.{subst}
use slipvolt.Base.{
  ℕ, ◌≡◌, refl, sym, ap, ◌∙◌, String, Bool, none, some, List, [], ◌∷◌, ◌++◌, arith, if◌then◌else◌,
  str_eq, inl, inr, Option-cases,
}
use slipvolt.Base.Int.{pos}
use slipvolt.Base.Result.{ok}
use slipvolt.Host.{Host}
use slipvolt.Db.{Db, ApiKey, Usage}
use slipvolt.Db.Sql.{find, update, sum-if_none, find-update-revised}
use slipvolt.Prepaid.{charge, has_key_id}
use slipvolt.Prepaid.Booked.{IsBooked, spent_on}
use slipvolt.Keys.{
  audit, key_row, insert_key, issue_key, is_active, owned, revoke_row, revoke, revoke_all_keys,
}

-- The tables that the books are about are the same.
pub record IsElsewhere (db db' : Db) : Type 0 where
  pub accounts : db'.accounts ≡ db.accounts
  pub api_keys : db'.api_keys ≡ db.api_keys
  pub credits : db'.credits ≡ db.credits
  pub usage : db'.usage ≡ db.usage

pub elsewhere-IsBooked : (db db' : Db) → IsElsewhere db db' → IsBooked db → IsBooked db'
elsewhere-IsBooked db db' same b = record {
  ids = rw same.usage (b.ids);
  balanced = rw (same.usage, same.accounts, same.credits) (b.balanced);
  metered = rw (same.usage, same.api_keys) (b.metered);
  user_known = rw (same.usage, same.accounts) (b.user_known);
  key_known = rw (same.usage, same.api_keys) (b.key_known);
  credit_known = rw (same.accounts, same.credits) (b.credit_known);
}

find_key-snoc :
    (key : String) (keys : List ApiKey) (r : ApiKey)
    → find (has_key_id key) (keys ++ r ∷ []) ≡ elim (find (has_key_id key) keys) [
      | some k ↦ some k
      | none ↦ (if has_key_id key r then some r else none)
    ]
find_key-snoc key [] r = ground arith
find_key-snoc key (k ∷ keys) r = ground (arith, find_key-snoc key keys r)

new_meter :
    (row : ApiKey) (key : String) (db : Db) (k : ApiKey)
    → row.spent_nusd ≡ pos 0
    → IsBooked db
    → find (has_key_id key) (db.api_keys ++ row ∷ []) ≡ some k
    → k.spent_nusd ≡ pos (spent_on key db)
new_meter row key db k fresh b e = elim (Option-cases (find (has_key_id key) db.api_keys)) [
  | inl missing ↦
      let nothing : spent_on key db ≡ 0 =
        sum-if_none (λ (u : Usage). str_eq u.key_id key) charge db.usage
          (b.key_known key missing) in
      let mine : k.spent_nusd ≡ pos 0 =
        ground (arith, find_key-snoc key db.api_keys row, missing, fresh) in
      mine ∙ ap (λ n. pos n) (sym nothing)
  | inr (old, found) ↦ b.metered key k (ground (arith, find_key-snoc key db.api_keys row, found))
]

key_was_missing :
    (row : ApiKey) (key : String) (db : Db)
    → find (has_key_id key) (db.api_keys ++ row ∷ []) ≡ none
    → find (has_key_id key) db.api_keys ≡ none
key_was_missing row key db e = ground (arith, find_key-snoc key db.api_keys row)

with_key-IsBooked :
    (row : ApiKey) (db : Db)
    → row.spent_nusd ≡ pos 0
    → IsBooked db
    → IsBooked (record db { api_keys = db.api_keys ++ row ∷ [] })
with_key-IsBooked row db fresh b = record {
  ids = b.ids;
  balanced = b.balanced;
  metered = λ key k e. new_meter row key db k fresh b e;
  user_known = b.user_known;
  key_known = λ key e. b.key_known key (key_was_missing row key db e);
  credit_known = b.credit_known;
}

pub issue_key-IsBooked :
    (host : Host) (wallet name : String) (limit : ℕ) (token id raw : String) (now : ℕ) (db db' : Db)
    → IsBooked db
    → issue_key host wallet name limit token id now db ≡ ok (raw, db')
    → IsBooked db'
unfolding issue_key insert_key
issue_key-IsBooked host wallet name limit token id raw now db db' b e =
    let row = key_row host wallet name limit token id now in
    let same : (record db { api_keys = db.api_keys ++ row ∷ [] }) ≡ db' = ground arith in
    subst IsBooked same (with_key-IsBooked row db refl b)

-- A revoked key keeps its id and its meter.
revoked_meter :
    (p : ApiKey → Bool) (key : String) (keys : List ApiKey) (k : ApiKey)
    → find (has_key_id key) (update p revoke_row keys) ≡ some k
    → (old : ApiKey) × (find (has_key_id key) keys ≡ some old) × (k.spent_nusd ≡ old.spent_nusd)
revoked_meter p key keys k e =
    let moved = find-update-revised (has_key_id key) p revoke_row (λ x. refl) keys in
    elim (Option-cases (find (has_key_id key) keys)) [
      | inl missing ↦ absurd (ground (arith, moved, missing))
      | inr (old, found) ↦ (old, found, ground (arith, moved, found))
    ]

key_stays_missing :
    (p : ApiKey → Bool) (key : String) (keys : List ApiKey)
    → find (has_key_id key) (update p revoke_row keys) ≡ none
    → find (has_key_id key) keys ≡ none
key_stays_missing p key keys e =
    ground (arith, find-update-revised (has_key_id key) p revoke_row (λ x. refl) keys)

pub revoked-IsBooked :
    (p : ApiKey → Bool) (db : Db)
    → IsBooked db
    → IsBooked (record db { api_keys = update p revoke_row db.api_keys })
revoked-IsBooked p db b = record {
  ids = b.ids;
  balanced = b.balanced;
  metered = λ key k e.
      let (old, found, same) = revoked_meter p key db.api_keys k e in
      same ∙ b.metered key old found;
  user_known = b.user_known;
  key_known = λ key e. b.key_known key (key_stays_missing p key db.api_keys e);
  credit_known = b.credit_known;
}

pub revoke-IsBooked :
    (id wallet : String) (db : Db) → IsBooked db → IsBooked (revoke id wallet db).1
unfolding revoke
revoke-IsBooked id wallet db b = revoked-IsBooked (owned id wallet) db b

pub revoke_all_keys-IsBooked :
    (host : Host) (wallet : String) (now n : ℕ) (db db' : Db)
    → IsBooked db
    → revoke_all_keys host wallet now db ≡ ok (n, db')
    → IsBooked db'
unfolding revoke_all_keys audit
revoke_all_keys-IsBooked host wallet now n db db' b e =
    let mid = record db { api_keys = update (is_active wallet) revoke_row db.api_keys } in
    elsewhere-IsBooked mid db'
      (record {
        accounts = ground arith;
        api_keys = ground arith;
        credits = ground arith;
        usage = ground arith;
      })
      (revoked-IsBooked (is_active wallet) db b)
