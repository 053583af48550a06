-- ===== src/Keys/Active.antt =====
-- What the operations on keys do to the keys that open the API.
use text.Mathlib.TextPositions.{starts_with-append, eq_refl}
use text.Mathlib.TextLemmas.{append-eq-nil_iff}
use slipvolt.Base.{
  ℕ, ◌≤◌, ◌≡◌, ◌≢◌, refl, ap, String, Bool, false, some, List, [], ◌∷◌, ◌++◌, str_eq, eq_iff, any,
  arith, inl, inr, Bool-cases,
}
use slipvolt.Base.Result.{ok}
use slipvolt.Host.{Host, len}
use slipvolt.Db.{Db, ApiKey}
use slipvolt.Db.Sql.{find-snoc, find, count, update, count-append}
use slipvolt.Keys.{
  audit, is_active, raw_of, key_row, clashes, insert_key, issue_key, opens, malformed, lookup_key,
  revoke_row, owned, revoke, revoke_all_keys,
}

-- No key that is stored has the digest of a new one.
other_hash :
    (host : Host) (row : ApiKey) (raw : String) (keys : List ApiKey)
    → row.hash ≡ host.digest raw
    → any (clashes row) keys ≡ false
    → any (opens host raw) keys ≡ false
other_hash host row raw [] e h = refl
other_hash host row raw (k ∷ keys) e h = ground (arith, other_hash host row raw keys e, e)

issue_inversion :
    (host : Host) (wallet name : String) (limit : ℕ) (token id : String) (now : ℕ) (db db' : Db)
    (raw : String)
    → issue_key host wallet name limit token id now db ≡ ok (raw, db')
    → (any (clashes (key_row host wallet name limit token id now)) db.api_keys ≡ false)
      × (db' ≡ record db {
        api_keys = db.api_keys ++ key_row host wallet name limit token id now ∷ [];
      })
      × (raw ≡ raw_of token)
      × (count (is_active wallet) db.api_keys ≤ 9)
unfolding issue_key insert_key
issue_inversion host wallet name limit token id now db db' raw e = ground arith

raw_nonempty : (token : String) → str_eq (raw_of token) "" ≡ false
raw_nonempty token = elim (Bool-cases (str_eq (raw_of token) "")) [
  | inl e ↦
      let blank : raw_of token ≡ "" = (eq_iff (raw_of token) "").0 e in
      let head : "sv_" ≡ "" = (append-eq-nil_iff.0 blank).0 in absurd (omega (arith, ap len head))
  | inr e ↦ e
]

-- A key that was issued is found by its raw text of at most 100 characters, with its wallet, name
-- and limit.
pub lookup_key-issue_key :
    (host : Host) (wallet name : String) (limit : ℕ) (token id : String) (now : ℕ) (db db' : Db)
    (raw : String)
    → len (raw_of token) ≤ 100
    → issue_key host wallet name limit token id now db ≡ ok (raw, db')
    → lookup_key host raw db' ≡ some (key_row host wallet name limit token id now)
unfolding lookup_key
lookup_key-issue_key host wallet name limit token id now db db' raw short e =
    let (free, edb, er, few) = issue_inversion host wallet name limit token id now db db' raw e in
    let row = key_row host wallet name limit token id now in
    let fits : malformed (raw_of token) ≡ false =
      ground (arith, raw_nonempty token, starts_with-append "sv_" token) in
    rw (er, edb, fits)
      (ground (
        arith,
        find-snoc (opens host (raw_of token)) db.api_keys row
            (other_hash host row (raw_of token) db.api_keys refl free),
        eq_refl row.hash,
      ))

-- Issuing a key keeps every wallet at ten active keys or fewer.
pub issue_key-bound :
    (host : Host) (wallet name : String) (limit : ℕ) (token id : String) (now : ℕ) (db db' : Db)
    (raw other : String)
    → issue_key host wallet name limit token id now db ≡ ok (raw, db')
    → count (is_active other) db.api_keys ≤ 10
    → count (is_active other) db'.api_keys ≤ 10
issue_key-bound host wallet name limit token id now db db' raw other e h =
    let (free, edb, er, few) = issue_inversion host wallet name limit token id now db db' raw e in
    let row = key_row host wallet name limit token id now in
    rw edb (
      ground
        (arith, count-append (is_active other) db.api_keys (row ∷ []), eq_iff wallet other, few))

none_opens :
    (host : Host) (raw : String) (p : ApiKey → Bool) (keys : List ApiKey) (k : ApiKey)
    → find (opens host raw) (update p revoke_row keys) ≡ some k
    → p k ≡ false
none_opens host raw p [] k e = ground arith
none_opens host raw p (x ∷ keys) k e = elim (Bool-cases (p x)) [
  | inl hit ↦ none_opens host raw p keys k (ground arith)
  | inr miss ↦ elim (Bool-cases (opens host raw x)) [
    | inl opened ↦ ground arith
    | inr shut ↦ none_opens host raw p keys k (ground arith)
  ]
]

-- After `revoke` of a key of a wallet no text opens that key: what is found is another key.
pub lookup_key-revoke :
    (host : Host) (id wallet raw : String) (db : Db) (k : ApiKey)
    → lookup_key host raw (revoke id wallet db).1 ≡ some k
    → owned id wallet k ≡ false
unfolding lookup_key revoke
lookup_key-revoke host id wallet raw db k e =
    none_opens host raw (owned id wallet) db.api_keys k (ground arith)

revoked_inactive :
    (wallet : String) (keys : List ApiKey)
    → count (is_active wallet) (update (is_active wallet) revoke_row keys) ≡ 0
revoked_inactive wallet [] = refl
revoked_inactive wallet (k ∷ keys) = ground (arith, revoked_inactive wallet keys)

untouched :
    (wallet other : String) (keys : List ApiKey)
    → wallet ≢ other
    → count (is_active other) (update (is_active wallet) revoke_row keys)
      ≡ count (is_active other) keys
untouched wallet other [] ne = refl
untouched wallet other (k ∷ keys) ne =
    ground (arith, untouched wallet other keys ne, eq_iff k.wallet wallet, eq_iff k.wallet other)

-- `revoke_all_keys` leaves the wallet no active key, counts those that it had, and leaves the active
-- keys of every other wallet.
pub revoke_all_keys_effect :
    (host : Host) (wallet : String) (now : ℕ) (db db' : Db) (n : ℕ)
    → revoke_all_keys host wallet now db ≡ ok (n, db')
    → (n ≡ count (is_active wallet) db.api_keys)
      × (count (is_active wallet) db'.api_keys ≡ 0)
      × ((other : String)
          → wallet ≢ other
          → count (is_active other) db'.api_keys ≡ count (is_active other) db.api_keys)
unfolding revoke_all_keys audit
revoke_all_keys_effect host wallet now db db' n e =
    let rows : db'.api_keys ≡ update (is_active wallet) revoke_row db.api_keys = ground arith in
    (
      ground arith,
      rw rows (revoked_inactive wallet db.api_keys),
      λ other ne. rw rows (untouched wallet other db.api_keys ne),
    )
