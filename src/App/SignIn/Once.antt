-- ===== src/App/SignIn/Once.antt =====
-- A challenge that was taken stays taken, whatever happens later, unless its id is drawn again.
use Prim.Native.String.{◌++◌ as ◌++ₛ◌}
use slipvolt.Base.{
  ℕ, zero, suc, ◌≡◌, ◌≢◌, refl, ap, ◌∙◌, String, Bool, false, List, [], ◌∷◌, arith, ltb, str_eq,
  any, inl, inr, Bool-cases, Option-cases,
}
use slipvolt.Base.Result.{ok, Result-cases}
use slipvolt.Host.{Host}
use slipvolt.Db.{Db, Challenge}
use slipvolt.Db.Sql.{delete, find-none}
use slipvolt.Prepaid.{ensure_account}
use slipvolt.Sessions.{is_challenge, consume_challenge, new_session, insert_session, session_wallet}
use slipvolt.Sessions.Throttle.{Keeper, throttle, housekeep, delete_some, housekeeping_batch}
use slipvolt.App.Http.{Http, refused, granted}
use slipvolt.App.Ingress.{Moment, limited, with_db}
use slipvolt.Db.Sql.{any-snoc}
use slipvolt.Address.{decode_address}
use slipvolt.Value.{str}
use slipvolt.Sessions.{challenge_row}
use slipvolt.Sessions as store
use slipvolt.App.SignIn.{challenge, new_challenge, verify, verify_challenge, open_session}

module _ {ℓ} {A : Type ℓ} where
  any-delete_some :
      (n : ℕ) (p q : A → Bool) (xs : List A) → any q xs ≡ false → any q (delete_some n p xs) ≡ false
  any-delete_some zero p q xs h = h
  any-delete_some (suc n) p q [] h = h
  any-delete_some (suc n) p q (x ∷ xs) h =
      ground (arith, any-delete_some n p q xs, any-delete_some (suc n) p q xs)

  any-delete_same : (p : A → Bool) (xs : List A) → any p (delete p xs) ≡ false
  any-delete_same p [] = refl
  any-delete_same p (x ∷ xs) = ground (arith, any-delete_same p xs)

-- No challenge of the id is stored.
abbrev pub IsSpent : String → Db → Type 0
IsSpent id db = any (is_challenge id) db.challenges ≡ false

throttle-IsSpent :
    (bucket id : String) (limit seconds now monotonic : ℕ) (k : Keeper)
    → IsSpent id k.db
    → IsSpent id (throttle bucket limit seconds now monotonic k).1.db
unfolding throttle housekeep
throttle-IsSpent bucket id limit seconds now monotonic k spent = ground (
  arith,
  any-delete_some housekeeping_batch (λ (c : Challenge). ltb c.expires now) (is_challenge id)
      k.db.challenges spent,
)

pub new_session-IsSpent :
    (host : Host) (wallet token out id : String) (now : ℕ) (db db' : Db)
    → new_session host wallet token now db ≡ ok (out, db')
    → IsSpent id db
    → IsSpent id db'
unfolding new_session insert_session ensure_account
new_session-IsSpent host wallet token out id now db db' e spent = ground arith

pub consume_challenge-IsSpent :
    (id : String) (now : ℕ) (db : Db) → IsSpent id (consume_challenge id now db).1
unfolding consume_challenge
consume_challenge-IsSpent id now db = any-delete_same (is_challenge id) db.challenges

verify_challenge-refuses :
    (host : Host) (signed : String → String → String → Bool) (id signature token : String)
    (m : Moment) (k : Keeper) (opened : String × String)
    → IsSpent id k.db
    → (verify_challenge host signed id signature token m k).0 ≢ granted opened
unfolding verify_challenge consume_challenge
verify_challenge-refuses host signed id signature token m k opened spent given =
    let none_there = find-none (is_challenge id) k.db.challenges spent in
    let refuses : (verify_challenge host signed id signature token m k).0 ≡ refused 401 =
      rw (none_there, verify_challenge, consume_challenge) refl in
    absurd (ground arith)

-- A spent challenge verifies nothing.
pub verify-refuses :
    (host : Host) (signed : String → String → String → Bool) (ip id signature token : String)
    (m : Moment) (k : Keeper) (opened : String × String)
    → IsSpent id k.db
    → (verify host signed ip id signature token m k).0 ≢ granted opened
unfolding verify limited
verify-refuses host signed ip id signature token m k opened spent given =
    let bucket = host.digest ("verify" ++ₛ ip) in
    let after = throttle bucket 30 60 m.now m.monotonic k in
    let still = throttle-IsSpent bucket id 30 60 m.now m.monotonic k spent in
    let closed = verify_challenge-refuses host signed id signature token m after.1 opened still in
    elim (Bool-cases after.0) [
      | inl admitted ↦ closed (ground arith)
      | inr stopped ↦ absurd (ground arith)
    ]

ensure_account-IsSpent :
    (wallet id : String) (db : Db) → IsSpent id db → IsSpent id (ensure_account wallet db)
unfolding ensure_account
ensure_account-IsSpent wallet id db spent = ground arith

still_deleted :
    (p q : Challenge → Bool) (xs : List Challenge) → any q xs ≡ false → any q (delete p xs) ≡ false
still_deleted p q [] h = refl
still_deleted p q (x ∷ xs) h = ground (arith, still_deleted p q xs)

consume_other-IsSpent :
    (other id : String) (now : ℕ) (db : Db)
    → IsSpent id db
    → IsSpent id (consume_challenge other now db).1
unfolding consume_challenge
consume_other-IsSpent other id now db spent =
    still_deleted (is_challenge other) (is_challenge id) db.challenges spent

open_session-IsSpent :
    (host : Host) (c : Challenge) (token id : String) (m : Moment) (k : Keeper)
    → IsSpent id k.db
    → IsSpent id (open_session host c token m k).1.db
unfolding open_session
open_session-IsSpent host c token id m k spent =
    elim (Result-cases (new_session host c.wallet token m.now k.db)) [
      | inl ((out, db), f) ↦
          let kept = new_session-IsSpent host c.wallet token out id m.now k.db db f spent in
          ground (arith, f, kept)
      | inr (x, f) ↦ ground (arith, f, ensure_account-IsSpent c.wallet id k.db spent)
    ]

verify_challenge-IsSpent :
    (host : Host) (signed : String → String → String → Bool) (other id signature token : String)
    (m : Moment) (k : Keeper)
    → IsSpent id k.db
    → IsSpent id (verify_challenge host signed other signature token m k).1.db
unfolding verify_challenge
verify_challenge-IsSpent host signed other id signature token m k spent =
    let mid = with_db k (consume_challenge other m.now k.db).1 in
    let left = consume_other-IsSpent other id m.now k.db spent in
    elim (Option-cases (consume_challenge other m.now k.db).0) [
      | inl f ↦ ground (arith, f, left)
      | inr (c, f) ↦ ground (arith, f, left, open_session-IsSpent host c token id m mid left)
    ]

-- The state after a route: the throttle's, or the one after its body.
limited-IsSpent :
    {A : Type 0}
    → (host : Host) (name ip id : String) (limit : ℕ) (m : Moment) (k : Keeper)
      (body : Keeper → Http A × Keeper)
    → ((k' : Keeper) → IsSpent id k'.db → IsSpent id (body k').1.db)
    → IsSpent id k.db
    → IsSpent id (limited host name ip limit m k body).1.db
unfolding limited
limited-IsSpent host name ip id limit m k body keeps spent =
    let bucket = host.digest (name ++ₛ ip) in
    let after = throttle bucket limit 60 m.now m.monotonic k in
    let still = throttle-IsSpent bucket id limit 60 m.now m.monotonic k spent in
    elim (Bool-cases after.0) [
      | inl admitted ↦ ground (arith, keeps after.1 still)
      | inr stopped ↦ ground (arith, still)
    ]

new_challenge-IsSpent :
    (wallet : String) (message : String → String) (other id : String) (m : Moment) (k : Keeper)
    → str_eq other id ≡ false
    → IsSpent id k.db
    → IsSpent id (new_challenge wallet message other m k).1.db
unfolding new_challenge store.challenge
new_challenge-IsSpent wallet message other id m k apart spent =
    elim (Result-cases (decode_address (str wallet))) [
      | inr (x, f) ↦ ground (arith, f)
      | inl (raw, f) ↦
          let row = challenge_row wallet (message other) other m.now in
          let added = any-snoc (is_challenge id) k.db.challenges row spent apart in
          ground (arith, f, added)
    ]

-- What may happen after a sign-in: challenges with other ids, sign-ins with any id, the throttle of
-- any route, and every operation that leaves the table of challenges.
pub data Later (host : Host) (signed : String → String → String → Bool) (id : String) (k : Keeper)
    : Keeper → Type 0 where
  here : Later host signed id k k
  challenged :
      {mid : Keeper}
      → (ip wallet : String) (message : String → String) (other : String) (m : Moment)
      → str_eq other id ≡ false
      → Later host signed id k mid
      → Later host signed id k (challenge host ip wallet message other m mid).1
  verified :
      {mid : Keeper}
      → (ip other signature token : String) (m : Moment) → Later host signed id k mid
      → Later host signed id k (verify host signed ip other signature token m mid).1
  throttled :
      {mid : Keeper}
      → (bucket : String) (limit seconds now monotonic : ℕ) → Later host signed id k mid
      → Later host signed id k (throttle bucket limit seconds now monotonic mid).1
  elsewhere :
      {mid last : Keeper}
      → last.db.challenges ≡ mid.db.challenges
      → Later host signed id k mid
      → Later host signed id k last

pub Later-IsSpent :
    {host : Host} {signed : String → String → String → Bool} {id : String} {k k' : Keeper}
    → IsSpent id k.db
    → Later host signed id k k'
    → IsSpent id k'.db
unfolding challenge verify
Later-IsSpent spent here = spent
Later-IsSpent {host = host} {id = id} spent
      (challenged {mid = mid} ip wallet message other m apart r) =
    limited-IsSpent host "challenge" ip id 20 m mid (new_challenge wallet message other m)
      (λ k s. new_challenge-IsSpent wallet message other id m k apart s) (Later-IsSpent spent r)
Later-IsSpent {host = host} {signed = signed} {id = id} spent
      (verified {mid = mid} ip other signature token m r) =
    limited-IsSpent host "verify" ip id 30 m mid
      (verify_challenge host signed other signature token m)
      (λ k s. verify_challenge-IsSpent host signed other id signature token m k s)
      (Later-IsSpent spent r)
Later-IsSpent {id = id} spent (throttled {mid = mid} bucket limit seconds now monotonic r) =
    throttle-IsSpent bucket id limit seconds now monotonic mid (Later-IsSpent spent r)
Later-IsSpent {id = id} spent (elsewhere same r) =
    ap (any (is_challenge id)) same ∙ Later-IsSpent spent r
