-- ===== src/Sessions/Kept.antt =====
-- What housekeeping keeps: no test of the request path sees it.
use slipvolt.Base.{
  ℕ, zero, suc, ◌+◌, ◌*◌, ◌≤◌, ◌<◌, ◌≡◌, refl, sym, String, Bool, true, false, none, List, [], ◌∷◌,
  arith, ltb, if◌then◌else◌, eq_iff, any, Bool-cases, inl, inr,
}
use text.Mathlib.TextPositions.{eq_refl}
use slipvolt.Host.{Host}
use slipvolt.Db.{Db, RateHit, Challenge, Session, second}
use slipvolt.Db.Sql.{find, count, count-append, find-none}
use slipvolt.Db.Keyed.{IsApart, same_key}
use slipvolt.Sessions.{session_wallet, consume_challenge, live_session, is_challenge, unexpired}
use slipvolt.Sessions.Throttle.{
  Keeper, delete_some, housekeep, housekeeping_batch, is_due, hit_within, throttle,
}

module _ {ℓ} {A : Type ℓ} where
  -- Deleting rows that a test does not count leaves its count.
  pub count-delete_some :
      (n : ℕ) (q p : A → Bool) (xs : List A)
      → ((x : A) → p x ≡ true → q x ≡ false)
      → count q (delete_some n p xs) ≡ count q xs
  count-delete_some zero q p xs h = refl
  count-delete_some (suc n) q p [] h = refl
  count-delete_some (suc n) q p (x ∷ xs) h =
      ground (arith, h x, count-delete_some n q p xs h, count-delete_some (suc n) q p xs h)

  pub find-delete_some :
      (n : ℕ) (q p : A → Bool) (xs : List A)
      → ((x : A) → p x ≡ true → q x ≡ false)
      → find q (delete_some n p xs) ≡ find q xs
  find-delete_some zero q p xs h = refl
  find-delete_some (suc n) q p [] h = refl
  find-delete_some (suc n) q p (x ∷ xs) h =
      ground (arith, h x, find-delete_some n q p xs h, find-delete_some (suc n) q p xs h)

housekeep-hits :
    (bucket : String) (seconds now later : ℕ) (db : Db)
    → seconds ≤ 7200
    → now ≤ later
    → count (hit_within bucket seconds later) (housekeep now db).rate_hits
      ≡ count (hit_within bucket seconds later) db.rate_hits
unfolding housekeep
housekeep-hits bucket seconds now later db short order =
    count-delete_some housekeeping_batch (hit_within bucket seconds later)
      (λ (h : RateHit). ltb (h.created + 7200 * second) now) db.rate_hits (λ h e. ground arith)

-- What `throttle` answers and records, housekeeping or not: it admits the request exactly where fewer
-- than `limit` hits of the bucket lie in the window, and then the window holds one hit more, at most
-- `limit` in all. The window is at most the two hours that housekeeping keeps, and not empty.
pub throttle_effect :
    (bucket : String) (limit seconds now monotonic : ℕ) (k : Keeper)
    → seconds ≤ 7200
    → 0 < seconds
    → let before = count (hit_within bucket seconds now) k.db.rate_hits in
      let (allowed, k') = throttle bucket limit seconds now monotonic k in
      let after = count (hit_within bucket seconds now) k'.db.rate_hits in
      ((allowed ≡ ltb before limit)
        × (after ≡ (if allowed then suc before else before))
        × (allowed ≡ true → after ≤ limit))
unfolding throttle
throttle_effect bucket limit seconds now monotonic k short nonempty =
    let kept = housekeep-hits bucket seconds now now k.db short (omega arith) in
    let added = λ (hits : List RateHit).
      count-append (hit_within bucket seconds now) hits
        (record { bucket = bucket; created = now } ∷ []) in
    let mine = eq_refl bucket in
    elim (Bool-cases (is_due k.last_housekeeping monotonic)) [
      | inl e ↦ rw e (ground (arith, kept, added (housekeep now k.db).rate_hits, mine))
      | inr e ↦ rw e (ground (arith, added k.db.rate_hits, mine))
    ]

find-delete_some-none :
    (n : ℕ) (q p : Challenge → Bool) (xs : List Challenge)
    → any q xs ≡ false
    → find q (delete_some n p xs) ≡ none
find-delete_some-none zero q p xs h = find-none q xs h
find-delete_some-none (suc n) q p [] h = refl
find-delete_some-none (suc n) q p (x ∷ xs) h =
    ground (arith, find-delete_some-none n q p xs, find-delete_some-none (suc n) q p xs)

abbrev AreKeyed : List Challenge → Type 0
AreKeyed = IsApart (same_key (λ (c : Challenge). c.id))

none_behind :
    (id : String) (c : Challenge) (cs : List Challenge)
    → AreKeyed (c ∷ cs)
    → is_challenge id c ≡ true
    → any (is_challenge id) cs ≡ false
none_behind id c cs h e = rw (sym ((eq_iff c.id id).0 e)) h.0

unexpired-delete_some :
    (n : ℕ) (id : String) (now later : ℕ) (cs : List Challenge)
    → now ≤ later
    → AreKeyed cs
    → unexpired later
        (find (is_challenge id) (delete_some n (λ (c : Challenge). ltb c.expires now) cs))
      ≡ unexpired later (find (is_challenge id) cs)
unexpired-delete_some zero id now later cs order h = refl
unexpired-delete_some (suc n) id now later [] order h = refl
unexpired-delete_some (suc n) id now later (c ∷ cs) order h =
    let old = λ (c : Challenge). ltb c.expires now in
    let gone = find-delete_some-none n (is_challenge id) old cs in
    ground (
      arith,
      none_behind id c cs h,
      gone,
      unexpired-delete_some n id now later cs order h.1,
      unexpired-delete_some (suc n) id now later cs order h.1,
    )

-- A sign-in at the moment when `throttle` runs, or later, finds what it would find without the
-- housekeeping: the session of a token, and, ids being unique, the challenge that it consumes.
pub throttle-keeps_signed :
    (host : Host) (bucket token id : String) (limit seconds now monotonic later : ℕ) (k : Keeper)
    → now ≤ later
    → IsApart (same_key (λ (c : Challenge). c.id)) k.db.challenges
    → let db' = (throttle bucket limit seconds now monotonic k).1.db in
      ((session_wallet host token later db' ≡ session_wallet host token later k.db)
        × ((consume_challenge id later db').0 ≡ (consume_challenge id later k.db).0))
unfolding throttle session_wallet consume_challenge housekeep
throttle-keeps_signed host bucket token id limit seconds now monotonic later k order keys =
    let sessions =
      find-delete_some housekeeping_batch (live_session host token later)
        (λ (s : Session). ltb s.expires now) k.db.sessions (λ s e. ground arith) in
    let challenges =
      unexpired-delete_some housekeeping_batch id now later k.db.challenges order keys in
    (ground (arith, sessions), ground (arith, challenges))
