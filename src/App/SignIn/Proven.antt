-- ===== src/App/SignIn/Proven.antt =====
-- A session is opened for a wallet that signed its own challenge, and the challenge opens no second.
use Prim.Native.String.{◌++◌ as ◌++ₛ◌}
use slipvolt.Base.{
  ℕ, ◌+◌, ◌*◌, ◌≡◌, ◌≤◌, ◌≢◌, sym, ap, ◌∙◌, String, Bool, true, false, none, some, arith, ltb,
  if◌then◌else◌, any, inl, inr, Bool-cases, Option-cases,
}
use slipvolt.Base.Result.{ok, Result-cases}
use slipvolt.Host.{Host}
use slipvolt.Db.{Db, Challenge, second}
use slipvolt.Db.Sql.{find}
use slipvolt.Db.Keyed.{IsApart, same_key}
use slipvolt.Sessions.{is_challenge, consume_challenge, new_session, session_wallet}
use slipvolt.Sessions.Throttle.{Keeper, throttle}
use slipvolt.Sessions.Signed.{session_wallet-new_session}
use slipvolt.Sessions.Kept.{throttle-keeps_signed}
use slipvolt.App.Http.{granted}
use slipvolt.App.Ingress.{Moment, limited, with_db}
use mathlib.Core.Path.{subst}
use slipvolt.App.SignIn.Once.{
  IsSpent, new_session-IsSpent, consume_challenge-IsSpent, verify-refuses, Later, Later-IsSpent,
}
use slipvolt.App.SignIn.{verify, verify_challenge, open_session}

-- What a granted sign-in rests on and opens.
pub record IsProven (host : Host) (signed : String → String → String → Bool) (id signature : String)
    (m : Moment) (k : Keeper) (wallet token : String) (k' : Keeper) : Type 0 where
  pub asked : Challenge
  pub stored : find (is_challenge id) k.db.challenges ≡ some asked
  pub pending : m.now ≤ asked.expires
  pub own : asked.wallet ≡ wallet
  pub verified : signed asked.wallet asked.message signature ≡ true
  pub opens :
      (later : ℕ)
      → session_wallet host token later k'.db
        ≡ (if ltb later (m.now + 3600 * second) then some wallet else none)
  pub once :
      (last : Keeper)
      → Later host signed id k' last
      → (ip signature' token' : String) (m' : Moment) (opened : String × String)
      → (verify host signed ip id signature' token' m' last).0 ≢ granted opened

consume_challenge-found :
    (id : String) (now : ℕ) (db : Db) (c : Challenge)
    → (consume_challenge id now db).0 ≡ some c
    → (find (is_challenge id) db.challenges ≡ some c) × (now ≤ c.expires)
unfolding consume_challenge
consume_challenge-found id now db c e = elim (Option-cases (find (is_challenge id) db.challenges)) [
  | inl missing ↦ absurd (ground (arith, missing))
  | inr (d, found) ↦
      let kept : (ltb d.expires now ≡ false) × (d ≡ c) =
        (ground (arith, found), ground (arith, found)) in
      (found ∙ ap some kept.1, subst (λ x. now ≤ x.expires) kept.1 (ground (arith, kept.0)))
]

open_session-granted :
    (host : Host) (c : Challenge) (token : String) (m : Moment) (k k' : Keeper)
    (wallet out : String)
    → open_session host c token m k ≡ (granted (wallet, out), k')
    → (db : Db) × (new_session host c.wallet token m.now k.db ≡ ok (out, db))
      × (c.wallet ≡ wallet)
      × (k' ≡ with_db k db)
unfolding open_session
open_session-granted host c token m k k' wallet out e =
    elim (Result-cases (new_session host c.wallet token m.now k.db)) [
      | inl ((out', db), f) ↦
          let same : out' ≡ out = ground arith in
          (db, f ∙ ap (λ t. ok (t, db)) same, ground arith, ground arith)
      | inr (x, f) ↦ absurd (ground arith)
    ]

verify_challenge-granted :
    (host : Host) (signed : String → String → String → Bool) (id signature token : String)
    (m : Moment) (k k' : Keeper) (wallet out : String)
    → verify_challenge host signed id signature token m k ≡ (granted (wallet, out), k')
    → (c : Challenge) × ((consume_challenge id m.now k.db).0 ≡ some c)
      × (signed c.wallet c.message signature ≡ true)
      × (open_session host c token m (with_db k (consume_challenge id m.now k.db).1)
          ≡ (granted (wallet, out), k'))
unfolding verify_challenge
verify_challenge-granted host signed id signature token m k k' wallet out e =
    elim (Option-cases (consume_challenge id m.now k.db).0) [
      | inl f ↦ absurd (ground arith)
      | inr (c, f) ↦ elim (Bool-cases (signed c.wallet c.message signature)) [
        | inl good ↦ (c, f, good, ground arith)
        | inr bad ↦ absurd (ground arith)
      ]
    ]

-- A granted sign-in, where ids of challenges are unique and the drawn token is not empty: the id named
-- a challenge that was stored and had not expired, the signature verifies for its wallet and its
-- message, the session's token opens that wallet for an hour, and no request with the same id is
-- granted afterwards, whatever comes between, unless a new challenge is given that id.
pub verify-IsProven :
    (host : Host) (signed : String → String → String → Bool) (ip id signature token : String)
    (m : Moment) (k k' : Keeper) (wallet out : String)
    → IsApart (same_key (λ (c : Challenge). c.id)) k.db.challenges
    → token ≢ ""
    → verify host signed ip id signature token m k ≡ (granted (wallet, out), k')
    → IsProven host signed id signature m k wallet out k'
unfolding verify limited
verify-IsProven host signed ip id signature token m k k' wallet out keys drawn e =
    let bucket = host.digest ("verify" ++ₛ ip) in
    let after = throttle bucket 30 60 m.now m.monotonic k in
    elim (Bool-cases after.0) [
      | inr stopped ↦ absurd (ground arith)
      | inl admitted ↦
          let (c, found, good, opened) =
            verify_challenge-granted host signed id signature token m after.1 k' wallet out
              (ground arith) in
          let mid = with_db after.1 (consume_challenge id m.now after.1.db).1 in
          let (db, given, same, final) =
            open_session-granted host c token m mid k' wallet out opened in
          let spent = consume_challenge-IsSpent id m.now after.1.db in
          let left : IsSpent id k'.db =
            ap (λ (x : Keeper). any (is_challenge id) x.db.challenges) final
            ∙ new_session-IsSpent host c.wallet token out id m.now mid.db db given spent in
          let before =
            sym
              (throttle-keeps_signed host bucket token id 30 60 m.now m.monotonic m.now k
                (omega arith) keys).1
            ∙ found in
          record {
            asked = c;
            stored = (consume_challenge-found id m.now k.db c before).0;
            pending = (consume_challenge-found id m.now k.db c before).1;
            own = same;
            verified = good;
            opens = λ later.
                let session =
                  session_wallet-new_session host c.wallet token out m.now later mid.db db given
                    drawn in
                ap (λ (x : Keeper). session_wallet host out later x.db) final
                ∙ ap (λ t. session_wallet host t later db) session.0
                ∙ session.1
                ∙ ap (λ w. if ltb later (m.now + 3600 * second) then some w else none) same;
            once = λ last run ip' signature' token' m' other.
                verify-refuses host signed ip' id signature' token' m' last other
                  (Later-IsSpent left run);
          }
    ]
