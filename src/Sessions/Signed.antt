-- ===== src/Sessions/Signed.antt =====
-- Sign-in, one step after the other: challenges are used once, sessions end.
use slipvolt.Base.{
  ℕ, ◌+◌, ◌*◌, ◌≡◌, ◌≢◌, refl, String, Bool, true, false, none, some, List, [], ◌∷◌, ◌++◌, arith,
  ltb, leb, if◌then◌else◌, str_eq, eq_iff, any, Bool-cases, inl, inr,
}
use text.Mathlib.TextPositions.{eq_refl}
use slipvolt.Base.Result.{ok}
use slipvolt.Host.{Host}
use slipvolt.Db.{Db, Session, second}
use slipvolt.Db.Sql.{find, count, delete, find-snoc}
use slipvolt.Keys.{audit}
use slipvolt.Prepaid.{ensure_account}
use slipvolt.Sessions.{
  challenge, challenge_row, consume_challenge, is_challenge, has_hash, session_row, insert_session,
  new_session, live_session, session_owner, session_wallet, logout, session_of, logout_all,
}

module _ {ℓ} {A : Type ℓ} where
  find-delete-none : (p : A → Bool) (xs : List A) → find p (delete p xs) ≡ none
  find-delete-none p [] = refl
  find-delete-none p (x ∷ xs) = ground (arith, find-delete-none p xs)

  -- Where every row that `q` finds is deleted by `p`, nothing is found.
  find-delete_within :
      (q p : A → Bool) (xs : List A)
      → ((x : A) → q x ≡ true → p x ≡ true)
      → find q (delete p xs) ≡ none
  find-delete_within q p [] h = refl
  find-delete_within q p (x ∷ xs) h = ground (arith, find-delete_within q p xs h, h x)

  -- Where none is, the search is as before.
  find-delete_other :
      (q p : A → Bool) (xs : List A)
      → ((x : A) → q x ≡ true → p x ≡ false)
      → find q (delete p xs) ≡ find q xs
  find-delete_other q p [] h = refl
  find-delete_other q p (x ∷ xs) h = ground (arith, find-delete_other q p xs h, h x)

-- A challenge is consumed once: with its wallet and message within five minutes, not later, and by no
-- second call.
pub consume_challenge-challenge :
    (wallet message id : String) (now later last : ℕ) (db db' : Db)
    → challenge wallet message id now db ≡ ok db'
    → let (row, db'') = consume_challenge id later db' in
      ((row ≡ (
          if leb later (now + 300 * second)
          then some (challenge_row wallet message id now)
          else none))
        × ((consume_challenge id last db'').0 ≡ none))
unfolding challenge consume_challenge
consume_challenge-challenge wallet message id now later last db db' e =
    let row = challenge_row wallet message id now in
    let rows : db'.challenges ≡ db.challenges ++ row ∷ [] = ground arith in
    let free : any (is_challenge id) db.challenges ≡ false = ground arith in
    (
      rw (rows, find-snoc (is_challenge id) db.challenges row free) (ground (arith, eq_refl id)),
      rw (find-delete-none (is_challenge id) db'.challenges) refl,
    )

never_live :
    (host : Host) (token : String) (later : ℕ) (ss : List Session)
    → any (has_hash (host.digest token)) ss ≡ false
    → any (live_session host token later) ss ≡ false
never_live host token later [] h = refl
never_live host token later (s ∷ ss) h = ground (arith, never_live host token later ss)

-- A new session opens its wallet for one hour, by its token, and not after.
pub session_wallet-new_session :
    (host : Host) (wallet token out : String) (now later : ℕ) (db db' : Db)
    → new_session host wallet token now db ≡ ok (out, db')
    → token ≢ ""
    → (out ≡ token)
      × (session_wallet host token later db'
          ≡ (if ltb later (now + 3600 * second) then some wallet else none))
unfolding new_session insert_session session_wallet ensure_account
session_wallet-new_session host wallet token out now later db db' e given =
    let row = session_row host wallet token now in
    let rows : db'.sessions ≡ db.sessions ++ row ∷ [] = ground arith in
    let free : any (has_hash (host.digest token)) db.sessions ≡ false = ground arith in
    let unseen = never_live host token later db.sessions free in
    (
      ground arith,
      rw (rows, find-snoc (live_session host token later) db.sessions row unseen)
          (ground (arith, eq_refl (host.digest token), eq_iff token "")),
    )

-- After `logout` the token opens nothing; a token of another digest opens what it opened.
pub session_wallet-logout :
    (host : Host) (token other : String) (now : ℕ) (db : Db)
    → (session_wallet host token now (logout host token db) ≡ none)
      × (host.digest token ≢ host.digest other
          → session_wallet host other now (logout host token db) ≡ session_wallet host other now db)
unfolding session_wallet logout
session_wallet-logout host token other now db = (
  ground (
    arith,
    find-delete_within (live_session host token now) (has_hash (host.digest token)) db.sessions
        (λ s e. ground arith),
  ),
  λ ne.
      let same =
        find-delete_other (live_session host other now) (has_hash (host.digest token)) db.sessions
          (λ s e.
            ground (arith, eq_iff s.hash (host.digest token), eq_iff s.hash (host.digest other))) in
      ground (arith, same),
)

owners_left :
    (host : Host) (token wallet w : String) (now : ℕ) (ss : List Session)
    → session_owner (find (live_session host token now) (delete (session_of wallet) ss)) ≡ some w
    → str_eq w wallet ≡ false
owners_left host token wallet w now [] h = ground arith
owners_left host token wallet w now (s ∷ ss) h = elim (Bool-cases (session_of wallet s)) [
  | inl mine ↦ owners_left host token wallet w now ss (ground arith)
  | inr other ↦ elim (Bool-cases (live_session host token now s)) [
    | inl live ↦ ground arith
    | inr shut ↦ owners_left host token wallet w now ss (ground arith)
  ]
]

others_left :
    (wallet other : String) (ss : List Session)
    → wallet ≢ other
    → count (session_of other) (delete (session_of wallet) ss) ≡ count (session_of other) ss
others_left wallet other [] ne = refl
others_left wallet other (s ∷ ss) ne =
    ground (arith, others_left wallet other ss ne, eq_iff s.wallet wallet, eq_iff s.wallet other)

-- `logout_all` counts the sessions of the wallet, no token opens the wallet after it, and every other
-- wallet has as many sessions as before.
pub logout_all_effect :
    (host : Host) (wallet : String) (now : ℕ) (db db' : Db) (n : ℕ)
    → logout_all host wallet now db ≡ ok (n, db')
    → (n ≡ count (session_of wallet) db.sessions)
      × ((token : String) (later : ℕ) → session_wallet host token later db' ≢ some wallet)
      × ((other : String)
          → wallet ≢ other
          → count (session_of other) db'.sessions ≡ count (session_of other) db.sessions)
unfolding logout_all audit session_wallet
logout_all_effect host wallet now db db' n e =
    let rows : db'.sessions ≡ delete (session_of wallet) db.sessions = ground arith in
    (
      ground arith,
      λ token later opened. absurd (
          ground (
            arith,
            owners_left host token wallet wallet later db.sessions,
            rows,
            eq_refl wallet,
            opened,
          )),
      λ other ne. rw rows (others_left wallet other db.sessions ne),
    )
