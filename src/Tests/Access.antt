-- ===== src/Tests/Access.antt =====
-- Sign-in, sessions and the rate limiter at concrete databases.
use slipvolt.Base.{
  ℕ, suc, ◌≤◌, ◌≡◌, ◌≢◌, refl, String, true, none, some, [], ◌∷◌, arith, ltb, if◌then◌else◌,
}
use slipvolt.Base.Int.{pos}
use slipvolt.Base.Result.{ok}
use slipvolt.Db.{Db}
use slipvolt.Db.Sql.{count}
use slipvolt.Keys.{audit}
use slipvolt.Sessions.{challenge_row, session_row, session_wallet, session_of, logout, logout_all}
use slipvolt.Sessions.Throttle.{Keeper, throttle, hit_within}
use slipvolt.Sessions.Kept.{throttle_effect}
use slipvolt.Sessions.Signed.{session_wallet-logout, logout_all_effect}
use slipvolt.Tests.Holder.{host, empty, at_noon}

abbrev first_token : String
first_token = "t1"

abbrev second_token : String
second_token = "t2"

abbrev pub asked : Db
asked = record empty { challenges = challenge_row "w1" "Sign in" "c1" at_noon ∷ [] }

abbrev signed : Db
signed = record empty {
  accounts = record { wallet = "w1"; balance_nusd = pos 0 } ∷ [];
  sessions = session_row host "w1" "t1" at_noon ∷ [];
}

session_wallet-logout_example :
    (session_wallet host "t1" at_noon (logout host "t1" signed) ≡ none)
    × (first_token ≢ second_token
        → session_wallet host "t2" at_noon (logout host "t1" signed)
          ≡ session_wallet host "t2" at_noon signed)
session_wallet-logout_example = session_wallet-logout host "t1" "t2" at_noon signed

abbrev signed_out : Db
signed_out = record signed {
  sessions = [];
  admin_audit =
      record {
        action = "wallet_sessions_revoked";
        target = "w1";
        note = "0 sessions";
        created = at_noon;
      }
      ∷ [];
}

logout_all-signed : logout_all host "w1" at_noon signed ≡ ok (1, signed_out)
unfolding logout_all audit
logout_all-signed = refl

logout_all_effect_example :
    (1 ≡ count (session_of "w1") signed.sessions)
    × ((token : String) (later : ℕ) → session_wallet host token later signed_out ≢ some "w1")
    × ((other : String)
        → "w1" ≢ other
        → count (session_of other) signed_out.sessions ≡ count (session_of other) signed.sessions)
logout_all_effect_example =
    logout_all_effect host "w1" at_noon signed signed_out 1 logout_all-signed

abbrev keeper : Keeper
keeper = record {
  db = record signed {
    rate_hits = record { bucket = "api"; created = at_noon } ∷ [];
    challenges = challenge_row "w1" "Sign in" "c1" 0 ∷ [];
  };
  last_housekeeping = none;
}

throttle_effect_example :
    let before = count (hit_within "api" 60 at_noon) keeper.db.rate_hits in
    let (allowed, k') = throttle "api" 2 60 at_noon 5 keeper in
    let after = count (hit_within "api" 60 at_noon) k'.db.rate_hits in
    ((allowed ≡ ltb before 2)
      × (after ≡ (if allowed then suc before else before))
      × (allowed ≡ true → after ≤ 2))
throttle_effect_example = throttle_effect "api" 2 60 at_noon 5 keeper (omega arith) (omega arith)
