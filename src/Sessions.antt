-- ===== src/Sessions.antt =====
-- Sign-in challenges and sessions (gridraft/store.py). An operation is `Db → Result (A × Db)`; the
-- token that `secrets` draws is an argument.
pub mod Throttle
pub mod Kept
pub mod Signed
use Prim.Native.String.{◌++◌ as ◌++ₛ◌}
use slipvolt.Base.{
  ℕ, ◌+◌, ◌*◌, String, Bool, true, false, not, ◌&&◌, Option, none, some, List, [], ◌∷◌, ◌++◌, ltb,
  if◌then◌else◌, str_eq, any,
}
use slipvolt.Base.Result.{Result, ok, err, integrity_error, ◌>>=◌, ◌>>◌}
use slipvolt.Host.{Host}
use slipvolt.Db.{Db, Challenge, Session, second}
use slipvolt.Db.Sql.{find, count, delete}
use slipvolt.Prepaid.{ensure_account}
use slipvolt.Keys.{audit}

abbrev pub is_challenge : String → Challenge → Bool
is_challenge id c = str_eq c.id id

abbrev pub challenge_row : String → String → String → ℕ → Challenge
challenge_row wallet message id now = record {
  id = id;
  wallet = wallet;
  message = message;
  expires = now + 300 * second;
}

-- `challenge(wallet, message, challenge_id)`
unfoldable pub challenge : String → String → String → ℕ → Db → Result Db
challenge wallet message id now db =
    if any (is_challenge id) db.challenges
    then err integrity_error
    else ok (record db { challenges = db.challenges ++ challenge_row wallet message id now ∷ [] })

-- `if not row or row['expires'] < time.time(): return None`
abbrev pub unexpired : ℕ → Option Challenge → Option Challenge
unexpired now none = none
unexpired now (some c) = if ltb c.expires now then none else some c

-- `consume_challenge(challenge_id)`: the row goes even when it is too old.
unfoldable pub consume_challenge : String → ℕ → Db → Option Challenge × Db
consume_challenge id now db = (
  unexpired now (find (is_challenge id) db.challenges),
  record db { challenges = delete (is_challenge id) db.challenges },
)

abbrev pub has_hash : String → Session → Bool
has_hash hash s = str_eq s.hash hash

abbrev pub session_row : Host → String → String → ℕ → Session
session_row host wallet token now = record {
  hash = host.digest token;
  wallet = wallet;
  expires = now + 3600 * second;
}

-- INSERT INTO sessions, under its primary key
unfoldable pub insert_session : Session → Db → Result Db
insert_session row db =
    if any (has_hash row.hash) db.sessions
    then err integrity_error
    else ok (record db { sessions = db.sessions ++ row ∷ [] })

-- `new_session(wallet)`: the account stays when the INSERT fails, the two statements share no
-- transaction. An error here is a failure of `secrets`, and the caller gives no session.
unfoldable pub new_session : Host → String → String → ℕ → Db → Result (String × Db)
new_session host wallet token now db = do
  db' ← insert_session (session_row host wallet token now) (ensure_account wallet db)
  ok (token, db')

-- hash=? AND expires>?
abbrev pub live_session : Host → String → ℕ → Session → Bool
live_session host token now s = has_hash (host.digest token) s && ltb now s.expires

abbrev pub session_owner : Option Session → Option String
session_owner none = none
session_owner (some s) = some s.wallet

-- `session_wallet(token)`
unfoldable pub session_wallet : Host → String → ℕ → Db → Option String
session_wallet host token now db =
    if str_eq token "" then none else session_owner (find (live_session host token now) db.sessions)

-- `logout(token)`
unfoldable pub logout : Host → String → Db → Db
logout host token db = record db { sessions = delete (has_hash (host.digest token)) db.sessions }

abbrev pub session_of : String → Session → Bool
session_of wallet s = str_eq s.wallet wallet

-- `logout_all(wallet)`: the audit entry stands in the same transaction.
unfoldable pub logout_all : Host → String → ℕ → Db → Result (ℕ × Db)
logout_all host wallet now db = do
  let n = count (session_of wallet) db.sessions
  (_, db') ←
      audit host "wallet_sessions_revoked" wallet (host.decimal n ++ₛ " sessions") now
        (record db { sessions = delete (session_of wallet) db.sessions })
  ok (n, db')
