-- ===== src/Keys.antt =====
-- API keys, the audit trail and the wallets' policies (gridraft/store.py). An operation is
-- `Db → Result (A × Db)` as in Prepaid.antt. The ids and tokens that `uuid4` and `secrets` draw are
-- arguments.
pub mod Active
use Prim.Native.String.{[] as empty_text, ◌∷◌ as ◌∷ₛ◌, ◌++◌ as ◌++ₛ◌}
use text.Mathlib.Text.{starts_with}
use slipvolt.Base.{
  ℕ, zero, suc, ◌+◌, String, Bool, true, false, not, ◌&&◌, ◌||◌, Option, none, some, List, [], ◌∷◌,
  ◌++◌, ltb, leb, if◌then◌else◌, str_eq, any,
}
use slipvolt.Base.Int.{pos}
use slipvolt.Base.Result.{Result, ok, err, integrity_error, ◌>>=◌, ◌>>◌, raise_if}
use slipvolt.Host.{Host, len}
use slipvolt.Db.{Db, ApiKey, Audit}
use slipvolt.Db.Sql.{find, count, update}

-- `len(value)>maximum or not value.isprintable()`
abbrev pub unprintable : Host → String → ℕ → Bool
unprintable host value maximum = ltb maximum (len value) || not (host.is_printable value)

-- `audit(action, target, note)`
unfoldable pub audit : Host → String → String → String → ℕ → Db → Result (Unit {0} × Db)
audit host action target note now db = do
  raise_if (unprintable host action 80) "Invalid audit action"
  raise_if (unprintable host target 200) "Invalid audit target"
  raise_if (unprintable host note 500) "Invalid audit note"
  raise_if (str_eq action "") "Invalid audit action"
  let row : Audit = record { action = action; target = target; note = note; created = now }
  ok (tt, record db { admin_audit = db.admin_audit ++ row ∷ [] })

-- wallet=? AND revoked=0
abbrev pub is_active : String → ApiKey → Bool
is_active wallet k = str_eq k.wallet wallet && not k.revoked

-- raw[:12]
abbrev pub take_text : ℕ → String → String
take_text zero s = empty_text
take_text (suc n) empty_text = empty_text
take_text (suc n) (c ∷ₛ s) = c ∷ₛ take_text n s

abbrev pub raw_of : String → String
raw_of token = "sv_" ++ₛ token

abbrev pub key_row : Host → String → String → ℕ → String → String → ℕ → ApiKey
key_row host wallet name limit token id now = record {
  id = id;
  wallet = wallet;
  hash = host.digest (raw_of token);
  prefix = take_text 12 (raw_of token);
  name = name;
  limit_nusd = limit;
  spent_nusd = pos 0;
  revoked = false;
  created = now;
}

-- The row under PRIMARY KEY(id) and UNIQUE(hash)
abbrev pub clashes : ApiKey → ApiKey → Bool
clashes row k = str_eq k.id row.id || str_eq k.hash row.hash

-- INSERT INTO api_keys
unfoldable pub insert_key : ApiKey → Db → Result Db
insert_key row db =
    if any (clashes row) db.api_keys
    then err integrity_error
    else ok (record db { api_keys = db.api_keys ++ row ∷ [] })

-- `issue_key(wallet, name, limit_nusd)`: the raw key
unfoldable pub issue_key :
    Host → String → String → ℕ → String → String → ℕ → Db → Result (String × Db)
issue_key host wallet name limit token id now db = do
  raise_if (leb 10 (count (is_active wallet) db.api_keys)) "Maximum 10 active keys per wallet"
  db' ← insert_key (key_row host wallet name limit token id now) db
  ok (raw_of token, db')

-- hash=? AND revoked=0
abbrev pub opens : Host → String → ApiKey → Bool
opens host raw k = str_eq k.hash (host.digest raw) && not k.revoked

-- `not raw or not raw.startswith(('sv_','grd_')) or len(raw)>100`
abbrev pub malformed : String → Bool
malformed raw =
    str_eq raw "" || not (starts_with raw "sv_" || starts_with raw "grd_") || ltb 100 (len raw)

-- `lookup_key(raw)`
unfoldable pub lookup_key : Host → String → Db → Option ApiKey
lookup_key host raw db = if malformed raw then none else find (opens host raw) db.api_keys

abbrev pub revoke_row : ApiKey → ApiKey
revoke_row k = record k { revoked = true }

-- id=? AND wallet=?
abbrev pub owned : String → String → ApiKey → Bool
owned id wallet k = str_eq k.id id && str_eq k.wallet wallet

-- `revoke(key_id, wallet)`: `rowcount > 0`
unfoldable pub revoke : String → String → Db → Bool × Db
revoke id wallet db = (
  any (owned id wallet) db.api_keys,
  record db { api_keys = update (owned id wallet) revoke_row db.api_keys },
)

-- `revoke_all_keys(wallet)`: the audit entry stands in the same transaction.
unfoldable pub revoke_all_keys : Host → String → ℕ → Db → Result (ℕ × Db)
revoke_all_keys host wallet now db = do
  let n = count (is_active wallet) db.api_keys
  (_, db') ←
      audit host "wallet_keys_revoked" wallet (host.decimal n ++ₛ " keys") now
        (record db { api_keys = update (is_active wallet) revoke_row db.api_keys })
  ok (n, db')
