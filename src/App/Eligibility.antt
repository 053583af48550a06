-- ===== src/App/Eligibility.antt =====
-- Whether a wallet may use the service (gridraft/app.py, `eligibility`): in the modes that ask for a
-- holding, the sum of the wallet's finalized token accounts. The answers of SolanaRPC are arguments.
pub mod Counted
use slipvolt.Base.{
  ℕ, ◌+◌, ◌^◌, ◌-◌, String, Bool, true, false, not, ◌&&◌, ◌||◌, Option, none, some, List, [], ◌∷◌,
  ltb, leb, ◌==◌, if◌then◌else◌, str_eq, any, length,
}
use slipvolt.Base.Int.{pos}
use slipvolt.Base.Result.{Result, ok, err, value_error, type_error, ◌>>=◌, ◌>>◌, raise_if}
use slipvolt.Value.{Value, Fields, int, str, arr, obj, get, items}
use slipvolt.Burn.{u64_max}
use slipvolt.Broker.{is_text}
use slipvolt.Usage.{item}
use slipvolt.Address.{decode_address}
use slipvolt.TokenAudit.{is_token_program, is_number, object, text, raw_amount, labelled_integer}
use slipvolt.App.Http.{Http, refused, granted, or_status}

-- ACCESS_MODE
pub data Mode : Type 0 where
  holder_allowance holder prepaid : Mode

pub record Site : Type 0 where
  pub mode : Mode
  pub production : Bool
  pub holder_mint : String
  pub holder_token_decimals : ℕ
  pub min_holding_raw : ℕ

-- What the routes read of the dict.
pub record Standing : Type 0 where
  pub eligible : Bool
  pub holding : Option ℕ
  pub slot : Option ℕ
  pub requires_funded_credit : Bool

-- `value[key]`: a TypeError where the value is no dict
unfoldable pub entry : String → Value → Result Value
entry key (obj d) = item key d
entry key v = err type_error

-- `account['owner'] not in (...)`
abbrev pub is_token_owner : Value → Bool
is_token_owner (str program) = is_token_program program
is_token_owner _ = false

-- `info['mint'] != ... or info['owner'] != wallet`
unfoldable pub check_holder : Site → String → Value → Result (Unit {0})
check_holder site wallet info = do
  mint ← entry "mint" info
  owner ← entry "owner" info
  raise_if (not (is_text site.holder_mint mint && is_text wallet owner)) "Balance mismatch"

-- `d.get(key)`: an AttributeError where the value is no dict
unfoldable pub lookup : String → Value → Result Value
lookup key (obj d) = ok (get key d)
lookup key v = err type_error

-- The raw balance of the account, as text.
unfoldable pub account_amount : Site → Value → Result ℕ
account_amount site info = do
  token ← entry "tokenAmount" info
  amount ← entry "amount" token
  decimals ← lookup "decimals" token
  raise_if (not (is_number site.holder_token_decimals decimals))
      "Configured mint decimals do not match the chain"
  raw_amount amount false

-- `account['data']['parsed']['info']` of a token account
unfoldable pub account_info : Value → Result Value
account_info account = do
  owner ← entry "owner" account
  raise_if (not (is_token_owner owner)) "Unexpected token program"
  held ← entry "data" account
  parsed ← entry "parsed" held
  entry "info" parsed

-- What the account adds to the total.
unfoldable pub counted_amount : Site → String → Value → Result ℕ
counted_amount site wallet account = do
  info ← account_info account
  check_holder site wallet info
  raw ← account_amount site info
  state ← lookup "state" info
  ok (if is_text "initialized" state then raw else 0)

-- The address of the entry, which no earlier entry has.
unfoldable pub fresh_address : List String → Value → Result String
fresh_address seen v = do
  named ← entry "pubkey" v
  raw ← decode_address named
  address ← text named "Invalid Solana address"
  raise_if (any (str_eq address) seen) "Duplicate token account"
  ok address

-- The loop over the accounts.
unfoldable pub token_total : Site → String → List String → ℕ → List Value → Result ℕ
token_total site wallet seen total [] = ok total
token_total site wallet seen total (v ∷ accounts) = do
  address ← fresh_address seen v
  account ← entry "account" v
  amount ← counted_amount site wallet account
  raise_if (ltb u64_max (total + amount)) "Invalid total balance"
  token_total site wallet (address ∷ seen) (total + amount) accounts

-- `isinstance(result, dict) and isinstance(result.get('value'), list) and len(...) <= 10000`
unfoldable pub listed_accounts : Value → Result (List Value)
listed_accounts (arr accounts) = do
  raise_if (ltb 10000 (length (items accounts))) "Unexpected token accounts response"
  ok (items accounts)
listed_accounts _ = err (value_error "Unexpected token accounts response")

-- The holding and the slot of the RPC's answer.
unfoldable pub holding_of : Site → String → Fields → Result (ℕ × ℕ)
holding_of site wallet result = do
  accounts ← listed_accounts (get "value" result)
  context ← item "context" result
  at ← entry "slot" context
  slot ← labelled_integer at "finalized slot" 1 u64_max
  total ← token_total site wallet [] 0 accounts
  ok (total, slot)

-- `if settings.production: await rpc.ensure_mainnet()`
abbrev pub verified_network : Bool → Result (Unit {0}) → Result (Unit {0})
verified_network true mainnet = mainnet
verified_network false mainnet = ok tt

-- The body of the `try`.
unfoldable pub finalized_holding : Site → String → Result (Unit {0}) → Result Value → Result (ℕ × ℕ)
finalized_holding site wallet mainnet answer = do
  verified_network site.production mainnet
  result ← answer
  d ← object result "token accounts"
  holding_of site wallet d

abbrev pub is_allowance : Mode → Bool
is_allowance Mode.holder_allowance = true
is_allowance _ = false

abbrev pub standing_of : Site → ℕ × ℕ → Standing
standing_of site (total, slot) = record {
  eligible = leb site.min_holding_raw total;
  holding = some total;
  slot = some slot;
  requires_funded_credit = not (is_allowance site.mode);
}

-- No token is configured, or none is asked for.
abbrev pub unchecked : Bool → Standing
unchecked prepaid_mode = record {
  eligible = prepaid_mode;
  holding = none;
  slot = none;
  requires_funded_credit = prepaid_mode;
}

-- The standing where no holding is looked up.
unfoldable pub without_lookup : Site → Option Standing
without_lookup site = elim site.mode [
  | Mode.holder_allowance ↦ if str_eq site.holder_mint "" then some (unchecked false) else none
  | Mode.holder ↦ none
  | Mode.prepaid ↦ some (unchecked true)
]

-- `eligibility(wallet)`: any exception closes access.
unfoldable pub eligibility : Site → String → Result (Unit {0}) → Result Value → Http Standing
eligibility site wallet mainnet answer = elim (without_lookup site) [
  | some standing ↦ granted standing
  | none ↦ elim (finalized_holding site wallet mainnet answer) [
    | ok found ↦ granted (standing_of site found)
    | err e ↦ refused 503
  ]
]
