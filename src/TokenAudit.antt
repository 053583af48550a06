-- ===== src/TokenAudit.antt =====
-- Read-only evidence about the token's mint (gridraft/token_audit.py): the readers of chain responses,
-- the mint snapshot and the finality of a transaction. The RPC (SolanaRPC of gridraft/integrations.py)
-- is a record of its answers.
pub mod Receipt
pub mod Listed
pub mod Ledger
pub mod Summed
pub mod Recorded
pub mod Amounts
pub mod Verified
use Prim.Native.String.{◌++◌ as ◌++ₛ◌}
use slipvolt.Base.{
  ℕ, ◌^◌, ◌-◌, String, Bool, true, false, not, ◌&&◌, ◌||◌, Option, none, some, List, [], ◌∷◌, ltb,
  leb, ◌==◌, if◌then◌else◌, str_eq, any,
}
use slipvolt.Base.Int.{ℤ, pos}
use slipvolt.Base.Result.{Result, ok, err, value_error, type_error, ◌>>=◌, ◌>>◌, raise_if}
use slipvolt.Value.{
  Value, Fields, Items, null, bool, int, str, arr, obj, nil, cons, end, field, get?, get, items,
  is_null,
}
use slipvolt.Burn.{codes, is_whole, value_after, u64_max}
use slipvolt.Broker.{is_text}
use slipvolt.Address.{decode_address}
use slipvolt.Decimal.{decimal}

abbrev pub token_programs : List String
token_programs =
    "TokenkegQfeZyiNwAJbNbGKPFXCWuBvf9Ss623VQ5DA" ∷ "TokenzQdBNbLqP5VEhdkAS6EPFLC1PHnBqCXEpPxuEb"
    ∷ []

abbrev pub is_token_program : String → Bool
is_token_program program = any (str_eq program) token_programs

-- `_object(value, label)`
unfoldable pub object : Value → String → Result Fields
object (obj d) label = ok d
object _ label = err (value_error ("Missing or invalid " ++ₛ label))

-- `_integer(value, label, minimum, maximum)`
unfoldable pub labelled_integer : Value → String → ℕ → ℕ → Result ℕ
labelled_integer (int (pos n)) label minimum maximum =
    if leb minimum n && leb n maximum
    then ok n
    else err (value_error ("Missing or invalid " ++ₛ label))
labelled_integer _ label minimum maximum = err (value_error ("Missing or invalid " ++ₛ label))

-- The `re.fullmatch`, `int` and bounds of `_raw_amount`, on the codes of the text.
unfoldable pub raw_of_codes : List ℕ → Bool → Result ℕ
raw_of_codes cs positive = do
  raise_if (not (is_whole cs)) "Invalid raw token amount"
  let n = value_after 0 cs
  raise_if (ltb u64_max n || (positive && n == 0)) "Invalid raw token amount"
  ok n

-- `_raw_amount(value, positive)`
unfoldable pub raw_amount : Value → Bool → Result ℕ
raw_amount (str text) positive = raw_of_codes (codes text) positive
raw_amount _ positive = err (value_error "Invalid raw token amount")

-- `value is True`, `value is False`
abbrev pub is_bool : Bool → Value → Bool
is_bool b (bool true) = b
is_bool b (bool false) = not b
is_bool b _ = false

-- `type(value) is int and value == n`
abbrev pub is_number : ℕ → Value → Bool
is_number n (int (pos m)) = m == n
is_number n _ = false

-- `isinstance(value, str)`, else the error
unfoldable pub text : Value → String → Result String
text (str s) message = ok s
text _ message = err (value_error message)

-- `isinstance(value, list)`, else the error
unfoldable pub array : Value → String → Result (List Value)
array (arr vs) message = ok (items vs)
array _ message = err (value_error message)

-- The mint snapshot that `parse_mint` returns.
pub record MintState : Type 0 where
  pub mint : String
  pub token_program : String
  pub decimals : ℕ
  pub supply_raw : String
  pub slot : ℕ
  pub mint_authority : Value
  pub freeze_authority : Value

-- The token program that owns the account.
unfoldable pub mint_program : Fields → Result String
mint_program account = do
  program ← text (get "owner" account) "Unsupported mint account owner"
  raise_if (not (is_token_program program && is_bool false (get "executable" account)))
      "Unsupported mint account owner"
  ok program

-- One of the two authorities of the mint: an address, or None.
unfoldable pub authority_of : String → Fields → Result Value
authority_of key info = elim (get? key info) [
  | none ↦ err (value_error "Mint authority metadata is missing")
  | some null ↦ ok null
  | some value ↦ do raw ← decode_address value; ok value
]

-- The fields of an initialized mint.
unfoldable pub mint_info : Fields → Result Fields
mint_info account = do
  holder ← object (get "data" account) "mint data"
  parsed ← object (get "parsed" holder) "parsed mint"
  info ← object (get "info" parsed) "mint fields"
  raise_if (not (is_text "mint" (get "type" parsed) && is_bool true (get "isInitialized" info)))
      "Account is not an initialized mint"
  ok info

-- The slot of the response and the account in it.
unfoldable pub mint_account : Value → ℕ → Result (ℕ × Fields)
mint_account result min_slot = do
  d ← object result "mint response"
  context ← object (get "context" d) "mint context"
  slot ← labelled_integer (get "slot" context) "mint slot" 1 u64_max
  raise_if (ltb slot min_slot) "Mint snapshot predates the transaction"
  account ← object (get "value" d) "mint account"
  ok (slot, account)

-- The snapshot, from the checked account.
unfoldable pub mint_state : String → ℕ → ℕ → Fields → Result MintState
mint_state mint decimals slot account = do
  program ← mint_program account
  info ← mint_info account
  actual ← labelled_integer (get "decimals" info) "mint decimals" 0 18
  raise_if (not (actual == decimals)) "Configured decimals do not match the mint"
  supply ← raw_amount (get "supply" info) false
  minting ← authority_of "mintAuthority" info
  freezing ← authority_of "freezeAuthority" info
  ok (record {
    mint = mint;
    token_program = program;
    decimals = decimals;
    supply_raw = decimal supply;
    slot = slot;
    mint_authority = minting;
    freeze_authority = freezing;
  })

-- `parse_mint(result, mint, decimals, min_slot)`
unfoldable pub parse_mint : Value → String → ℕ → ℕ → Result MintState
parse_mint result mint decimals min_slot = do
  raw ← decode_address (str mint)
  raise_if (ltb 18 decimals) "Missing or invalid configured decimals"
  (slot, account) ← mint_account result min_slot
  mint_state mint decimals slot account

-- `isinstance(values, list) and len(values) == 1`
unfoldable pub only_item : Value → Result Value
only_item (arr (cons v nil)) = ok v
only_item _ = err (value_error "Signature status is unavailable")

-- `'err' not in d or d['err'] is not None`
abbrev pub has_failed : Fields → Bool
has_failed d = elim (get? "err" d) [ none ↦ true | some v ↦ not (is_null v) ]

-- `_finalized_slot(result)`
unfoldable pub finalized_slot : Value → Result ℕ
finalized_slot result = do
  d ← object result "signature status"
  value ← only_item (get "value" d)
  status ← object value "signature status"
  raise_if (not (is_text "finalized" (get "confirmationStatus" status)) || has_failed status)
      "Transaction is not successful and finalized"
  slot ← labelled_integer (get "slot" status) "transaction slot" 1 u64_max
  context ← object (get "context" d) "status context"
  context_slot ← labelled_integer (get "slot" context) "status context slot" 1 u64_max
  raise_if (ltb context_slot slot) "Inconsistent transaction finality"
  ok slot
