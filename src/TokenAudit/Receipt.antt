-- ===== src/TokenAudit/Receipt.antt =====
-- The receipt of a burn transaction (gridraft/token_audit.py, `parse_burn_receipt` and `TokenAuditor`):
-- the checks of the transaction, its list of instructions, and the burns among them.
use Prim.Native.String.{◌++◌ as ◌++ₛ◌}
use slipvolt.Base.{
  ℕ, suc, ◌+◌, ◌-◌, String, Bool, true, false, not, ◌&&◌, ◌||◌, Option, none, some, List, [], ◌∷◌,
  ◌++◌, ltb, leb, ◌==◌, if◌then◌else◌, str_eq, any, length,
}
use slipvolt.Base.Int.{pos}
use slipvolt.Base.Result.{Result, ok, err, value_error, ◌>>=◌, ◌>>◌, raise_if}
use slipvolt.Value.{
  Value, Fields, Items, null, int, str, arr, obj, nil, cons, end, field, get?, get, is_null,
}
use slipvolt.Burn.{u64_max}
use slipvolt.Broker.{is_text}
use slipvolt.Address.{decode_address, validate_signature}
use slipvolt.Decimal.{decimal}
use slipvolt.TokenAudit.{
  is_token_program, object, labelled_integer, raw_amount, is_number, text, array, MintState,
  parse_mint, has_failed, finalized_slot,
}

abbrev pub mainnet_genesis : String
mainnet_genesis = "5eykt4UsFv8P8NJdTREpY1vzqKqZKvdpKuc147dw2N9d"

-- `version != 'legacy' and not (type(version) is int and version == 0)`
abbrev pub is_supported : Value → Bool
is_supported version = is_text "legacy" version || is_number 0 version

-- `isinstance(signatures, list) and signatures and signatures[0] == signature`
abbrev pub is_signed_first : String → Value → Bool
is_signed_first signature (arr (cons v vs)) = is_text signature v
is_signed_first signature _ = false

-- The metadata and the message of a transaction that succeeded in the slot, read from a snapshot that
-- is not older.
unfoldable pub transaction_parts : Fields → ℕ → ℕ → String → Result (Fields × Fields)
transaction_parts result slot mint_slot signature = do
  raise_if (not (is_number slot (get "slot" result)))
      "Transaction and signature-status slots differ"
  raise_if (not (is_supported (get "version" result))) "Unsupported transaction version"
  raise_if (ltb mint_slot slot) "Mint snapshot predates the transaction"
  meta ← object (get "meta" result) "transaction metadata"
  raise_if (has_failed meta) "Transaction did not succeed"
  transaction ← object (get "transaction" result) "transaction payload"
  raise_if (not (is_signed_first signature (get "signatures" transaction)))
      "Transaction signature does not match the requested receipt"
  message ← object (get "message" transaction) "message"
  ok (meta, message)

-- `enumerate(rows)`, each row under its path
abbrev pub enumerate_from : ℕ → String → List Value → List (String × Value)
enumerate_from i prefix [] = []
enumerate_from i prefix (v ∷ vs) = (prefix ++ₛ decimal i, v) ∷ enumerate_from (suc i) prefix vs

-- The loop over the groups of inner instructions.
unfoldable pub inner_rows : ℕ → List ℕ → List Value → Result (List (String × Value))
inner_rows outer seen [] = ok []
inner_rows outer seen (g ∷ groups) = do
  group ← object g "inner instruction group"
  index ← labelled_integer (get "index" group) "inner parent" 0 (outer - 1)
  raise_if (any (λ i. i == index) seen) "Duplicate or invalid inner instruction group"
  rows ← array (get "instructions" group) "Duplicate or invalid inner instruction group"
  rest ← inner_rows outer (index ∷ seen) groups
  ok (enumerate_from 0 ("inner:" ++ₛ decimal index ++ₛ ":") rows ++ rest)

-- All instructions, the outer ones first.
unfoldable pub instruction_rows : Fields → Fields → Result (List (String × Value))
instruction_rows meta message = do
  outer ← array (get "instructions" message) "Complete instruction metadata is required"
  raise_if (not (leb 1 (length outer) && leb (length outer) 256))
      "Complete instruction metadata is required"
  groups ← array (get "innerInstructions" meta) "Complete instruction metadata is required"
  inner ← inner_rows (length outer) [] groups
  let rows = enumerate_from 0 "outer:" outer ++ inner
  raise_if (ltb 4096 (length rows)) "Too many instructions"
  ok rows

-- An entry of `events`.
pub record BurnEvent : Type 0 where
  pub path : String
  pub kind : String
  pub amount : ℕ
  pub source_account : Value
  pub authority : Value
  pub authority_kind : String

-- The one authority field that the burn has.
unfoldable pub burn_authority : Option Value → Option Value → Result (String × Value)
burn_authority (some v) none = ok ("authority", v)
burn_authority none (some v) = ok ("multisigAuthority", v)
burn_authority _ _ = err (value_error "Burn authority is unavailable or ambiguous")

-- The amount of a burn, which a checked one gives with its decimals.
unfoldable pub burn_amount : ℕ → Bool → Fields → Result ℕ
burn_amount decimals checked info =
    if checked
    then (do
      amount ← object (get "tokenAmount" info) "checked token amount"
      raise_if (not (is_number decimals (get "decimals" amount)))
          "Burn decimals do not match the mint"
      raw_amount (get "amount" amount) true)
    else raw_amount (get "amount" info) true

-- A burn of the mint.
unfoldable pub burn_event : MintState → String → String → Bool → Fields → Result BurnEvent
burn_event mint path program checked info = do
  raise_if (not (str_eq program mint.token_program)) "Burn program does not match the mint owner"
  raw_source ← decode_address (get "account" info)
  (kind, authority) ← burn_authority (get? "authority" info) (get? "multisigAuthority" info)
  raw_authority ← decode_address authority
  amount ← burn_amount mint.decimals checked info
  ok (record {
    path = path;
    kind = if checked then "burnChecked" else "burn";
    amount = amount;
    source_account = get "account" info;
    authority = authority;
    authority_kind = kind;
  })

-- A burn of another mint does not count.
unfoldable pub mint_event : MintState → String → String → Bool → Fields → Result (Option BurnEvent)
mint_event mint path program checked info =
    if is_text mint.mint (get "mint" info)
    then (do event ← burn_event mint path program checked info; ok (some event))
    else ok none

-- `kind in ('burn', 'burnChecked')`
abbrev pub is_burn : Value → Bool
is_burn kind = is_text "burn" kind || is_text "burnChecked" kind

-- A parsed instruction of a token program: a burn of the mint, or nothing that counts.
unfoldable pub parsed_event : MintState → String → String → Fields → Result (Option BurnEvent)
parsed_event mint path program parsed =
    if is_burn (get "type" parsed)
    then (do
      info ← object (get "info" parsed) "burn fields"
      mint_event mint path program (is_text "burnChecked" (get "type" parsed)) info)
    else ok none

-- An instruction of another program does not count.
unfoldable pub program_event : MintState → String → String → Fields → Result (Option BurnEvent)
program_event mint path program d =
    if is_token_program program
    then (do
      parsed ← object (get "parsed" d) "parsed token instruction"
      parsed_event mint path program parsed)
    else ok none

-- The body of the loop over the instructions.
unfoldable pub instruction_event : MintState → String → Value → Result (Option BurnEvent)
instruction_event mint path instruction = do
  d ← object instruction "instruction"
  program ← text (get "programId" d) "Invalid instruction program"
  program_event mint path program d

abbrev pub add_event : Option BurnEvent → List BurnEvent → List BurnEvent
add_event none events = events
add_event (some event) events = event ∷ events

-- The loop over the instructions.
unfoldable pub burn_events : MintState → List (String × Value) → Result (List BurnEvent)
burn_events mint [] = ok []
burn_events mint ((path, instruction) ∷ rows) = do
  event ← instruction_event mint path instruction
  rest ← burn_events mint rows
  ok (add_event event rest)

-- `sum(int(v['amount_raw']) for v in events)`
abbrev pub burned : List BurnEvent → ℕ
burned [] = 0
burned (event ∷ events) = event.amount + burned events

abbrev pub event_value : BurnEvent → Value
event_value event = obj (
    field "path" (str event.path) (
      field "kind" (str event.kind) (
        field "amount_raw" (str (decimal event.amount)) (
          field "source_account" event.source_account (
            field "authority" event.authority
              (field "authority_kind" (str event.authority_kind) end))))))

abbrev pub event_values : List BurnEvent → Items
event_values [] = nil
event_values (event ∷ events) = cons (event_value event) (event_values events)

-- The dict that `parse_burn_receipt` returns.
abbrev pub receipt_fields : MintState → String → ℕ → Value → List BurnEvent → Fields
receipt_fields mint signature slot block_time events = field "genesis_hash" (str mainnet_genesis) (
    field "signature" (str signature) (
      field "mint" (str mint.mint) (
        field "token_program" (str mint.token_program) (
          field "decimals" (int (pos mint.decimals)) (
            field "slot" (int (pos slot)) (
              field "block_time" block_time (
                field "burned_raw" (str (decimal (burned events))) (
                  field "events" (arr (event_values events)) (
                    field "scope" (str "tracked_gross_burns")
                      (field "net_supply_change_raw" null end))))))))))

-- `if block_time is not None: _integer(block_time, 'block time')`
unfoldable pub checked_time : Value → Result Value
checked_time null = ok null
checked_time value = do n ← labelled_integer value "block time" 0 u64_max; ok value

-- `if not events: raise ...`
abbrev pub is_empty : List BurnEvent → Bool
is_empty [] = true
is_empty (event ∷ events) = false

-- The events of a transaction of this slot.
unfoldable pub receipt_events : MintState → ℕ → String → Fields → Result (List BurnEvent)
receipt_events mint slot signature result = do
  (meta, message) ← transaction_parts result slot mint.slot signature
  rows ← instruction_rows meta message
  events ← burn_events mint rows
  raise_if (is_empty events) "No supported burn of the configured mint was found"
  ok events

-- `parse_burn_receipt(result, status, mint_state, signature)`
unfoldable pub parse_burn_receipt : Value → Value → MintState → String → Result Fields
parse_burn_receipt result status mint signature = do
  checked ← validate_signature (str signature)
  slot ← finalized_slot status
  d ← object result "transaction"
  events ← receipt_events mint slot signature d
  block_time ← checked_time (get "blockTime" d)
  ok (receipt_fields mint signature slot block_time events)

-- What the auditor asks of SolanaRPC: `ensure_mainnet`, and `call` by method.
pub record Rpc : Type 0 where
  pub ensure_mainnet : Result (Unit {0})
  pub statuses : String → Result Value
  pub transaction : String → Result Value
  pub account_info : String → ℕ → Result Value

-- `TokenAuditor.snapshot(min_slot)`
unfoldable pub mint_snapshot : Rpc → String → ℕ → ℕ → Result MintState
mint_snapshot rpc mint decimals min_slot = do
  rpc.ensure_mainnet
  result ← rpc.account_info mint min_slot
  parse_mint result mint decimals min_slot

-- `TokenAuditor.verify(signature)`
unfoldable pub verify : Rpc → String → ℕ → String → Result Fields
verify rpc mint decimals signature = do
  checked ← validate_signature (str signature)
  rpc.ensure_mainnet
  status ← rpc.statuses signature
  slot ← finalized_slot status
  result ← rpc.transaction signature
  raise_if (is_null result) "Finalized transaction history is unavailable from this RPC"
  state ← mint_snapshot rpc mint decimals slot
  parse_burn_receipt result status state signature
