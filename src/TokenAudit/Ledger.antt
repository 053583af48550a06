-- ===== src/TokenAudit/Ledger.antt =====
-- The local evidence of burns (gridraft/token_audit.py, `BurnLedger`). `json.dumps` and the reading of
-- a stored receipt are arguments. The list of recent receipts of `summary` is left out.
use slipvolt.Base.{
  ℕ, ◌+◌, ◌^◌, String, Bool, true, false, not, ◌&&◌, ◌||◌, Option, none, some, List, [], ◌∷◌, ◌++◌,
  ltb, ◌==◌, if◌then◌else◌, str_eq, any, length,
}
use slipvolt.Base.Result.{Result, ok, err, type_error, ◌>>=◌, ◌>>◌, raise_if}
use slipvolt.Value.{Value, Fields, int, str, arr, obj, get, is_null}
use slipvolt.Base.Int.{pos, negsuc}
use slipvolt.Burn.{codes, value_after}
use slipvolt.Broker.{is_text}
use slipvolt.Usage.{item}
use slipvolt.Db.Sql.{find, select, sum}
use slipvolt.Address.{decode_address, validate_signature}
use slipvolt.Decimal.{decimal}
use slipvolt.TokenAudit.{raw_amount, text, array}
use slipvolt.TokenAudit.Receipt.{mainnet_genesis}

-- A row of `token_burn_receipts`.
pub record BurnRow : Type 0 where
  pub genesis_hash : String
  pub signature : String
  pub mint : String
  pub burned_raw : String
  pub event_count : ℕ
  pub slot : Value
  pub evidence : String
  pub checked_at : ℕ

-- genesis_hash=? AND signature=? AND mint=?
abbrev pub has_key : String → String → BurnRow → Bool
has_key signature mint row =
    str_eq row.genesis_hash mainnet_genesis
    && str_eq row.signature signature
    && str_eq row.mint mint

-- `sum(_raw_amount(v.get('amount_raw'), positive=True) for v in events)`
unfoldable pub total_amount : List Value → Result ℕ
total_amount [] = ok 0
total_amount (obj d ∷ events) = do
  n ← raw_amount (get "amount_raw" d) true
  rest ← total_amount events
  ok (n + rest)
total_amount (_ ∷ events) = err type_error

-- What the guards of `record` read.
pub record Evidence : Type 0 where
  pub signature : String
  pub mint : String
  pub total : ℕ
  pub event_count : ℕ
  pub slot : Value
  pub text : String

abbrev pub burn_row : Evidence → ℕ → BurnRow
burn_row e now = record {
  genesis_hash = mainnet_genesis;
  signature = e.signature;
  mint = e.mint;
  burned_raw = decimal e.total;
  event_count = e.event_count;
  slot = e.slot;
  evidence = e.text;
  checked_at = now;
}

-- The guards of `record`.
unfoldable pub checked_evidence : (Fields → String) → Fields → Result Evidence
checked_evidence dumps receipt = do
  raise_if (not (is_text mainnet_genesis (get "genesis_hash" receipt)))
      "Only verified mainnet receipts can be recorded"
  signature ← validate_signature (get "signature" receipt)
  raw ← decode_address (get "mint" receipt)
  mint ← text (get "mint" receipt) "Invalid Solana address"
  events ← array (get "events" receipt) "Missing burn evidence"
  raise_if (length events == 0 || ltb 4096 (length events)) "Missing burn evidence"
  total ← total_amount events
  raise_if (not (is_text (decimal total) (get "burned_raw" receipt))) "Inconsistent burn total"
  slot ← item "slot" receipt
  ok (record {
    signature = signature;
    mint = mint;
    total = total;
    event_count = length events;
    slot = slot;
    text = dumps receipt;
  })

-- INSERT OR IGNORE: a row of the same key, or a NULL slot, leaves the table as it is.
unfoldable pub insert_or_ignore : BurnRow → List BurnRow → Bool × List BurnRow
insert_or_ignore row rows =
    if any (has_key row.signature row.mint) rows || is_null row.slot
    then (false, rows)
    else (true, rows ++ row ∷ [])

-- `existing[0] != evidence`, where no row at all is a TypeError
unfoldable pub agrees : String → Option BurnRow → Result (Unit {0})
agrees evidence none = err type_error
agrees evidence (some row) =
    raise_if (not (str_eq row.evidence evidence))
      "Conflicting evidence for an already recorded transaction"

-- What sqlite3 binds to a column: an int of 64 bits with a sign, and no list or dict. Any other int is
-- an OverflowError.
unfoldable pub bound : Value → Result (Unit {0})
bound (int (pos n)) = if ltb n (2 ^ 63) then ok tt else err type_error
bound (int (negsuc n)) = if ltb n (2 ^ 63) then ok tt else err type_error
bound (arr vs) = err type_error
bound (obj d) = err type_error
bound _ = ok tt

-- The statements of the savepoint.
unfoldable pub keep_evidence : Evidence → ℕ → List BurnRow → Result (Bool × List BurnRow)
keep_evidence e now rows = do
  bound e.slot
  let (changed, rows') = insert_or_ignore (burn_row e now) rows
  agrees e.text (find (has_key e.signature e.mint) rows')
  ok (changed, rows')

-- `record(receipt)`: an error rolls the savepoint back, so the table is the old one.
unfoldable pub record_receipt :
    (Fields → String) → Fields → ℕ → List BurnRow → Result (Bool × List BurnRow)
record_receipt dumps receipt now rows = do
  e ← checked_evidence dumps receipt
  keep_evidence e now rows

-- genesis_hash=? AND mint=?
abbrev pub of_mint : String → BurnRow → Bool
of_mint mint row = str_eq row.genesis_hash mainnet_genesis && str_eq row.mint mint

-- `int(amount)` of a stored amount
abbrev pub stored_amount : BurnRow → ℕ
stored_amount row = value_after 0 (codes row.burned_raw)

pub record Summary : Type 0 where
  pub burned : ℕ
  pub receipt_count : ℕ
  pub event_count : ℕ
  pub decimals : Option Value

-- `json.loads(first[0])['decimals'] if first else None`
unfoldable pub first_decimals : (String → Result Fields) → Option BurnRow → Result (Option Value)
first_decimals loads none = ok none
first_decimals loads (some row) = do
  evidence ← loads row.evidence
  decimals ← item "decimals" evidence
  ok (some decimals)

-- The totals of `summary(mint)`.
unfoldable pub summary : (String → Result Fields) → String → List BurnRow → Result Summary
summary loads mint rows = do
  raw ← decode_address (str mint)
  let chosen = select (of_mint mint) rows
  decimals ← first_decimals loads (find (of_mint mint) rows)
  ok (record {
    burned = sum stored_amount chosen;
    receipt_count = length chosen;
    event_count = sum (λ row. row.event_count) chosen;
    decimals = decimals;
  })
