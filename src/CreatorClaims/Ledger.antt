-- ===== src/CreatorClaims/Ledger.antt =====
-- The receipt of a creator's claim and its ledger (gridraft/creator_claims.py: `parse_creator_claim`,
-- `CreatorClaimAuditor.verify`, `CreatorClaimLedger`). The list of recent claims of `summary` is left
-- out, and `json.dumps` is an argument.
use slipvolt.Base.{
  ℕ, String, Bool, true, false, not, ◌&&◌, none, some, List, [], ◌∷◌, ◌++◌, ltb, leb, ◌==◌,
  if◌then◌else◌, str_eq, all, length,
}
use slipvolt.Base.Int.{pos}
use slipvolt.Base.Result.{Result, ok, err, value_error, ◌>>=◌, ◌>>◌, raise_if}
use slipvolt.Value.{Value, Fields, null, bool, int, str, field, end, get}
use slipvolt.Burn.{codes, is_digit, value_after, u64_max}
use slipvolt.Broker.{is_text}
use slipvolt.Db.Sql.{find, select, sum}
use slipvolt.Address.{decode_address, validate_signature}
use slipvolt.Decimal.{decimal}
use slipvolt.TokenAudit.{is_bool, text, array, finalized_slot}
use slipvolt.TokenAudit.Receipt.{mainnet_genesis, Rpc}
use slipvolt.CreatorClaims.{
  Derived, system, max_i63, transaction_quantity, claim_transaction, claim_instruction,
  check_groups,
}
use slipvolt.CreatorClaims.Balances.{balances}

-- The dict that `parse_creator_claim` returns.
abbrev pub claim_fields : String → String → String → ℕ → ℕ → Value → Fields
claim_fields signature creator vault amount slot block_time =
    field "schema" (str "holdbyte.creator-claim.v1") (
      field "genesis_hash" (str mainnet_genesis) (
        field "signature" (str signature) (
          field "creator" (str creator) (
            field "source_vault" (str vault) (
              field "protocol" (str "pump_curve_creator_claim_v2") (
                field "asset" (str "SOL") (
                  field "amount_lamports" (str (decimal amount)) (
                    field "slot" (int (pos slot)) (
                      field "block_time" block_time (
                        field "project_attribution" (str "unverified")
                          (field "recognized_revenue" (bool false) end)))))))))))

-- `if block_time is not None: _integer(block_time, ...)`
unfoldable pub claim_time : Value → Result Value
claim_time null = ok null
claim_time value = do n ← transaction_quantity value max_i63; ok value

-- The inner groups, no more than there are instructions.
unfoldable pub inner_groups : Fields → ℕ → Result (Unit {0})
inner_groups meta outer = do
  groups ← array (get "innerInstructions" meta) "Incomplete inner instruction evidence"
  raise_if (ltb outer (length groups)) "Incomplete inner instruction evidence"
  check_groups outer [] groups

-- `parse_creator_claim(result, status, creator, signature)`
unfoldable pub parse_creator_claim :
    (String → Derived) → Value → Value → String → String → Result Fields
parse_creator_claim derived result status creator signature = do
  raw ← decode_address (str creator)
  raise_if (str_eq creator system) "Invalid creator"
  checked ← validate_signature (str signature)
  parts ← claim_transaction result status signature
  (accounts, outer) ← claim_instruction derived parts.message creator
  inner_groups parts.meta outer
  block_time ← claim_time (get "blockTime" parts.result)
  amount ← balances parts.meta parts.message accounts
  ok (claim_fields signature creator accounts.vault amount parts.slot block_time)

-- `CreatorClaimAuditor.verify(signature)`
unfoldable pub verify_claim : (String → Derived) → Rpc → String → String → Result Fields
verify_claim derived rpc creator signature = do
  checked ← validate_signature (str signature)
  rpc.ensure_mainnet
  status ← rpc.statuses signature
  slot ← finalized_slot status
  result ← rpc.transaction signature
  parse_creator_claim derived result status creator signature

-- A row of `creator_claim_receipts`.
pub record ClaimRow : Type 0 where
  pub genesis_hash : String
  pub signature : String
  pub creator : String
  pub amount_lamports : String
  pub slot : ℕ
  pub evidence : String
  pub checked_at : ℕ

-- The constant fields of a receipt.
abbrev pub is_claim_evidence : Fields → Bool
is_claim_evidence receipt =
    is_text "holdbyte.creator-claim.v1" (get "schema" receipt)
    && is_text mainnet_genesis (get "genesis_hash" receipt)
    && is_text "pump_curve_creator_claim_v2" (get "protocol" receipt)
    && is_text "SOL" (get "asset" receipt)
    && is_text "unverified" (get "project_attribution" receipt)
    && is_bool false (get "recognized_revenue" receipt)

abbrev pub is_filled : List ℕ → Bool
is_filled [] = false
is_filled (c ∷ cs) = true

-- `amount.isascii() and amount.isdigit() and str(int(amount)) == amount and 1 <= int(amount) <= MAX_U64`
abbrev pub is_lamports : String → Bool
is_lamports amount =
    let n = value_after 0 (codes amount) in
    is_filled (codes amount)
    && all is_digit (codes amount)
    && str_eq (decimal n) amount
    && leb 1 n
    && leb n u64_max

-- The guards of `record`: the row that it would insert.
unfoldable pub checked_claim : (Fields → String) → Fields → ℕ → Result ClaimRow
checked_claim dumps receipt now = do
  raise_if (not (is_claim_evidence receipt)) "Invalid creator claim evidence"
  signature ← validate_signature (get "signature" receipt)
  raw ← decode_address (get "creator" receipt)
  creator ← text (get "creator" receipt) "Invalid Solana address"
  amount ← text (get "amount_lamports" receipt) "Invalid creator claim amount"
  raise_if (not (is_lamports amount)) "Invalid creator claim amount"
  slot ← transaction_quantity (get "slot" receipt) max_i63
  raise_if (slot == 0) "Invalid creator claim slot"
  ok (record {
    genesis_hash = mainnet_genesis;
    signature = signature;
    creator = creator;
    amount_lamports = amount;
    slot = slot;
    evidence = dumps receipt;
    checked_at = now;
  })

-- genesis_hash=? AND signature=? AND creator=?
abbrev pub has_claim_key : ClaimRow → ClaimRow → Bool
has_claim_key row other =
    str_eq other.genesis_hash row.genesis_hash
    && str_eq other.signature row.signature
    && str_eq other.creator row.creator

-- INSERT OR IGNORE, then the row under the key: other evidence rolls the transaction back.
unfoldable pub keep_claim : ClaimRow → List ClaimRow → Result (Bool × List ClaimRow)
keep_claim row rows = elim (find (has_claim_key row) rows) [
  | none ↦ ok (true, rows ++ row ∷ [])
  | some old ↦
      if str_eq old.evidence row.evidence
      then ok (false, rows)
      else err (value_error "Conflicting evidence for an already recorded claim")
]

-- `record(receipt)`
unfoldable pub record_claim :
    (Fields → String) → Fields → ℕ → List ClaimRow → Result (Bool × List ClaimRow)
record_claim dumps receipt now rows = do row ← checked_claim dumps receipt now; keep_claim row rows

-- genesis_hash=? AND creator=?
abbrev pub of_creator : String → ClaimRow → Bool
of_creator creator row = str_eq row.genesis_hash mainnet_genesis && str_eq row.creator creator

-- `int(row['amount_lamports'])`
abbrev pub lamports : ClaimRow → ℕ
lamports row = value_after 0 (codes row.amount_lamports)

pub record ClaimSummary : Type 0 where
  pub count : ℕ
  pub total_lamports : ℕ

-- The totals of `summary(creator)`.
unfoldable pub claim_summary : String → List ClaimRow → Result ClaimSummary
claim_summary creator rows = do
  raw ← decode_address (str creator)
  let chosen = select (of_creator creator) rows
  ok (record { count = length chosen; total_lamports = sum lamports chosen })
