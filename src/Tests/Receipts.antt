-- ===== src/Tests/Receipts.antt =====
-- Addresses and burn receipts at concrete values. Texts of ones decode to zero bytes.
use slipvolt.Base.{ℕ, ◌≡◌, refl, String, true, false, List, [], ◌∷◌}
use slipvolt.Base.Int.{pos}
use slipvolt.Base.Result.{ok}
use slipvolt.Value.{Value, Fields, null, bool, int, str, arr, obj, nil, cons, end, field, get, get?}
use slipvolt.Address.{
  index, base58, halvings, bit_length, to_bytes, raw_bytes, decode_codes, decode_address,
  signature_size, validate_signature,
}
use slipvolt.Address.Decoded.{IsDecoded, decode_address-IsDecoded}
use slipvolt.Decimal.{shown, decimal}
use slipvolt.TokenAudit.{
  MintState, object, labelled_integer, raw_of_codes, raw_amount, text, array, mint_program,
  authority_of, mint_info, mint_account, mint_state, parse_mint, only_item, finalized_slot,
}
use slipvolt.TokenAudit.Receipt.{
  transaction_parts, inner_rows, instruction_rows, burn_authority, burn_amount, burn_event,
  mint_event, parsed_event, program_event, instruction_event, burn_events, checked_time,
  receipt_events, receipt_fields, parse_burn_receipt, Rpc, mint_snapshot, verify, BurnEvent,
}
use slipvolt.TokenAudit.Ledger.{
  BurnRow, total_amount, checked_evidence, insert_or_ignore, agrees, keep_evidence, record_receipt,
  bound,
}
use slipvolt.TokenAudit.Summed.{IsComplete, parse_burn_receipt-IsComplete}
use slipvolt.TokenAudit.Recorded.{IsRecorded, record_receipt-IsRecorded}
use slipvolt.TokenAudit.Verified.{IsTaken, verify-IsTaken}

abbrev wrapped_sol : String
wrapped_sol = "So11111111111111111111111111111111111111112"

abbrev wrapped_sol_bytes : List ℕ
wrapped_sol_bytes =
    6 ∷ 155 ∷ 136 ∷ 87 ∷ 254 ∷ 171 ∷ 129 ∷ 132 ∷ 251 ∷ 104 ∷ 127 ∷ 99 ∷ 70 ∷ 24 ∷ 192 ∷ 53 ∷ 218
    ∷ 196 ∷ 57 ∷ 220 ∷ 26 ∷ 235 ∷ 59 ∷ 85 ∷ 152 ∷ 160 ∷ 240 ∷ 0 ∷ 0 ∷ 0 ∷ 0 ∷ 1 ∷ []

wrapped_sol_decodes : decode_address (str wrapped_sol) ≡ ok wrapped_sol_bytes
unfolding decode_address decode_codes base58 index raw_bytes to_bytes bit_length halvings
wrapped_sol_decodes = refl

decode_address-IsDecoded_example : IsDecoded wrapped_sol wrapped_sol_bytes
decode_address-IsDecoded_example =
    decode_address-IsDecoded wrapped_sol wrapped_sol_bytes wrapped_sol_decodes

abbrev mint : String
mint = "11111111111111111111111111111111"

abbrev signature : String
signature = "1111111111111111111111111111111111111111111111111111111111111111"

abbrev token : String
token = "TokenkegQfeZyiNwAJbNbGKPFXCWuBvf9Ss623VQ5DA"

abbrev context : Value
context = obj (field "slot" (int (pos 9)) end)

abbrev status : Value
status = obj (
    field "context" context (
      field "value"
        (arr (
          cons
            (obj (
              field "confirmationStatus" (str "finalized")
                (field "err" null (field "slot" (int (pos 7)) end))))
            nil))
        end))

abbrev burn : String → Value
burn amount = obj (
    field "programId" (str token) (
      field "parsed"
        (obj (
          field "type" (str "burn") (
            field "info"
              (obj (
                field "mint" (str mint) (
                  field "account" (str mint)
                    (field "authority" (str mint) (field "amount" (str amount) end)))))
              end)))
        end))

abbrev transaction : Value
transaction = obj (
    field "slot" (int (pos 7)) (
      field "version" (str "legacy") (
        field "meta"
          (obj (
            field "err" null (
              field "innerInstructions"
                (arr (
                  cons
                    (obj (
                      field "index" (int (pos 0))
                        (field "instructions" (arr (cons (burn "25") nil)) end)))
                    nil))
                end)))
          (field "transaction"
            (obj (
              field "signatures" (arr (cons (str signature) nil)) (
                field "message" (obj (field "instructions" (arr (cons (burn "500") nil)) end))
                  end)))
            end))))

abbrev account : Value
account = obj (
    field "context" context (
      field "value"
        (obj (
          field "owner" (str token) (
            field "executable" (bool false) (
              field "data"
                (obj (
                  field "parsed"
                    (obj (
                      field "type" (str "mint") (
                        field "info"
                          (obj (
                            field "isInitialized" (bool true) (
                              field "decimals" (int (pos 6)) (
                                field "supply" (str "1000") (
                                  field "mintAuthority" null (field "freezeAuthority" null end))))))
                          end)))
                    end))
                end))))
        end))

abbrev rpc : Rpc
rpc = record {
  ensure_mainnet = ok tt;
  statuses = λ s. ok status;
  transaction = λ s. ok transaction;
  account_info = λ m slot. ok account;
}

abbrev state : MintState
state = record {
  mint = mint;
  token_program = token;
  decimals = 6;
  supply_raw = "1000";
  slot = 9;
  mint_authority = null;
  freeze_authority = null;
}

abbrev events : List BurnEvent
events =
    record {
      path = "outer:0";
      kind = "burn";
      amount = 500;
      source_account = str mint;
      authority = str mint;
      authority_kind = "authority";
    }
    ∷ record {
      path = "inner:0:0";
      kind = "burn";
      amount = 25;
      source_account = str mint;
      authority = str mint;
      authority_kind = "authority";
    }
    ∷ []

abbrev receipt : Fields
receipt = receipt_fields state signature 7 null events

parsed : parse_burn_receipt transaction status state signature ≡ ok receipt
unfolding parse_burn_receipt validate_signature base58 index signature_size bit_length halvings
    finalized_slot object get get? only_item labelled_integer receipt_events transaction_parts
    instruction_rows array inner_rows decimal shown burn_events instruction_event text program_event
    parsed_event mint_event burn_event decode_address decode_codes raw_bytes to_bytes burn_authority
    burn_amount raw_amount raw_of_codes checked_time
parsed = refl

snapped : mint_snapshot rpc mint 6 7 ≡ ok state
unfolding mint_snapshot parse_mint mint_account object get get? labelled_integer mint_state
    mint_program text mint_info raw_amount raw_of_codes authority_of decimal shown decode_address
    decode_codes base58 index raw_bytes to_bytes bit_length halvings
snapped = refl

verified : verify rpc mint 6 signature ≡ ok receipt
unfolding verify validate_signature base58 index signature_size bit_length halvings finalized_slot
    object get get? only_item labelled_integer
verified = rw snapped parsed

parse_burn_receipt-IsComplete_example : IsComplete transaction status state signature receipt
parse_burn_receipt-IsComplete_example =
    parse_burn_receipt-IsComplete transaction status state signature receipt parsed

abbrev dumps : Fields → String
dumps d = "evidence"

verify-IsTaken_example : IsTaken dumps mint signature receipt
verify-IsTaken_example = verify-IsTaken dumps rpc mint 6 signature receipt verified

abbrev row : BurnRow
row = record {
  genesis_hash = "5eykt4UsFv8P8NJdTREpY1vzqKqZKvdpKuc147dw2N9d";
  signature = signature;
  mint = mint;
  burned_raw = "525";
  event_count = 2;
  slot = int (pos 7);
  evidence = "evidence";
  checked_at = 100;
}

recorded : record_receipt dumps receipt 100 [] ≡ ok (true, row ∷ [])
unfolding record_receipt checked_evidence get get? validate_signature base58 index signature_size
    bit_length halvings decode_address decode_codes raw_bytes to_bytes text array total_amount
    raw_amount raw_of_codes decimal shown keep_evidence bound insert_or_ignore agrees
recorded = refl

record_receipt-IsRecorded_example : IsRecorded dumps receipt [] (row ∷ []) true
record_receipt-IsRecorded_example =
    record_receipt-IsRecorded dumps receipt 100 [] (row ∷ []) true recorded
