-- ===== src/Tests/Claims.antt =====
-- A creator's claim at a concrete transaction.
use slipvolt.Base.{ℕ, String, true, List, [], ◌∷◌}
use slipvolt.Base.Int.{pos}
use slipvolt.Value.{Value, Fields, Items, null, bool, int, str, arr, obj, nil, cons, end, field}
use slipvolt.CreatorClaims.{
  Derived, pump, claim_data, native_mint, token, associated, system, compute,
}
use slipvolt.CreatorClaims.Ledger.{claim_fields}

abbrev creator : String
creator = "11111111111111111111111111111112"

abbrev vault : String
vault = "11111111111111111111111111111113"

abbrev creator_ata : String
creator_ata = "11111111111111111111111111111114"

abbrev vault_ata : String
vault_ata = "11111111111111111111111111111115"

abbrev event : String
event = "11111111111111111111111111111116"

abbrev signature : String
signature = "1111111111111111111111111111111111111111111111111111111111111111"

abbrev derived : String → Derived
derived owner = record {
  vault = vault;
  creator_ata = creator_ata;
  vault_ata = vault_ata;
  event = event;
}

abbrev texts : List String → Items
texts [] = nil
texts (s ∷ rest) = cons (str s) (texts rest)

abbrev accounts : List String
accounts =
    creator ∷ creator_ata ∷ vault ∷ vault_ata ∷ native_mint ∷ token ∷ associated ∷ system ∷ event
    ∷ pump ∷ []

abbrev key_entry : String → Value
key_entry address = obj (field "pubkey" (str address) (field "signer" (bool true) end))

abbrev key_entries : List String → Items
key_entries [] = nil
key_entries (s ∷ rest) = cons (key_entry s) (key_entries rest)

abbrev amounts : List ℕ → Items
amounts [] = nil
amounts (n ∷ rest) = cons (int (pos n)) (amounts rest)

abbrev claim : Value
claim = obj (
    field "programId" (str pump)
      (field "data" (str claim_data) (field "accounts" (arr (texts accounts)) end)))

abbrev budget : Value
budget = obj (field "programId" (str compute) end)

abbrev status : Value
status = obj (
    field "context" (obj (field "slot" (int (pos 9)) end)) (
      field "value"
        (arr (
          cons
            (obj (
              field "confirmationStatus" (str "finalized")
                (field "err" null (field "slot" (int (pos 7)) end))))
            nil))
        end))

abbrev transaction : Value
transaction = obj (
    field "slot" (int (pos 7)) (
      field "version" (int (pos 0)) (
        field "meta"
          (obj (
            field "err" null (
              field "fee" (int (pos 5)) (
                field "innerInstructions" (arr nil) (
                  field "preBalances"
                    (arr (amounts (1000 ∷ 0 ∷ 700 ∷ 0 ∷ 1 ∷ 1 ∷ 1 ∷ 1 ∷ 0 ∷ 1 ∷ [])))
                    (field "postBalances"
                      (arr (amounts (1495 ∷ 0 ∷ 200 ∷ 0 ∷ 1 ∷ 1 ∷ 1 ∷ 1 ∷ 0 ∷ 1 ∷ []))) end))))))
          (field "transaction"
            (obj (
              field "signatures" (arr (cons (str signature) nil)) (
                field "message"
                  (obj (
                    field "instructions" (arr (cons budget (cons claim nil)))
                      (field "accountKeys" (arr (key_entries accounts)) end)))
                  end)))
            end))))

abbrev receipt : Fields
receipt = claim_fields signature creator vault 500 7 null
