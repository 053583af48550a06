-- ===== src/CreatorClaims.antt =====
-- Evidence of a Pump creator's SOL claim (gridraft/creator_claims.py): the transaction, its one claim
-- instruction and the inner groups. The addresses that `solders` derives from the creator are an
-- argument.
pub mod Balances
pub mod Accounted
pub mod Ledger
pub mod Parsed
use slipvolt.Base.{
  ℕ, ◌^◌, ◌-◌, String, Bool, true, false, not, ◌&&◌, ◌||◌, Option, none, some, List, [], ◌∷◌, ltb,
  leb, ◌==◌, if◌then◌else◌, str_eq, any, length,
}
use slipvolt.Base.Int.{ℤ, pos}
use slipvolt.Base.Result.{Result, ok, err, value_error, ◌>>=◌, ◌>>◌, raise_if}
use slipvolt.Value.{Value, Fields, int, str, arr, obj, get, items}
use slipvolt.Broker.{is_text}
use slipvolt.Address.{decode_address}
use slipvolt.TokenAudit.{is_number, text, array, has_failed, finalized_slot}
use slipvolt.TokenAudit.Receipt.{is_supported, is_signed_first}

abbrev pub pump : String
pump = "6EF8rrecthR5Dkzon8Nwu78hRvfCKubJ14M5uBEwF6P"

abbrev pub claim_data : String
claim_data = "bdpoExJbbLb"

abbrev pub native_mint : String
native_mint = "So11111111111111111111111111111111111111112"

abbrev pub token : String
token = "TokenkegQfeZyiNwAJbNbGKPFXCWuBvf9Ss623VQ5DA"

abbrev pub associated : String
associated = "ATokenGPvbdGVxr1b2hvZbsiqW5xWH25efTNsLJA8knL"

abbrev pub system : String
system = "11111111111111111111111111111111"

abbrev pub compute : String
compute = "ComputeBudget111111111111111111111111111111"

abbrev pub max_i63 : ℕ
max_i63 = 2 ^ 63 - 1

-- `_integer(value, maximum=...)`
unfoldable pub transaction_quantity : Value → ℕ → Result ℕ
transaction_quantity (int (pos n)) maximum =
    if leb n maximum then ok n else err (value_error "Invalid transaction quantity")
transaction_quantity _ maximum = err (value_error "Invalid transaction quantity")

-- `_dict(value)`
unfoldable pub dict : Value → Result Fields
dict (obj d) = ok d
dict _ = err (value_error "Incomplete transaction evidence")

-- What `_transaction` returns.
pub record Parts : Type 0 where
  pub result : Fields
  pub meta : Fields
  pub message : Fields
  pub slot : ℕ

-- `_transaction(result, status, signature)`
unfoldable pub claim_transaction : Value → Value → String → Result Parts
claim_transaction result status signature = do
  final ← finalized_slot status
  slot ← transaction_quantity (int (pos final)) max_i63
  d ← dict result
  raise_if (not (is_number slot (get "slot" d))) "Transaction and finality slots differ"
  raise_if (not (is_supported (get "version" d))) "Unsupported transaction version"
  meta ← dict (get "meta" d)
  raise_if (has_failed meta) "Transaction did not succeed"
  payload ← dict (get "transaction" d)
  raise_if (not (is_signed_first signature (get "signatures" payload)))
      "Transaction signature mismatch"
  message ← dict (get "message" payload)
  ok (record { result = d; meta = meta; message = message; slot = slot })

-- The addresses that are derived from the creator: the vault, the two token accounts and the event
-- authority.
pub record Derived : Type 0 where
  pub vault : String
  pub creator_ata : String
  pub vault_ata : String
  pub event : String

-- The loop over the instructions: the claims, where nothing else but compute budgets stands.
unfoldable pub claims_of : List Value → Result (List Fields)
claims_of [] = ok []
claims_of (v ∷ rows) = do
  item ← dict v
  let is_compute = is_text compute (get "programId" item)
  raise_if
      (not is_compute
        && not (is_text pump (get "programId" item) && is_text claim_data (get "data" item)))
      "Only a single direct Pump creator claim is supported"
  rest ← claims_of rows
  ok (if is_compute then rest else item ∷ rest)

unfoldable pub only_claim : List Fields → Result Fields
only_claim (claim ∷ []) = ok claim
only_claim _ = err (value_error "Exactly one Pump creator claim is required")

-- The decoded addresses of the accounts.
unfoldable pub addresses_of : List Value → Result (List String)
addresses_of [] = ok []
addresses_of (v ∷ vs) = do
  raw ← decode_address v
  address ← text v "Invalid Solana address"
  rest ← addresses_of vs
  ok (address ∷ rest)

-- The ten accounts of a claim.
pub record Accounts : Type 0 where
  pub creator : String
  pub creator_ata : String
  pub vault : String
  pub vault_ata : String
  pub mint : String
  pub token_program : String
  pub associated_program : String
  pub system_program : String
  pub event : String
  pub program : String

unfoldable pub ten_accounts : List String → Result Accounts
ten_accounts (a ∷ b ∷ c ∷ d ∷ e ∷ f ∷ g ∷ h ∷ i ∷ j ∷ []) = ok (record {
  creator = a;
  creator_ata = b;
  vault = c;
  vault_ata = d;
  mint = e;
  token_program = f;
  associated_program = g;
  system_program = h;
  event = i;
  program = j;
})
ten_accounts _ = err (value_error "Invalid Pump claim accounts")

abbrev pub account_list : Accounts → List String
account_list a =
    a.creator ∷ a.creator_ata ∷ a.vault ∷ a.vault_ata ∷ a.mint ∷ a.token_program
    ∷ a.associated_program ∷ a.system_program ∷ a.event ∷ a.program ∷ []

-- The fixed programs of the SOL route, and a vault that is not the creator.
abbrev pub is_sol_route : String → Accounts → Bool
is_sol_route creator a =
    str_eq a.creator creator
    && str_eq a.mint native_mint
    && str_eq a.token_program token
    && str_eq a.associated_program associated
    && str_eq a.system_program system
    && str_eq a.program pump
    && not (str_eq a.vault creator)

abbrev pub is_derived : Derived → Accounts → Bool
is_derived derived a =
    str_eq a.vault derived.vault
    && str_eq a.creator_ata derived.creator_ata
    && str_eq a.vault_ata derived.vault_ata
    && str_eq a.event derived.event

-- `_claim_instruction(message, creator)`: the accounts, and the number of instructions.
unfoldable pub claim_instruction : (String → Derived) → Fields → String → Result (Accounts × ℕ)
claim_instruction derived message creator = do
  rows ← array (get "instructions" message) "Invalid transaction instructions"
  raise_if (not (leb 1 (length rows) && leb (length rows) 16)) "Invalid transaction instructions"
  claims ← claims_of rows
  claim ← only_claim claims
  listed ← array (get "accounts" claim) "Invalid Pump claim accounts"
  raise_if (not (length listed == 10)) "Invalid Pump claim accounts"
  addresses ← addresses_of listed
  accounts ← ten_accounts addresses
  raise_if (not (is_sol_route creator accounts))
      "Claim does not match the configured creator or supported SOL route"
  raise_if (not (is_derived (derived creator) accounts))
      "Claim contains invalid program-derived accounts"
  ok (accounts, length rows)

-- The loop over the groups of inner instructions.
unfoldable pub check_groups : ℕ → List ℕ → List Value → Result (Unit {0})
check_groups outer seen [] = ok tt
check_groups outer seen (g ∷ groups) = do
  group ← dict g
  index ← transaction_quantity (get "index" group) (outer - 1)
  raise_if (any (λ i. i == index) seen) "Invalid inner instruction evidence"
  rows ← array (get "instructions" group) "Invalid inner instruction evidence"
  raise_if (ltb 4096 (length rows)) "Invalid inner instruction evidence"
  check_groups outer (index ∷ seen) groups
