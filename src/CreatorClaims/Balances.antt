-- ===== src/CreatorClaims/Balances.antt =====
-- The balances of a claim (gridraft/creator_claims.py, `_balances`): what each account of the
-- transaction gained or lost, and the amount that they add up to.
use slipvolt.Base.{
  ℕ, ◌+◌, String, Bool, true, false, not, ◌&&◌, ◌||◌, Option, none, some, List, [], ◌∷◌, leb, ◌==◌,
  if◌then◌else◌, str_eq, any, all, length,
}
use slipvolt.Base.Int.{ℤ, pos, negsuc, pos_part, neg_part, ◌+ℤ◌, ◌-ℤ◌}
use slipvolt.Base.Result.{Result, ok, err, value_error, type_error, ◌>>=◌, ◌>>◌, raise_if}
use slipvolt.Value.{Value, Fields, obj, get}
use slipvolt.Burn.{u64_max}
use slipvolt.Address.{decode_address}
use slipvolt.TokenAudit.{is_bool, text, array}
use slipvolt.CreatorClaims.{transaction_quantity, dict, Accounts, account_list}

abbrev pub eq_ℤ : ℤ → ℤ → Bool
eq_ℤ a b = pos_part a + neg_part b == pos_part b + neg_part a

-- The `pubkey` of each entry.
unfoldable pub key_addresses : List Value → Result (List String)
key_addresses [] = ok []
key_addresses (v ∷ keys) = do
  d ← dict v
  raw ← decode_address (get "pubkey" d)
  address ← text (get "pubkey" d) "Invalid Solana address"
  rest ← key_addresses keys
  ok (address ∷ rest)

-- `len(set(addresses)) != len(addresses)`
abbrev pub has_repeat : List String → Bool
has_repeat [] = false
has_repeat (a ∷ rest) = any (str_eq a) rest || has_repeat rest

-- The payer: the first of the keys, which has signed.
unfoldable pub first_signed : List Value → Result (Unit {0})
first_signed (obj d ∷ keys) =
    raise_if (not (is_bool true (get "signer" d))) "Missing transaction fee payer"
first_signed _ = err type_error

-- `{key: after[i] - before[i] for i, key in enumerate(addresses)}`
unfoldable pub deltas : List String → List Value → List Value → Result (List (String × ℤ))
deltas [] before after = ok []
deltas (a ∷ addresses) (b ∷ before) (c ∷ after) = do
  post ← transaction_quantity c u64_max
  pre ← transaction_quantity b u64_max
  rest ← deltas addresses before after
  ok ((a, pos post -ℤ pos pre) ∷ rest)
deltas _ before after = err type_error

-- `deltas[key]`
abbrev pub delta_of : String → List (String × ℤ) → Option ℤ
delta_of key [] = none
delta_of key ((a, d) ∷ rest) = if str_eq a key then some d else delta_of key rest

unfoldable pub delta_at : String → List (String × ℤ) → Result ℤ
delta_at key ds = elim (delta_of key ds) [ none ↦ err type_error | some d ↦ ok d ]

-- `amount <= 0 or amount > MAX_U64`, else the amount
unfoldable pub claimed : ℤ → Result ℕ
claimed (pos n) =
    if leb 1 n && leb n u64_max
    then ok n
    else err (value_error "Claim balance changes do not match")
claimed (negsuc n) = err (value_error "Claim balance changes do not match")

-- An account besides the three whose balance changed.
abbrev pub is_stray : String → String → String → String × ℤ → Bool
is_stray payer creator vault (a, d) =
    not (str_eq a payer || str_eq a creator || str_eq a vault) && not (eq_ℤ d (pos 0))

-- The amount that the deltas show.
unfoldable pub claimed_amount : String → Accounts → ℕ → List (String × ℤ) → Result ℕ
claimed_amount payer accounts fee ds = do
  raise_if (str_eq payer accounts.vault) "Vault cannot be the fee payer"
  gained ← delta_at accounts.creator ds
  amount ← claimed (gained +ℤ (if str_eq payer accounts.creator then pos fee else pos 0))
  lost ← delta_at accounts.vault ds
  raise_if (not (eq_ℤ lost (pos 0 -ℤ pos amount))) "Claim balance changes do not match"
  paid ← delta_at payer ds
  raise_if (not (str_eq payer accounts.creator) && not (eq_ℤ paid (pos 0 -ℤ pos fee)))
      "Fee payer balance is inconsistent"
  raise_if (any (is_stray payer accounts.creator accounts.vault) ds)
      "Other account balances changed during the claim"
  ok amount

abbrev pub payer_of : List String → Result String
payer_of [] = err type_error
payer_of (a ∷ rest) = ok a

-- `_balances(meta, message, accounts)`
unfoldable pub balances : Fields → Fields → Accounts → Result ℕ
balances meta message accounts = do
  keys ← array (get "accountKeys" message) "Invalid account keys"
  raise_if (not (leb 1 (length keys) && leb (length keys) 256)) "Invalid account keys"
  before ← array (get "preBalances" meta) "Incomplete balance evidence"
  after ← array (get "postBalances" meta) "Incomplete balance evidence"
  raise_if (not (length before == length keys && length after == length keys))
      "Incomplete balance evidence"
  addresses ← key_addresses keys
  raise_if (has_repeat addresses) "Inconsistent account keys"
  raise_if (not (all (λ a. any (str_eq a) addresses) (account_list accounts)))
      "Inconsistent account keys"
  first_signed keys
  fee ← transaction_quantity (get "fee" meta) u64_max
  ds ← deltas addresses before after
  payer ← payer_of addresses
  claimed_amount payer accounts fee ds
