-- ===== src/CreatorClaims/Parsed.antt =====
-- An accepted claim receipt writes the amount that its balances account for.
use slipvolt.Base.{ℕ, ◌≡◌, String, false, not}
use slipvolt.Base.Result.{ok}
use slipvolt.Value.{Value, Fields, str, get}
use slipvolt.Decimal.{decimal}
use slipvolt.CreatorClaims.{Derived, Parts, Accounts, claim_transaction, is_derived}
use slipvolt.CreatorClaims.Accounted.{IsAccounted}

-- What an accepted receipt says.
pub record IsBacked (derived : String → Derived) (result status : Value)
    (creator signature : String) (receipt : Fields) : Type 0 where
  pub parts : Parts
  pub accounts : Accounts
  pub amount : ℕ
  pub sent : claim_transaction result status signature ≡ ok parts
  pub own : accounts.creator ≡ creator
  pub vault : not (is_derived (derived creator) accounts) ≡ false
  pub accounted : IsAccounted parts.meta parts.message accounts amount
  pub written :
      (get "amount_lamports" receipt ≡ str (decimal amount))
      × (get "source_vault" receipt ≡ str accounts.vault)
      × (get "creator" receipt ≡ str creator)
