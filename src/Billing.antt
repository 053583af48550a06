-- ===== src/Billing.antt =====
-- `settle` and `review` of the prepaid ledger (gridraft/store.py).
pub mod Settled
pub mod Keyed
pub mod Run
use slipvolt.Base.{
  ℕ, ◌+◌, ◌*◌, ◌/◌, String, Bool, true, false, not, ◌&&◌, ◌||◌, Option, none, some, List, [], ◌∷◌,
  ◌++◌, ltb, leb, if◌then◌else◌, str_eq, any, ◌==◌,
}
use slipvolt.Base.Int.{ℤ, pos, ◌-ℤ◌}
use slipvolt.Base.Result.{Result, ok, err, integrity_error, ◌>>=◌, ◌>>◌, raise_if}
use slipvolt.Value.{Value, ceiling}
use slipvolt.Host.{Host, len}
use slipvolt.Db.{Db, Usage, Reconciliation, State, is_held, is_reserved}
use slipvolt.Db.Sql.{find, update}
use slipvolt.Prepaid.{has_account, add_balance, whole, has_id, has_key_id, add_spent}

-- The arguments of `settle`.
pub record Bill : Type 0 where
  pub rid : String
  pub billed : Value
  pub state : State
  pub prompt : Option ℕ
  pub completion : Option ℕ
  pub upstream_id : Option String
  pub evidence : Option String

abbrev pub is_operator : State → Bool
is_operator State.operator_settled = true
is_operator _ = false

-- `state=='operator_settled' or evidence is not None` asks for a printable reference.
abbrev pub bad_reference : Host → State → Option String → Bool
bad_reference host state none = is_operator state
bad_reference host state (some e) = host.is_blank e || ltb 200 (len e) || not (host.is_printable e)

abbrev pub bill_row : Bill → ℕ → Usage → Usage
bill_row b n u = record u {
  billed_nusd = n;
  state = b.state;
  prompt_tokens = b.prompt;
  completion_tokens = b.completion;
  upstream_id = b.upstream_id;
}

-- The UPDATEs of a settlement: what is held beyond the bill goes back, or the excess is taken.
abbrev pub write_bill : Bill → ℕ → Usage → Db → Db
write_bill b n row db =
    let difference = pos row.reserved_nusd -ℤ pos n in
    record db {
      accounts = update (has_account row.wallet) (add_balance difference) db.accounts;
      api_keys = update (has_key_id row.key_id) (add_spent (pos 0 -ℤ difference)) db.api_keys;
      usage = update (has_id b.rid) (bill_row b n) db.usage;
    }

-- INSERT INTO reconciliations, where evidence is given
unfoldable pub write_evidence : Bill → ℕ → ℕ → Db → Result Db
write_evidence b n now db = elim b.evidence [
  | none ↦ ok db
  | some e ↦
      if str_eq e ""
      then ok db
      else if any (λ (r : Reconciliation). str_eq r.request_id b.rid) db.reconciliations
      then err integrity_error
      else ok (record db {
        reconciliations =
            db.reconciliations
            ++ record { request_id = b.rid; billed_nusd = n; evidence = e; created = now } ∷ [];
      })
]

unfoldable pub settle_found : Option Usage → Bill → ℕ → ℕ → Db → Result (Bool × Db)
settle_found none b n now db = ok (false, db)
settle_found (some row) b n now db = if not (is_held row.state) then ok (false, db) else do
  raise_if (not (is_reserved row.state) && not (is_operator b.state))
      "Operator reconciliation evidence required"
  db' ← write_evidence b n now (write_bill b n row db)
  ok (true, db')

-- `settle(request_id, billed, state, prompt, completion, upstream_id, evidence)`
unfoldable pub settle : Host → Bill → ℕ → Db → Result (Bool × Db)
settle host b now db = do
  n ← whole b.billed ceiling "Invalid settlement"
  raise_if (bad_reference host b.state b.evidence)
      "A printable evidence reference of 1–200 characters is required"
  settle_found (find (has_id b.rid) db.usage) b n now db

abbrev pub review_row : Option String → Usage → Usage
review_row upstream_id u = record u { state = State.needs_review; upstream_id = upstream_id }

-- `review(request_id, upstream_id)`
unfoldable pub review : String → Option String → Db → Db
review rid upstream_id db = record db {
  usage = update (λ u. has_id rid u && is_reserved u.state) (review_row upstream_id) db.usage;
}
