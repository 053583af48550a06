-- ===== src/TokenAudit/Verified.antt =====
-- A receipt that the auditor verified is one that the ledger takes.
use mathlib.Core.Path.{subst}
use package.text.Mathlib.TextPositions.{eq_refl}
use slipvolt.Base.{
  ℕ, suc, ◌^◌, ◌≤◌, ◌<◌, ◌≡◌, refl, ap, ◌∙◌, String, true, false, ◌||◌, List, [], ◌∷◌, ◌++◌, arith,
  any, length, All, ltb, lt→ltb, ◌==◌,
}
use slipvolt.Base.Result.{ok, err, type_error, ◌>>=◌, >>=-eq-ok, raise_if-passed}
use slipvolt.Value.{Value, Fields, int, str, is_null, get, get?, items}
use slipvolt.Base.Int.{pos}
use slipvolt.Burn.{u64_max}
use slipvolt.Db.Sql.{find-snoc}
use slipvolt.Address.{decode_address, validate_signature}
use slipvolt.Decimal.{decimal}
use slipvolt.Decimal.RoundTrip.{decimal_value, decimal-is_whole}
use slipvolt.TokenAudit.{
  MintState, raw_amount, raw_of_codes, object, text, array, finalized_slot, parse_mint, mint_state,
  mint_account,
}
use slipvolt.TokenAudit.Receipt.{
  BurnEvent, Rpc, burned, event_values, receipt_fields, receipt_events, is_empty, instruction_rows,
  mint_snapshot, verify, parse_burn_receipt, checked_time,
}
use slipvolt.TokenAudit.Ledger.{
  BurnRow, Evidence, has_key, burn_row, total_amount, checked_evidence, bound, insert_or_ignore,
  agrees, keep_evidence, record_receipt,
}
use slipvolt.TokenAudit.Summed.{receipt_events_total}
use slipvolt.TokenAudit.Amounts.{IsAmount, burn_events-AreAmounts}

u64_digits : (n : ℕ) → n ≤ u64_max → n < 10 ^ 20
u64_digits n h = omega (arith, h)

raw_amount-decimal : (n : ℕ) → 0 < n → n ≤ u64_max → raw_amount (str (decimal n)) true ≡ ok n
unfolding raw_amount raw_of_codes
raw_amount-decimal n positive bounded =
    ground (arith, decimal_value n, decimal-is_whole n (u64_digits n bounded))

-- The events of a receipt add up to its total.
total_amount-event_values :
    (events : List BurnEvent)
    → All IsAmount events
    → total_amount (items (event_values events)) ≡ ok (burned events)
unfolding total_amount get get?
total_amount-event_values [] h = refl
total_amount-event_values (event ∷ events) (h, rest) =
    rw (raw_amount-decimal event.amount h.0 h.1, total_amount-event_values events rest) refl

length-event_values :
    (events : List BurnEvent) → length (items (event_values events)) ≡ length events
length-event_values [] = refl
length-event_values (event ∷ events) = ap suc (length-event_values events)

instruction_rows-length :
    (meta message : Fields) (rows : List (String × Value))
    → instruction_rows meta message ≡ ok rows
    → length rows ≤ 4096
unfolding instruction_rows
instruction_rows-length meta message rows e = ground arith

receipt_events-AreAmounts :
    (mint : MintState) (slot : ℕ) (signature : String) (d : Fields) (events : List BurnEvent)
    → receipt_events mint slot signature d ≡ ok events
    → All IsAmount events × (length events ≤ 4096) × (is_empty events ≡ false)
unfolding receipt_events
receipt_events-AreAmounts mint slot signature d events e =
    let (meta, message, rows, _, listed, of_rows) =
      receipt_events_total mint slot signature d events e in
    let (amounts, short) = burn_events-AreAmounts mint rows events of_rows in
    (amounts, omega (arith, short, instruction_rows-length meta message rows listed), ground arith)

validate_signature-same :
    (signature checked : String)
    → validate_signature (str signature) ≡ ok checked
    → checked ≡ signature
unfolding validate_signature
validate_signature-same signature checked e = ground arith

mint_state_mint :
    (mint : String) (decimals slot : ℕ) (account : Fields) (state : MintState)
    → mint_state mint decimals slot account ≡ ok state
    → state.mint ≡ mint
unfolding mint_state
mint_state_mint mint decimals slot account state e = ground arith

-- The snapshot is of the configured mint, which is an address.
parse_mint_mint :
    (result : Value) (mint : String) (decimals min_slot : ℕ) (state : MintState)
    → parse_mint result mint decimals min_slot ≡ ok state
    → (state.mint ≡ mint) × ((raw : List ℕ) × (decode_address (str mint) ≡ ok raw))
unfolding parse_mint
parse_mint_mint result mint decimals min_slot state e =
    let (raw, found, e1) = >>=-eq-ok (decode_address (str mint)) _ e in
    let (_, e2) = raise_if-passed (ltb 18 decimals) _ _ e1 in
    let (at, _, e3) = >>=-eq-ok (mint_account result min_slot) _ e2 in
    (mint_state_mint mint decimals at.0 at.1 state e3, (raw, found))

-- What the ledger reads of a receipt.
abbrev pub evidence_of :
    (Fields → String) → MintState → String → ℕ → Value → List BurnEvent → Evidence
evidence_of dumps mint signature slot time events = record {
  signature = signature;
  mint = mint.mint;
  total = burned events;
  event_count = length events;
  slot = int (pos slot);
  text = dumps (receipt_fields mint signature slot time events);
}

event_count_passes :
    (events : List BurnEvent)
    → length events ≤ 4096
    → is_empty events ≡ false
    → (length (items (event_values events)) == 0 || ltb 4096 (length (items (event_values events))))
      ≡ false
event_count_passes [] short filled = ground arith
event_count_passes (event ∷ events) short filled = rw (length-event_values events) (ground arith)

checked_evidence-receipt_fields :
    (dumps : Fields → String) (mint : MintState) (signature : String) (slot : ℕ) (time : Value)
    (events : List BurnEvent) (raw : List ℕ)
    → validate_signature (str signature) ≡ ok signature
    → decode_address (str mint.mint) ≡ ok raw
    → All IsAmount events
    → length events ≤ 4096
    → is_empty events ≡ false
    → checked_evidence dumps (receipt_fields mint signature slot time events)
      ≡ ok (evidence_of dumps mint signature slot time events)
unfolding checked_evidence get get? array text
checked_evidence-receipt_fields dumps mint signature slot time events raw signed decoded amounts
      short filled =
    rw
      (
        signed,
        decoded,
        event_count_passes events short filled,
        total_amount-event_values events amounts,
        eq_refl (decimal (burned events)),
        length-event_values events,
      )
      refl

keep_evidence_fresh :
    (e : Evidence) (now : ℕ) (rows : List BurnRow)
    → is_null e.slot ≡ false
    → bound e.slot ≡ ok tt
    → any (has_key e.signature e.mint) rows ≡ false
    → keep_evidence e now rows ≡ ok (true, rows ++ burn_row e now ∷ [])
unfolding keep_evidence insert_or_ignore agrees
keep_evidence_fresh e now rows timed fits free =
    rw (fits, free, timed)
      (rw (find-snoc (has_key e.signature e.mint) rows (burn_row e now) free)
        (rw (eq_refl e.signature, eq_refl e.mint) (rw (eq_refl e.text) refl)))

keep_evidence_overflow :
    (e : Evidence) (now : ℕ) (rows : List BurnRow)
    → bound e.slot ≡ err type_error
    → keep_evidence e now rows ≡ err type_error
unfolding keep_evidence
keep_evidence_overflow e now rows h = rw h refl

-- What follows from a verified receipt.
pub record IsTaken (dumps : Fields → String) (mint signature : String) (receipt : Fields)
    : Type 0 where
  pub evidence : Evidence
  pub checked : checked_evidence dumps receipt ≡ ok evidence
  pub same_mint : evidence.mint ≡ mint
  pub same_signature : evidence.signature ≡ signature
  pub written : get "burned_raw" receipt ≡ str (decimal evidence.total)
  pub positive : 0 < evidence.total
  pub slot : ℕ
  pub placed : get "slot" receipt ≡ int (pos slot)
  pub kept :
      slot < 2 ^ 63
      → (now : ℕ) (rows : List BurnRow) → any (has_key signature mint) rows ≡ false
      → record_receipt dumps receipt now rows ≡ ok (true, rows ++ burn_row evidence now ∷ [])
  pub overflow :
      2 ^ 63 ≤ slot
      → (now : ℕ) (rows : List BurnRow) → record_receipt dumps receipt now rows ≡ err type_error

bound_small : (n : ℕ) → n < 2 ^ 63 → bound (int (pos n)) ≡ ok tt
unfolding bound
bound_small n h = ground (arith, lt→ltb n (2 ^ 63) h)

bound_large : (n : ℕ) → 2 ^ 63 ≤ n → bound (int (pos n)) ≡ err type_error
unfolding bound
bound_large n h = ground arith

burned_positive :
    (events : List BurnEvent) → All IsAmount events → is_empty events ≡ false → 0 < burned events
burned_positive [] h filled = ground arith
burned_positive (event ∷ events) h filled = omega (arith, h.0.0)

receipt-IsTaken :
    (dumps : Fields → String) (mint : MintState) (configured signature : String) (slot : ℕ)
    (time : Value) (events : List BurnEvent)
    → mint.mint ≡ configured
    → checked_evidence dumps (receipt_fields mint signature slot time events)
      ≡ ok (evidence_of dumps mint signature slot time events)
    → 0 < burned events
    → IsTaken dumps configured signature (receipt_fields mint signature slot time events)
unfolding get get? record_receipt
receipt-IsTaken dumps mint configured signature slot time events same checked positive = record {
  evidence = evidence_of dumps mint signature slot time events;
  checked = checked;
  same_mint = same;
  same_signature = refl;
  written = refl;
  positive = positive;
  slot = slot;
  placed = refl;
  kept = λ small now rows free.
      ap (λ r. r >>= λ e. keep_evidence e now rows) checked
      ∙ keep_evidence_fresh (evidence_of dumps mint signature slot time events) now rows refl
          (bound_small slot small) (ap (λ m. any (has_key signature m) rows) same ∙ free);
  overflow = λ large now rows.
      ap (λ r. r >>= λ e. keep_evidence e now rows) checked
      ∙ keep_evidence_overflow (evidence_of dumps mint signature slot time events) now rows
          (bound_large slot large);
}

parse_burn_receipt-IsTaken :
    (dumps : Fields → String) (result status : Value) (mint : MintState)
    (configured signature : String) (raw : List ℕ) (receipt : Fields)
    → mint.mint ≡ configured
    → decode_address (str configured) ≡ ok raw
    → parse_burn_receipt result status mint signature ≡ ok receipt
    → IsTaken dumps configured signature receipt
unfolding parse_burn_receipt
parse_burn_receipt-IsTaken dumps result status mint configured signature raw receipt same decoded
      e =
    let (checked, signed, e1) = >>=-eq-ok (validate_signature (str signature)) _ e in
    let (slot, _, e2) = >>=-eq-ok (finalized_slot status) _ e1 in
    let (d, _, e3) = >>=-eq-ok (object result "transaction") _ e2 in
    let (events, of_d, e4) = >>=-eq-ok (receipt_events mint slot signature d) _ e3 in
    let (time, _, e5) = >>=-eq-ok (checked_time (get "blockTime" d)) _ e4 in
    let built : receipt_fields mint signature slot time events ≡ receipt = cc in
    let (amounts, short, filled) = receipt_events-AreAmounts mint slot signature d events of_d in
    let accepted =
      checked_evidence-receipt_fields dumps mint signature slot time events raw
        (signed ∙ ap ok (validate_signature-same signature checked signed))
        (ap (λ m. decode_address (str m)) same ∙ decoded) amounts short filled in
    subst (IsTaken dumps configured signature) built (
      receipt-IsTaken dumps mint configured signature slot time events same accepted
        (burned_positive events amounts filled))

-- A receipt that the auditor verifies passes every check of the ledger: its total is positive, it is
-- about the configured mint and the requested transaction. Where the ledger has no row for them yet and
-- the slot is below 2^63, recording it returns and appends the row; from 2^63 on recording raises.
pub verify-IsTaken :
    (dumps : Fields → String) (rpc : Rpc) (mint : String) (decimals : ℕ) (signature : String)
    (receipt : Fields)
    → verify rpc mint decimals signature ≡ ok receipt
    → IsTaken dumps mint signature receipt
unfolding verify mint_snapshot
verify-IsTaken dumps rpc mint decimals signature receipt e =
    let (_, _, e1) = >>=-eq-ok (validate_signature (str signature)) _ e in
    let (_, _, e2) = >>=-eq-ok rpc.ensure_mainnet _ e1 in
    let (status, _, e3) = >>=-eq-ok (rpc.statuses signature) _ e2 in
    let (slot, _, e4) = >>=-eq-ok (finalized_slot status) _ e3 in
    let (result, _, e5) = >>=-eq-ok (rpc.transaction signature) _ e4 in
    let (_, e6) = raise_if-passed (is_null result) _ _ e5 in
    let (state, snapped, e7) = >>=-eq-ok (mint_snapshot rpc mint decimals slot) _ e6 in
    let (_, _, s1) = >>=-eq-ok rpc.ensure_mainnet _ snapped in
    let (account, _, s2) = >>=-eq-ok (rpc.account_info mint slot) _ s1 in
    let (same, (raw, decoded)) = parse_mint_mint account mint decimals slot state s2 in
    parse_burn_receipt-IsTaken dumps result status state mint signature raw receipt same decoded e7
