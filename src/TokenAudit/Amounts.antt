-- ===== src/TokenAudit/Amounts.antt =====
-- Every event of a receipt has an amount that the ledger reads as positive.
use mathlib.Core.Path.{subst}
use slipvolt.Base.{
  ℕ, suc, ◌≤◌, ◌<◌, ◌≡◌, inl, inr, String, Bool, true, false, Option, none, some, List, [], ◌∷◌,
  arith, length, All,
}
use slipvolt.Base.Result.{ok, >>=-eq-ok, Result-cases, raise_if-passed}
use slipvolt.Value.{Value, Fields, str, get}
use slipvolt.Burn.{u64_max}
use slipvolt.Broker.{is_text}
use slipvolt.TokenAudit.{MintState, raw_amount, raw_of_codes, object, text}
use slipvolt.TokenAudit.Receipt.{
  BurnEvent, burn_amount, burn_event, mint_event, parsed_event, program_event, instruction_event,
  burn_events, add_event,
}
use slipvolt.TokenAudit.Summed.{burn_event_amount}

-- What `_raw_amount` accepts as positive.
abbrev pub IsAmount : BurnEvent → Type 0
IsAmount event = (0 < event.amount) × (event.amount ≤ u64_max)

raw_amount_range : (v : Value) (n : ℕ) → raw_amount v true ≡ ok n → (0 < n) × (n ≤ u64_max)
unfolding raw_amount raw_of_codes
raw_amount_range (str s) n e = ground arith
raw_amount_range _ n e = ground arith

burn_amount_range :
    (decimals : ℕ) (checked : Bool) (info : Fields) (n : ℕ)
    → burn_amount decimals checked info ≡ ok n
    → (0 < n) × (n ≤ u64_max)
unfolding burn_amount
burn_amount_range decimals true info n e =
    let (d, found, rest) = >>=-eq-ok (object (get "tokenAmount" info) "checked token amount") _ e in
    let (_, last) = raise_if-passed _ _ _ rest in raw_amount_range (get "amount" d) n last
burn_amount_range decimals false info n e = raw_amount_range (get "amount" info) n e

mint_event-IsAmount :
    (mint : MintState) (path program : String) (checked : Bool) (info : Fields)
    (event : Option BurnEvent)
    → mint_event mint path program checked info ≡ ok event
    → All IsAmount (add_event event [])
unfolding mint_event
mint_event-IsAmount mint path program checked info event e =
    elim (Result-cases (burn_event mint path program checked info)) [
      | inl (v, f) ↦
          let amount = burn_event_amount mint path program checked info v f in
          let range = burn_amount_range mint.decimals checked info v.amount amount in
          ground (arith, f, range)
      | inr (x, f) ↦ ground (arith, f)
    ]

parsed_event-IsAmount :
    (mint : MintState) (path program : String) (parsed : Fields) (event : Option BurnEvent)
    → parsed_event mint path program parsed ≡ ok event
    → All IsAmount (add_event event [])
unfolding parsed_event
parsed_event-IsAmount mint path program parsed event e =
    elim (Result-cases (object (get "info" parsed) "burn fields")) [
      | inl (info, f) ↦ ground (
        arith,
        f,
        mint_event-IsAmount mint path program (is_text "burnChecked" (get "type" parsed)) info
            event,
      )
      | inr (x, f) ↦ ground (arith, f)
    ]

program_event-IsAmount :
    (mint : MintState) (path program : String) (d : Fields) (event : Option BurnEvent)
    → program_event mint path program d ≡ ok event
    → All IsAmount (add_event event [])
unfolding program_event
program_event-IsAmount mint path program d event e =
    elim (Result-cases (object (get "parsed" d) "parsed token instruction")) [
      | inl (parsed, f) ↦ ground (arith, f, parsed_event-IsAmount mint path program parsed event)
      | inr (x, f) ↦ ground (arith, f)
    ]

instruction_event-IsAmount :
    (mint : MintState) (path : String) (v : Value) (event : Option BurnEvent)
    → instruction_event mint path v ≡ ok event
    → All IsAmount (add_event event [])
unfolding instruction_event
instruction_event-IsAmount mint path v event e =
    let (d, _, e1) = >>=-eq-ok (object v "instruction") _ e in
    let (program, _, e2) =
      >>=-eq-ok (text (get "programId" d) "Invalid instruction program") _ e1 in
    program_event-IsAmount mint path program d event e2

add_event-AreAmounts :
    (event : Option BurnEvent) (events : List BurnEvent)
    → All IsAmount (add_event event [])
    → All IsAmount events
    → All IsAmount (add_event event events)
add_event-AreAmounts none events h k = k
add_event-AreAmounts (some event) events h k = (h.0, k)

add_event-length :
    (event : Option BurnEvent) (events : List BurnEvent) (n : ℕ)
    → length events ≤ n
    → length (add_event event events) ≤ suc n
add_event-length none events n h = omega (arith, h)
add_event-length (some event) events n h = omega (arith, h)

-- Every event has a positive amount, and no row gives two events.
pub burn_events-AreAmounts :
    (mint : MintState) (rows : List (String × Value)) (events : List BurnEvent)
    → burn_events mint rows ≡ ok events
    → All IsAmount events × (length events ≤ length rows)
unfolding burn_events
burn_events-AreAmounts mint [] events e =
    let none_left : [] ≡ events = cc in (subst (All IsAmount) none_left tt, ground arith)
burn_events-AreAmounts mint ((path, v) ∷ rows) events e =
    let (event, f, e1) = >>=-eq-ok (instruction_event mint path v) _ e in
    let (rest, g, e2) = >>=-eq-ok (burn_events mint rows) _ e1 in
    let (amounts, short) = burn_events-AreAmounts mint rows rest g in
    let whole : add_event event rest ≡ events = cc in
    let one = instruction_event-IsAmount mint path v event f in
    (
      subst (All IsAmount) whole (add_event-AreAmounts event rest one amounts),
      subst (λ es. length es ≤ suc (length rows)) whole
          (add_event-length event rest (length rows) short),
    )
