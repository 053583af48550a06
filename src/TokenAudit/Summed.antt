-- ===== src/TokenAudit/Summed.antt =====
-- The total of a receipt counts every burn of the mint in the transaction, and nothing else.
use slipvolt.Base.{
  ℕ, ◌+◌, ◌<◌, ◌≡◌, refl, sym, ap, ◌∙◌, String, Bool, true, false, ◌&&◌, List, [], ◌∷◌, ◌++◌,
  Option, none, some, arith, inl, inr, if◌then◌else◌,
}
use slipvolt.Base.Result.{ok, >>=-eq-ok, Result-cases, raise_if-passed}
use slipvolt.Value.{Value, Fields, str, obj, get?, get}
use slipvolt.Burn.{codes, value_after}
use slipvolt.Broker.{is_text}
use slipvolt.Db.Sql.{sum}
use slipvolt.Address.{validate_signature}
use slipvolt.Decimal.{decimal}
use slipvolt.TokenAudit.{
  MintState, is_token_program, raw_amount, raw_of_codes, object, text, finalized_slot,
}
use slipvolt.TokenAudit.Listed.{
  fields_of, items_of, group_instructions, meta_of, message_of, instructions_of, object_fields,
  IsFinal, finalized_slot-IsFinal, IsOwn, transaction_parts-IsOwn, instruction_rows-sum,
}
use slipvolt.TokenAudit.Receipt.{
  BurnEvent, is_burn, burn_amount, burn_event, mint_event, parsed_event, program_event,
  instruction_event, burn_events, burned, add_event, transaction_parts, instruction_rows,
  receipt_events, parse_burn_receipt, receipt_fields, checked_time,
}

-- An independent reading of one instruction, whose amount is the number of a text.
abbrev pub number_of : Value → ℕ
number_of (str s) = value_after 0 (codes s)
number_of _ = 0

abbrev pub is_known_program : Value → Bool
is_known_program (str program) = is_token_program program
is_known_program _ = false

abbrev pub amount_field : Bool → Fields → Value
amount_field checked info =
    if checked then get "amount" (fields_of (get "tokenAmount" info)) else get "amount" info

abbrev pub burned_in : String → Fields → ℕ
burned_in mint parsed =
    if is_burn (get "type" parsed) && is_text mint (get "mint" (fields_of (get "info" parsed)))
    then number_of
        (amount_field (is_text "burnChecked" (get "type" parsed)) (fields_of (get "info" parsed)))
    else 0

-- What one instruction burns of the mint.
abbrev pub burned_by : String → Value → ℕ
burned_by mint v =
    if is_known_program (get "programId" (fields_of v))
    then burned_in mint (fields_of (get "parsed" (fields_of v)))
    else 0

pub raw_amount_number : (v : Value) (p : Bool) (n : ℕ) → raw_amount v p ≡ ok n → n ≡ number_of v
unfolding raw_amount raw_of_codes
raw_amount_number (str s) p n e = ground arith
raw_amount_number _ p n e = ground arith

pub raw_amount_positive : (v : Value) (n : ℕ) → raw_amount v true ≡ ok n → 0 < n
unfolding raw_amount raw_of_codes
raw_amount_positive (str s) n e = ground arith
raw_amount_positive _ n e = ground arith

text_text : (v : Value) (message s : String) → text v message ≡ ok s → v ≡ str s
unfolding text
text_text (str t) message s e = ground arith
text_text _ message s e = ground arith

burn_amount_number :
    (decimals : ℕ) (checked : Bool) (info : Fields) (n : ℕ)
    → burn_amount decimals checked info ≡ ok n
    → (n ≡ number_of (amount_field checked info)) × (0 < n)
unfolding burn_amount
burn_amount_number decimals true info n e =
    let (d, found, rest) = >>=-eq-ok (object (get "tokenAmount" info) "checked token amount") _ e in
    let (_, last) = raise_if-passed _ _ _ rest in
    let inside = object_fields (get "tokenAmount" info) _ d found in
    (
      raw_amount_number (get "amount" d) true n last
          ∙ ap (λ v. number_of (get "amount" (fields_of v))) (sym inside),
      raw_amount_positive (get "amount" d) n last,
    )
burn_amount_number decimals false info n e =
    (raw_amount_number (get "amount" info) true n e, raw_amount_positive (get "amount" info) n e)

pub burn_event_amount :
    (mint : MintState) (path program : String) (checked : Bool) (info : Fields) (event : BurnEvent)
    → burn_event mint path program checked info ≡ ok event
    → burn_amount mint.decimals checked info ≡ ok event.amount
unfolding burn_event
burn_event_amount mint path program checked info event e = ground arith

mint_event_amount :
    (mint : MintState) (path program : String) (checked : Bool) (info : Fields)
    (event : Option BurnEvent)
    → mint_event mint path program checked info ≡ ok event
    → burned (add_event event [])
      ≡ (if is_text mint.mint (get "mint" info) then number_of (amount_field checked info) else 0)
unfolding mint_event
mint_event_amount mint path program checked info event e =
    elim (Result-cases (burn_event mint path program checked info)) [
      | inl (v, f) ↦
          let amount = burn_event_amount mint path program checked info v f in
          let number = burn_amount_number mint.decimals checked info v.amount amount in
          ground (arith, f, number)
      | inr (x, f) ↦ ground (arith, f)
    ]

parsed_event_amount :
    (mint : MintState) (path program : String) (parsed : Fields) (event : Option BurnEvent)
    → parsed_event mint path program parsed ≡ ok event
    → burned (add_event event []) ≡ burned_in mint.mint parsed
unfolding parsed_event
parsed_event_amount mint path program parsed event e =
    elim (Result-cases (object (get "info" parsed) "burn fields")) [
      | inl (info, f) ↦
          let inside = object_fields (get "info" parsed) "burn fields" info f in
          let amount =
            mint_event_amount mint path program (is_text "burnChecked" (get "type" parsed)) info
              event in
          ground (arith, f, inside, amount)
      | inr (x, f) ↦ ground (arith, f)
    ]

program_event_amount :
    (mint : MintState) (path program : String) (d : Fields) (event : Option BurnEvent)
    → program_event mint path program d ≡ ok event
    → burned (add_event event [])
      ≡ (if is_token_program program then burned_in mint.mint (fields_of (get "parsed" d)) else 0)
unfolding program_event
program_event_amount mint path program d event e =
    elim (Result-cases (object (get "parsed" d) "parsed token instruction")) [
      | inl (parsed, f) ↦
          let inside = object_fields (get "parsed" d) "parsed token instruction" parsed f in
          let amount = parsed_event_amount mint path program parsed event in
          ground (arith, f, inside, amount)
      | inr (x, f) ↦ ground (arith, f)
    ]

read_instruction :
    (mint : String) (v : Value) (d : Fields) (program : String)
    → v ≡ obj d
    → get "programId" d ≡ str program
    → (if is_token_program program then burned_in mint (fields_of (get "parsed" d)) else 0)
      ≡ burned_by mint v
read_instruction mint v d program e f = rw (e, f) refl

burned-add_event :
    (event : Option BurnEvent) (events : List BurnEvent)
    → burned (add_event event events) ≡ burned (add_event event []) + burned events
burned-add_event none events = omega arith
burned-add_event (some event) events = omega arith

instruction_event_amount :
    (mint : MintState) (path : String) (v : Value) (event : Option BurnEvent)
    → instruction_event mint path v ≡ ok event
    → burned (add_event event []) ≡ burned_by mint.mint v
unfolding instruction_event
instruction_event_amount mint path v event e =
    let (d, f, e1) = >>=-eq-ok (object v "instruction") _ e in
    let (program, g, e2) =
      >>=-eq-ok (text (get "programId" d) "Invalid instruction program") _ e1 in
    let inside = object_fields v "instruction" d f in
    let named = text_text (get "programId" d) "Invalid instruction program" program g in
    program_event_amount mint path program d event e2
    ∙ read_instruction mint.mint v d program inside named

burn_events_total :
    (mint : MintState) (rows : List (String × Value)) (events : List BurnEvent)
    → burn_events mint rows ≡ ok events
    → burned events ≡ sum (λ row. burned_by mint.mint row.1) rows
unfolding burn_events
burn_events_total mint [] events e = ground arith
burn_events_total mint ((path, v) ∷ rows) events e =
    let (event, f, e1) = >>=-eq-ok (instruction_event mint path v) _ e in
    let (rest, g, e2) = >>=-eq-ok (burn_events mint rows) _ e1 in
    let one = instruction_event_amount mint path v event f in
    let others = burn_events_total mint rows rest g in
    let whole : add_event event rest ≡ events = cc in
    ap burned (sym whole) ∙ burned-add_event event rest ∙ omega (arith, one, others)

-- What a receipt says of the answers of the RPC.
pub record IsComplete (result status : Value) (mint : MintState) (signature : String)
    (receipt : Fields) : Type 0 where
  pub fields : Fields
  pub slot : ℕ
  pub is_object : result ≡ obj fields
  pub is_final : IsFinal status slot
  pub is_own : IsOwn fields slot mint.slot signature
  pub total :
      get "burned_raw" receipt ≡ str (decimal (sum (burned_by mint.mint) (instructions_of fields)))

listed_from :
    (d meta message : Fields) (f : Value → ℕ)
    → meta_of d ≡ meta
    → message_of d ≡ message
    → sum f (
        items_of (get "instructions" message)
        ++ group_instructions (items_of (get "innerInstructions" meta)))
      ≡ sum f (instructions_of d)
listed_from d meta message f p q = cc

receipt_burned :
    (mint : MintState) (signature : String) (slot : ℕ) (time : Value) (events : List BurnEvent)
    → get "burned_raw" (receipt_fields mint signature slot time events)
      ≡ str (decimal (burned events))
unfolding get get?
receipt_burned mint signature slot time events = refl

pub receipt_events_total :
    (mint : MintState) (slot : ℕ) (signature : String) (d : Fields) (events : List BurnEvent)
    → receipt_events mint slot signature d ≡ ok events
    → (meta : Fields) × (message : Fields) × (rows : List (String × Value)) × (transaction_parts d
          slot mint.slot signature
        ≡ ok (meta, message))
      × (instruction_rows meta message ≡ ok rows)
      × (burn_events mint rows ≡ ok events)
unfolding receipt_events
receipt_events_total mint slot signature d events e =
    let (parts, f, e1) = >>=-eq-ok (transaction_parts d slot mint.slot signature) _ e in
    let (rows, g, e2) = >>=-eq-ok (instruction_rows parts.0 parts.1) _ e1 in
    let (found, h, e3) = >>=-eq-ok (burn_events mint rows) _ e2 in
    let same : found ≡ events = ground arith in (parts.0, parts.1, rows, f, g, h ∙ ap ok same)

-- The total of an accepted receipt is the sum of what each instruction of the transaction, of its
-- message or of any inner group, burns of the mint: no burn of the mint is left out and nothing else is
-- counted. The status calls the transaction finalized and without error in a slot, and the
-- transaction itself is of that slot, without error, no newer than the mint's snapshot, and has the
-- requested signature first.
pub parse_burn_receipt-IsComplete :
    (result status : Value) (mint : MintState) (signature : String) (receipt : Fields)
    → parse_burn_receipt result status mint signature ≡ ok receipt
    → IsComplete result status mint signature receipt
unfolding parse_burn_receipt
parse_burn_receipt-IsComplete result status mint signature receipt e =
    let (checked, _, e1) = >>=-eq-ok (validate_signature (str signature)) _ e in
    let (slot, final, e2) = >>=-eq-ok (finalized_slot status) _ e1 in
    let (d, is_d, e3) = >>=-eq-ok (object result "transaction") _ e2 in
    let (events, of_d, e4) = >>=-eq-ok (receipt_events mint slot signature d) _ e3 in
    let (time, _, e5) = >>=-eq-ok (checked_time (get "blockTime" d)) _ e4 in
    let (meta, message, rows, parts, listed, of_rows) =
      receipt_events_total mint slot signature d events of_d in
    let same : receipt_fields mint signature slot time events ≡ receipt = cc in
    let (own, meta_is, message_is) =
      transaction_parts-IsOwn d slot mint.slot signature meta message parts in
    record {
      fields = d;
      slot = slot;
      is_object = object_fields result "transaction" d is_d;
      is_final = finalized_slot-IsFinal status slot final;
      is_own = own;
      total =
          ap (get "burned_raw") (sym same)
          ∙ receipt_burned mint signature slot time events
          ∙ ap (λ n. str (decimal n))
              (burn_events_total mint rows events of_rows
                ∙ instruction_rows-sum (burned_by mint.mint) meta message rows listed
                ∙ listed_from d meta message (burned_by mint.mint) meta_is message_is);
    }
