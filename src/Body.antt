-- ===== src/Body.antt =====
-- The guard on request bodies (gridraft/body_boundary.py): size and JSON nesting, chunk by chunk.
-- A byte is its number. What `receive` gives is a list of messages; `waiting` is the state in which
-- the list has no further message.
pub mod Chunks
pub mod Nesting
use slipvolt.Base.{
  ℕ, ◌+◌, ◌-◌, Bool, true, false, ◌||◌, Option, none, some, List, [], ◌∷◌, ◌++◌, ltb, if◌then◌else◌,
  length, ◌==◌,
}

pub data Message : Type 0 where
  disconnect : Message
  request : List ℕ → Bool → Message
  other : Message

pub record Scan : Type 0 where
  pub depth : ℕ
  pub in_string : Bool
  pub escaped : Bool

abbrev pub start : Scan
start = record { depth = 0; in_string = false; escaped = false }

-- One byte of the loop over a chunk; `none` where the nesting exceeds 32 levels.
unfoldable pub scan_byte : Scan → ℕ → Option Scan
scan_byte s byte =
    if s.in_string
    then some (
        if s.escaped
        then record s { escaped = false }
        else if byte == 92
        then record s { escaped = true }
        else if byte == 34
        then record s { in_string = false }
        else s)
    else if byte == 34
    then some (record s { in_string = true })
    else if byte == 123 || byte == 91
    then (if ltb 32 (s.depth + 1) then none else some (record s { depth = s.depth + 1 }))
    else if byte == 125 || byte == 93
    then some (record s { depth = s.depth - 1 })
    else some s

unfoldable pub scan_from : Option Scan → List ℕ → Option Scan
scan_from s [] = s
scan_from none (b ∷ bs) = none
scan_from (some s) (b ∷ bs) = scan_from (scan_byte s b) bs

pub record Buffer : Type 0 where
  pub messages : List Message
  pub size : ℕ
  pub scan : Scan

abbrev pub empty_buffer : Buffer
empty_buffer = record { messages = []; size = 0; scan = start }

-- `passed` calls the application, which reads the messages again.
pub data Outcome : Type 0 where
  waiting disconnected too_large too_deep : Outcome
  passed : List Message → Outcome

-- One message with a body: its chunk counted and scanned, in this order.
unfoldable pub take_chunk : ℕ → List ℕ → Bool → Buffer → Outcome × Buffer
take_chunk limit chunk more b =
    let size = b.size + length chunk in
    if ltb limit size then (too_large, b) else elim (scan_from (some b.scan) chunk) [
      | none ↦ (too_deep, b)
      | some s ↦
          let messages = b.messages ++ request chunk more ∷ [] in
          (
            if more then waiting else passed messages,
            record { messages = messages; size = size; scan = s },
          )
    ]

-- The outcome of a chunk, or what comes after it.
abbrev pub or_next : Outcome → Outcome → Outcome
or_next waiting next = next
or_next decided next = decided

-- The loop of `__call__`
unfoldable pub call : ℕ → List Message → Buffer → Outcome
call limit [] b = waiting
call limit (disconnect ∷ ms) b = disconnected
call limit (other ∷ ms) b = call limit ms b
call limit (request chunk more ∷ ms) b =
    let (outcome, b') = take_chunk limit chunk more b in or_next outcome (call limit ms b')
