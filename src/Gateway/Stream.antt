-- ===== src/Gateway/Stream.antt =====
-- A streamed answer (gridraft/member_gateway.py, `MemberGateway.stream`), as the events that the
-- generator meets. A generator that is never started runs none of this, and its hold stays open.
use slipvolt.Base.{
  ℕ, ◌+◌, ◌*◌, ◌^◌, ◌%◌, String, Bool, true, false, not, ◌&&◌, ◌||◌, Option, none, some, List, [],
  ◌∷◌, ltb, leb, ◌==◌, if◌then◌else◌, str_eq, length, any,
}
use slipvolt.Base.Int.{ℤ}
use slipvolt.Base.Result.{Error, Result, ok, err, value_error, ◌>>=◌, ◌>>◌, raise_if}
use slipvolt.Value.{
  Value, Fields, null, bool, int, float, str, arr, obj, nil, cons, end, field, get?, get, items,
}
use slipvolt.Host.{len}
use slipvolt.Db.{Db}
use slipvolt.Settlement.{settle, review}
use slipvolt.Usage.{Reported, parse_usage}
use slipvolt.Broker.{request_cost}
use slipvolt.Gateway.{other_model, settlement_of}

-- `bool(value)`; a double is zero when its bits but the sign are.
abbrev pub truthy : Value → Bool
truthy null = false
truthy (bool b) = b
truthy (int (ℤ.pos n)) = not (n == 0)
truthy (int (ℤ.negsuc n)) = true
truthy (float bits) = not (bits % 2 ^ 63 == 0)
truthy (str s) = not (str_eq s "")
truthy (arr nil) = false
truthy (arr (cons v vs)) = true
truthy (obj end) = false
truthy (obj (field name value rest)) = true

-- The variables of the loop.
pub record Flow : Type 0 where
  pub usage : Option Reported
  pub uid : Option String
  pub response_id : Option String
  pub terminal_usage : Bool
  pub size : ℕ

abbrev pub fresh_flow : Option String → Flow
fresh_flow upstream_id = record {
  usage = none;
  uid = upstream_id;
  response_id = none;
  terminal_usage = false;
  size = 0;
}

-- A cancellation, another exception of reading or parsing, the end marker with what the cost lookup
-- reads, or a JSON frame; the last two with the bytes of their lines.
pub data Event : Type 0 where
  cut broken : Event
  finished : ℕ → Option Fields → Event
  frame : ℕ → Value → Event

-- How the generator ends.
pub data Ending : Type 0 where
  done incomplete cut_short : Ending
  crashed : Error → Ending

abbrev pub other_response : Option String → String → Bool
other_response none id = false
other_response (some old) id = not (str_eq old id)

-- `if d.get('id'): ...`
unfoldable pub note_id : Flow → Value → Result Flow
note_id f (str id) = if str_eq id "" then ok f else do
  raise_if (ltb 200 (len id)) "Bad stream ID"
  raise_if (other_response f.response_id id) "Response ID changed during stream"
  ok (record f { response_id = some id; uid = some id })
note_id f v = if truthy v then err (value_error "Bad stream ID") else ok f

-- The checks of a frame up to its id.
unfoldable pub open_frame : String → Flow → ℕ → Value → Result (Flow × Fields)
open_frame model f bytes (obj d) = do
  raise_if (ltb 2000000 (f.size + bytes)) "Stream too large"
  raise_if (truthy (get "error" d) || other_model (get? "model" d) model) "Invalid stream"
  f' ← note_id (record f { size = f.size + bytes }) (get "id" d)
  ok (f', d)
open_frame model f bytes _ = err (value_error "Invalid stream")

abbrev pub list_or_empty : Option Value → Result (List Value)
list_or_empty none = ok []
list_or_empty (some (arr vs)) = ok (items vs)
list_or_empty (some _) = err (value_error "Invalid choices")

-- `choice.get('index')`, an int below the number of choices that no choice of the frame had
unfoldable pub choice_index : Value → ℕ → List ℕ → Result ℕ
choice_index (int (ℤ.pos i)) n seen =
    if ltb i n && not (any (λ j. j == i) seen)
    then ok i
    else err (value_error "Invalid choice index")
choice_index _ n seen = err (value_error "Invalid choice index")

abbrev pub bad_delta : Option Value → Bool
bad_delta none = false
bad_delta (some (obj d)) = false
bad_delta (some _) = true

unfoldable pub check_deltas : List Value → ℕ → List ℕ → Result (Unit {0})
check_deltas [] n seen = ok tt
check_deltas (obj choice ∷ rest) n seen = do
  i ← choice_index (get "index" choice) n seen
  raise_if (bad_delta (get? "delta" choice)) "Invalid delta"
  check_deltas rest n (i ∷ seen)
check_deltas (_ ∷ rest) n seen = err (value_error "Invalid choice")

abbrev pub same_count : Option ℕ → Option ℕ → Bool
same_count none none = true
same_count (some m) (some n) = m == n
same_count _ _ = false

abbrev pub same_report : Reported → Reported → Bool
same_report u w =
    u.prompt == w.prompt
    && u.completion == w.completion
    && u.total == w.total
    && same_count u.cached w.cached
    && same_count u.reasoning w.reasoning

abbrev pub conflicting : Option Reported → Reported → Bool
conflicting none u = false
conflicting (some old) u = not (same_report u old)

-- `if d.get('usage') is not None: ...`
unfoldable pub note_usage : Flow → Value → Result Flow
note_usage f null = ok f
note_usage f v = do
  u ← parse_usage v
  raise_if (conflicting f.usage u) "Conflicting stream usage"
  ok (record f { usage = some u; terminal_usage = true })

-- The rest of a frame: its choices and its usage.
unfoldable pub take_frame : ℕ → Flow → Fields → Result Flow
take_frame n f d = do
  choices ← list_or_empty (get? "choices" d)
  raise_if (ltb n (length choices)) "Invalid choices"
  raise_if (f.terminal_usage && leb 1 (length choices)) "Choices after terminal usage"
  check_deltas choices n []
  note_usage f (get "usage" d)

-- `finally: if not done: self.ledger.review(rid, uid)`
unfoldable pub left : String → Option String → Ending → Db → Ending × Db
left rid uid ending db = elim (review rid uid db) [
  | err e ↦ (crashed e, db)
  | ok db' ↦ (ending, db')
]

-- The end marker.
unfoldable pub finish : String → String → ℕ → Flow → ℕ → Option Fields → Db → Ending × Db
finish rid model rate f bytes costs db =
    if ltb 2000000 (f.size + bytes) then left rid f.uid incomplete db else elim f.usage [
      | none ↦ left rid f.uid incomplete db
      | some u ↦
          let price = request_cost f.uid model u.total (u.total * rate) costs in
          elim (settle (settlement_of rid u price f.uid) db) [
            | err e ↦ left rid f.uid incomplete db
            | ok (b, db') ↦ (done, db')
          ]
    ]

-- The loop over the events; when they end without the marker, the stream is incomplete.
unfoldable pub stream : String → String → ℕ → ℕ → Flow → List Event → Db → Ending × Db
stream rid model rate n f [] db = left rid f.uid incomplete db
stream rid model rate n f (cut ∷ es) db = left rid f.uid cut_short db
stream rid model rate n f (broken ∷ es) db = left rid f.uid incomplete db
stream rid model rate n f (finished bytes costs ∷ es) db = finish rid model rate f bytes costs db
stream rid model rate n f (frame bytes v ∷ es) db = elim (open_frame model f bytes v) [
  | err e ↦ left rid f.uid incomplete db
  | ok (f1, d) ↦ elim (take_frame n f1 d) [
    | err e ↦ left rid f1.uid incomplete db
    | ok f2 ↦ stream rid model rate n f2 es db
  ]
]
