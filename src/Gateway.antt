-- ===== src/Gateway.antt =====
-- One request of a holder (gridraft/member_gateway.py, `MemberGateway.call`): reserve, dispatch, check
-- the answer, settle, or leave the hold for review. What the network gives is an argument: the balance,
-- the dispatch, and the cost that the provider reports. Stream.antt is `MemberGateway.stream`.
pub mod Stream
pub mod Closing
pub mod Served
pub mod Streamed
use Prim.Native.String.{[] as empty_text, ◌∷◌ as ◌∷ₛ◌}
use text.Mathlib.Text.{starts_with}
use slipvolt.Base.{
  ℕ, ◌+◌, ◌*◌, String, Bool, true, false, not, ◌&&◌, ◌||◌, Option, none, some, List, [], ◌∷◌, ltb,
  leb, ◌==◌, if◌then◌else◌, str_eq, length,
}
use slipvolt.Base.Int.{pos}
use slipvolt.Base.Result.{Error, Result, ok, err, value_error, type_error, ◌>>=◌, ◌>>◌, raise_if}
use slipvolt.Value.{Value, Fields, null, int, str, arr, obj, get?, get, items}
use slipvolt.Host.{Host, len}
use slipvolt.Db.{Db}
use slipvolt.Keys.{take_text}
use slipvolt.Membership.{Admission, reserve}
use slipvolt.Settlement.{Settlement, settle, review}
use slipvolt.Usage.{Reported, item, parse_usage, usage_value}
use slipvolt.Broker.{is_text, request_cost}

-- The settings that a request reads.
pub record Config : Type 0 where
  pub wallet_daily : ℕ
  pub global_daily : ℕ
  pub ngonka_per_token : ℕ
  pub rpm : ℕ
  pub wallet_concurrency : ℕ
  pub global_rpm : ℕ
  pub global_concurrency : ℕ
  pub max_request_bytes : ℕ

-- The body; of its payload the lengths of the two JSON texts and the number of messages.
pub record Body : Type 0 where
  pub model : String
  pub max_tokens : ℕ
  pub n : ℕ
  pub stream : Bool
  pub json_bytes : ℕ
  pub input_bytes : ℕ
  pub messages : ℕ

-- The key that authenticates the request, the header, and the ids that uuid4 draws.
pub record Request : Type 0 where
  pub key_id : String
  pub wallet : String
  pub body : Body
  pub idempotency_key : Option String
  pub drawn_idem : String
  pub rid : String

-- `input_budget(payload)`
abbrev pub input_budget : Body → ℕ
input_budget b = b.input_bytes + 1024 + 32 * b.messages

-- `prepare(body)`: the tokens to reserve, `none` where the request is too large.
unfoldable pub prepare : Config → Body → Option ℕ
prepare cfg b =
    if ltb cfg.max_request_bytes b.json_bytes
    then none
    else some (input_budget b + b.max_tokens * b.n)

-- `request.headers.get('idempotency-key') or str(uuid.uuid4())`
abbrev pub idem_of : Option String → String → String
idem_of none drawn = drawn
idem_of (some key) drawn = if str_eq key "" then drawn else key

-- `part in text`
abbrev pub contains : String → String → Bool
contains part empty_text = str_eq part ""
contains part (c ∷ₛ s) = let rest = contains part s in starts_with (c ∷ₛ s) part || rest

-- The status of the error that a refused reservation becomes.
unfoldable pub refusal_status : String → ℕ
refusal_status text =
    if str_eq text "invalid_key"
    then 401
    else if str_eq text "user_disabled"
    then 403
    else if contains "duplicate" text
    then 409
    else if str_eq text "wallet_allowance_exhausted"
        || str_eq text "shared_allowance_exhausted"
        || str_eq text "wallet_rpm_limit"
        || str_eq text "global_rpm_limit"
        || str_eq text "wallet_concurrency_limit"
        || str_eq text "global_concurrency_limit"
    then 429
    else 503

-- `provider_dispatch_error(status)`
unfoldable pub dispatch_status : ℕ → ℕ
dispatch_status status =
    if status == 400 || status == 413 || status == 422 || status == 429
    then status
    else if status == 401 || status == 403 || status == 404
    then 503
    else 502

-- What comes of an answered request: a cancellation, an exception while reading or parsing, or the JSON
-- value, the object that the cost lookup reads, and whether starlette renders the reply (it raises on
-- NaN and on a header that is not Latin-1).
pub data Answer : Type 0 where
  cut_off unread : Answer
  read : Value → Option Fields → Bool → Answer

-- What comes of the POST: a cancellation, another exception, or an answer with its header and status.
pub data Dispatch : Type 0 where
  interrupted undelivered : Dispatch
  answered : String → ℕ → Answer → Dispatch

-- How a call ends. `crashed` is an exception that no handler turns into a reply.
pub data Reply : Type 0 where
  http_error : ℕ → Reply
  cancelled : Reply
  crashed : Error → Reply
  streaming : Option String → Reply
  completed : ℕ → ℕ → String → Reply

-- `headers.get('x-request-id', '')[:200] or None`
abbrev pub header_id : String → Option String
header_id header = let id = take_text 200 header in if str_eq id "" then none else some id

-- The checks of one choice.
unfoldable pub check_content : Fields → Result (Unit {0})
check_content message = elim (get "content" message) [
  | null ↦ elim (get "tool_calls" message) [
    | arr calls ↦ ok tt
    | _ ↦ err (value_error "Missing assistant content/tool call")
  ]
  | str text ↦ ok tt
  | _ ↦ err (value_error "Invalid assistant content")
]

unfoldable pub check_message : Value → Result (Unit {0})
check_message (obj message) = do
  raise_if (not (is_text "assistant" (get "role" message))) "Invalid assistant role"
  check_content message
check_message _ = err (value_error "Invalid choice")

unfoldable pub check_choices : List Value → Result (Unit {0})
check_choices [] = ok tt
check_choices (obj choice ∷ rest) = check_message (get "message" choice) >> check_choices rest
check_choices (_ ∷ rest) = err (value_error "Invalid choice")

-- `not isinstance(choices, list) or not 1 <= len(choices) <= body.n`
abbrev pub choice_list : Value → ℕ → Result (List Value)
choice_list (arr cs) n =
    if leb 1 (length (items cs)) && leb (length (items cs)) n
    then ok (items cs)
    else err (value_error "Invalid choices")
choice_list _ n = err (value_error "Invalid choices")

-- `data.get('model', model) != model`
abbrev pub other_model : Option Value → String → Bool
other_model none model = false
other_model (some v) model = not (is_text model v)

-- `isinstance(uid, str) and 1 <= len(uid) <= 200`
abbrev pub text_id : Value → Result String
text_id (str id) =
    if leb 1 (len id) && leb (len id) 200 then ok id else err (value_error "Missing request ID")
text_id _ = err (value_error "Missing request ID")

-- `data.get('id', upstream_id)`
abbrev pub answer_id : Option Value → Option String → Value
answer_id (some v) upstream_id = v
answer_id none (some id) = str id
answer_id none none = null

unfoldable pub check_fields : Body → Option String → Fields → Result (Reported × String)
check_fields b upstream_id d = do
  found ← item "choices" d
  raise_if (other_model (get? "model" d) b.model) "Model mismatch"
  choices ← choice_list found b.n
  check_choices choices
  usage ← item "usage" d >>= parse_usage
  uid ← text_id (answer_id (get? "id" d) upstream_id)
  ok (usage, uid)

-- The checks of an answer: its usage, and the id to bill it by.
unfoldable pub check_answer : Body → Option String → Value → Result (Reported × String)
check_answer b upstream_id (obj d) = check_fields b upstream_id d
check_answer b upstream_id _ = err type_error

-- `self.ledger.review(...)`, then the reply; an exception of the ledger goes on.
unfoldable pub reviewed : String → Option String → Reply → Db → Reply × Db
reviewed rid upstream_id reply db = elim (review rid upstream_id db) [
  | err e ↦ (crashed e, db)
  | ok db' ↦ (reply, db')
]

abbrev pub settlement_of : String → Reported → ℕ × String → Option String → Settlement
settlement_of rid u (cost, source) uid = record {
  rid = rid;
  tokens = int (pos u.total);
  cost = int (pos cost);
  source = source;
  upstream_id = uid;
  evidence = none;
  usage = usage_value u;
}

-- `JSONResponse(data, headers=...)` inside the same `try`
abbrev pub rendered : Bool → String → Option String → Reply → Db → Reply × Db
rendered true rid upstream_id reply db = (reply, db)
rendered false rid upstream_id reply db = reviewed rid upstream_id (http_error 502) db

-- The second `try`: check, price, settle, render; any exception leaves the hold for review.
unfoldable pub complete : Config → Request → Option String → Answer → Db → Reply × Db
complete cfg r upstream_id cut_off db = reviewed r.rid upstream_id cancelled db
complete cfg r upstream_id unread db = reviewed r.rid upstream_id (http_error 502) db
complete cfg r upstream_id (read v costs renders) db = elim (check_answer r.body upstream_id v) [
  | err e ↦ reviewed r.rid upstream_id (http_error 502) db
  | ok (u, uid) ↦
      let price =
        request_cost (some uid) r.body.model u.total (u.total * cfg.ngonka_per_token) costs in
      elim (settle (settlement_of r.rid u price (some uid)) db) [
        | err e ↦ reviewed r.rid upstream_id (http_error 502) db
        | ok (done, db') ↦
            rendered renders r.rid upstream_id (completed u.total price.0 price.1) db'
      ]
]

-- After the reservation: the POST and what comes of it.
unfoldable pub dispatch : Config → Request → Dispatch → Db → Reply × Db
dispatch cfg r interrupted db = reviewed r.rid none cancelled db
dispatch cfg r undelivered db = reviewed r.rid none (http_error 502) db
dispatch cfg r (answered header status answer) db =
    let upstream_id = header_id header in
    if not (leb 200 status && leb status 299)
    then reviewed r.rid upstream_id (http_error (dispatch_status status)) db
    else if r.body.stream
    then (streaming upstream_id, db)
    else complete cfg r upstream_id answer db

abbrev pub admission_of : Config → Request → String → ℕ → ℕ → Admission
admission_of cfg r idem tokens available = record {
  key_id = some r.key_id;
  wallet = r.wallet;
  model = r.body.model;
  idem = idem;
  tokens = int (pos tokens);
  wallet_daily = cfg.wallet_daily;
  global_daily = cfg.global_daily;
  ngonka_per_token = int (pos cfg.ngonka_per_token);
  upstream_available = int (pos available);
  rpm = cfg.rpm;
  wallet_concurrency = cfg.wallet_concurrency;
  global_rpm = cfg.global_rpm;
  global_concurrency = cfg.global_concurrency;
}

-- The reservation with its error replies, then the dispatch.
unfoldable pub admitted : Config → Request → Dispatch → Admission → ℕ → Db → Reply × Db
admitted cfg r d a now db = elim (reserve a r.rid now db) [
  | err (value_error text) ↦ (http_error (refusal_status text), db)
  | err e ↦ (crashed e, db)
  | ok (rid, db') ↦ dispatch cfg r d db'
]

-- `call(body, request, key)`; `available` is what the balance shows, `none` where it cannot be read.
unfoldable pub call : Host → Config → Request → Option ℕ → Dispatch → ℕ → Db → Reply × Db
call host cfg r available d now db = elim (prepare cfg r.body) [
  | none ↦ (http_error 413, db)
  | some tokens ↦
      let idem = idem_of r.idempotency_key r.drawn_idem in
      if ltb 100 (len idem) || not (host.is_printable idem)
      then (http_error 400, db)
      else elim available [
        | none ↦ (http_error 503, db)
        | some funds ↦ admitted cfg r d (admission_of cfg r idem tokens funds) now db
      ]
]
