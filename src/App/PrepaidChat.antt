-- ===== src/App/PrepaidChat.antt =====
-- A request in prepaid mode (gridraft/app.py, the second half of `chat`): reserve, dispatch, check the
-- answer, settle, or leave the hold for review. What the network gives is an argument, and so is
-- Python's `str` of a JSON value.
pub mod Served
use slipvolt.Base.{
  ℕ, ◌+◌, ◌*◌, String, Bool, true, false, not, ◌&&◌, ◌||◌, Option, none, some, List, [], ◌∷◌, ltb,
  leb, ◌==◌, if◌then◌else◌, str_eq,
}
use slipvolt.Base.Int.{pos}
use slipvolt.Base.Result.{Error, Result, ok, err, value_error, type_error, ◌>>=◌, ◌>>◌, raise_if}
use slipvolt.Value.{Value, Fields, int, str, obj, get?, get}
use slipvolt.Host.{Host, len}
use slipvolt.Db.{Db, State}
use slipvolt.Keys.{take_text}
use slipvolt.Prepaid.{Hold, needs_review, reserve}
use slipvolt.Billing.{Bill, settle, review}
use slipvolt.Usage.{Reported, item, parse_usage}
use slipvolt.Gateway.{
  Body, Request, input_budget, idem_of, dispatch_status, header_id, check_choices, choice_list,
  other_model,
}
use slipvolt.App.Requests.{Runtime}

-- The budgets of the settings, `None` where there is none.
pub record Budgets : Type 0 where
  pub daily : Option ℕ
  pub wallet_daily : Option ℕ

-- What comes of reading the answer, with whether starlette renders the reply, and of the POST.
pub data Reading : Type 0 where
  cut_off unread : Reading
  read : Value → Bool → Reading

pub data Sending : Type 0 where
  interrupted undelivered : Sending
  answered : String → ℕ → Reading → Sending

-- How the request ends: `completed` reports the cost.
pub data Reply : Type 0 where
  http_error : ℕ → Reply
  cancelled : Reply
  crashed : Error → Reply
  completed : ℕ → Reply

-- The status of a refused reservation.
unfoldable pub refusal : String → ℕ
refusal message =
    if str_eq message "invalid_key"
    then 401
    else if str_eq message "duplicate_request"
    then 409
    else if str_eq message "rate_limit"
        || str_eq message "daily_budget"
        || str_eq message "wallet_daily_budget"
    then 429
    else if str_eq message "billing_review_required"
    then 503
    else 402

-- `data.get('id', '')`
abbrev pub id_value : Option Value → Value
id_value none = str ""
id_value (some v) = v

-- The checks of an answer: its usage, and the id to bill it by.
unfoldable pub check_reply : (Value → String) → Body → Fields → Result (Reported × String)
check_reply shown b d = do
  usage ← item "usage" d >>= parse_usage
  choices ← choice_list (get "choices" d) b.n
  check_choices choices
  raise_if (other_model (get? "model" d) b.model) "Upstream model substitution was not requested"
  ok (usage, take_text 200 (shown (id_value (get? "id" d))))

-- `prompt*input_rate+completion*output_rate`
abbrev pub cost : Runtime → Reported → ℕ
cost cfg u = u.prompt * cfg.input_rate + u.completion * cfg.output_rate

abbrev pub bill_of : Runtime → String → Reported → String → Bill
bill_of cfg rid u uid = record {
  rid = rid;
  billed = int (pos (cost cfg u));
  state = State.settled;
  prompt = some u.prompt;
  completion = some u.completion;
  upstream_id = some uid;
  evidence = none;
}

-- `data['usage']` of what is no dict is a TypeError.
unfoldable pub checked : (Value → String) → Body → Value → Result (Reported × String)
checked shown b (obj d) = check_reply shown b d
checked shown b v = err type_error

-- `JSONResponse(data, headers=...)` inside the same `try`
abbrev pub rendered : Bool → String → Option String → Reply → Db → Reply × Db
rendered true rid upstream_id reply db = (reply, db)
rendered false rid upstream_id reply db = (http_error 502, review rid upstream_id db)

-- The last `try`: check, price, settle, render; any exception leaves the hold for review.
unfoldable pub complete :
    Host
    → (Value → String)
    → Runtime
    → Body
    → String
    → Option String
    → Reading
    → ℕ
    → Db
    → Reply × Db
complete host shown cfg b rid upstream_id cut_off now db = (cancelled, review rid upstream_id db)
complete host shown cfg b rid upstream_id unread now db =
    (http_error 502, review rid upstream_id db)
complete host shown cfg b rid upstream_id (read v renders) now db = elim (checked shown b v) [
  | err e ↦ (http_error 502, review rid upstream_id db)
  | ok (u, uid) ↦ elim (settle host (bill_of cfg rid u uid) now db) [
    | err e ↦ (http_error 502, review rid upstream_id db)
    | ok (done, db') ↦ rendered renders rid upstream_id (completed (cost cfg u)) db'
  ]
]

-- After the reservation: the POST and what comes of it.
unfoldable pub dispatch :
    Host → (Value → String) → Runtime → Body → String → Sending → ℕ → Db → Reply × Db
dispatch host shown cfg b rid interrupted now db = (cancelled, review rid none db)
dispatch host shown cfg b rid undelivered now db = (http_error 502, review rid none db)
dispatch host shown cfg b rid (answered header status reading) now db =
    if not (leb 200 status && leb status 299)
    then (http_error (dispatch_status status), review rid (header_id header) db)
    else complete host shown cfg b rid (header_id header) reading now db

-- A tokenizer-independent bound on the input and the requested output, priced.
abbrev pub reserve_amount : Runtime → Body → ℕ
reserve_amount cfg b = input_budget b * cfg.input_rate + b.max_tokens * b.n * cfg.output_rate

abbrev pub hold_of : Runtime → Budgets → Request → String → Hold
hold_of cfg budgets r idem = record {
  key_id = r.key_id;
  wallet = r.wallet;
  amount = int (pos (reserve_amount cfg r.body));
  idem = idem;
  model = r.body.model;
  rate_limit = cfg.config.rpm;
  daily_budget = budgets.daily;
  wallet_daily_budget = budgets.wallet_daily;
}

-- The reservation with its error replies, then the dispatch.
unfoldable pub admitted :
    Host → (Value → String) → Runtime → Request → Hold → Sending → ℕ → Db → Reply × Db
admitted host shown cfg r h sending now db = elim (reserve h r.rid now db) [
  | err (value_error message) ↦ (http_error (refusal message), db)
  | err e ↦ (crashed e, db)
  | ok (rid, db') ↦ dispatch host shown cfg r.body rid sending now db'
]

-- `available <= 0`, or no balance to read
abbrev pub is_unfunded : Option ℕ → Bool
is_unfunded none = true
is_unfunded (some available) = leb available 0

-- The checks before the reservation: the status of the first that fails.
unfoldable pub blocked : Host → Runtime → Request → String → Option ℕ → Db → Option ℕ
blocked host cfg r idem available db =
    if r.body.stream
    then some 400
    else if needs_review db
    then some 503
    else if ltb cfg.config.max_request_bytes r.body.json_bytes
    then some 413
    else if ltb 100 (len idem) || not (host.is_printable idem)
    then some 400
    else if is_unfunded available
    then some 503
    else none

-- The prepaid half of `chat(body, request)`.
unfoldable pub prepaid_chat :
    Host → (Value → String) → Runtime → Budgets → Request → Option ℕ → Sending → ℕ → Db → Reply × Db
prepaid_chat host shown cfg budgets r available sending now db =
    let idem = idem_of r.idempotency_key r.drawn_idem in
    elim (blocked host cfg r idem available db) [
      | some status ↦ (http_error status, db)
      | none ↦ admitted host shown cfg r (hold_of cfg budgets r idem) sending now db
    ]
