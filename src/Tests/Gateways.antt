-- ===== src/Tests/Gateways.antt =====
-- The gateway at a concrete request.
use slipvolt.Base.{true, ◌≡◌, refl, false, none, some, List, [], ◌∷◌}
use slipvolt.Base.Int.{pos}
use slipvolt.Base.Result.{ok}
use slipvolt.Value.{get?, get, integer, Value, Fields, int, str, arr, obj, field, end, nil, cons}
use slipvolt.Settlement.{usage_details, optional_integer}
use slipvolt.Usage.{Reported, parse_usage, parse_fields, details_of, check_total, usage_value}
use slipvolt.Usage.Accepted.{usage_details-usage_value}
use slipvolt.Gateway.{Config, Request, read, answered, call}
use slipvolt.Gateway.Served.{Served, call-Served}
use slipvolt.Gateway.Stream.{Event, finished, frame, fresh_flow, stream}
use slipvolt.Gateway.Streamed.{Streamed, stream-Streamed}
use slipvolt.Tests.Holder.{host, empty, first, at_noon, empty-IsSound, first-IsSound}

abbrev pub config : Config
config = record {
  wallet_daily = 1000;
  global_daily = 5000;
  ngonka_per_token = 10;
  rpm = 30;
  wallet_concurrency = 2;
  global_rpm = 300;
  global_concurrency = 50;
  max_request_bytes = 1000;
}

abbrev pub inquiry : Request
inquiry = record {
  key_id = "k1";
  wallet = "w1";
  body = record {
    model = "m";
    max_tokens = 5;
    n = 1;
    stream = false;
    json_bytes = 20;
    input_bytes = 20;
    messages = 0;
  };
  idempotency_key = some "i1";
  drawn_idem = "d1";
  rid = "r1";
}

abbrev provider_usage : Value
provider_usage =
    obj (field "prompt_tokens" (int (pos 20)) (field "completion_tokens" (int (pos 5)) end))

abbrev pub answer : Value
answer = obj (
    field "id" (str "u1") (
      field "choices"
        (arr (
          cons
            (obj (
              field "message"
                (obj (field "role" (str "assistant") (field "content" (str "Hello") end))) end))
            nil))
        (field "usage" provider_usage end)))

-- What the provider's accounts say of the request.
abbrev pub costs : Fields
costs = field "id" (str "u1") (
    field "model" (str "m") (
      field "total_tokens" (int (pos 25))
        (field "cost_ngonka" (str "200") (field "cost_source" (str "devshard_1") end))))

call-Served_example :
    let (reply, db') =
      call host config inquiry
        (some 100000)
        (answered "x1" 200 (read answer (some costs) true))
        at_noon
        empty in
    Served "r1" empty reply db'
call-Served_example =
    call-Served host config inquiry (some 100000)
      (answered "x1" 200 (read answer (some costs) true)) at_noon empty empty-IsSound refl

abbrev events : List Event
events = frame 40 answer ∷ finished 12 (some costs) ∷ []

stream-Streamed_example :
    Streamed "r1" first (stream "r1" "m" 10 1 (fresh_flow (some "x1")) events first)
stream-Streamed_example =
    stream-Streamed "r1" "m" 10 1 (fresh_flow (some "x1")) events first first-IsSound

abbrev reported : Reported
reported = record { prompt = 20; completion = 5; total = 25; cached = none; reasoning = none }

parsed : parse_usage provider_usage ≡ ok reported
unfolding parse_usage parse_fields get? integer check_total details_of get optional_integer
parsed = refl

usage_details-usage_value_example :
    usage_details (usage_value reported) 25
    ≡ ok (record { prompt = some 20; completion = some 5; cached = none; reasoning = none })
usage_details-usage_value_example = usage_details-usage_value provider_usage reported parsed
