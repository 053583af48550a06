-- ===== src/Tests/Routes.antt =====
-- The routes at concrete requests.
use slipvolt.Host.{len}
use slipvolt.Base.{◌≡◌, refl, ap, String, Bool, true, false, none, some, List, [], ◌∷◌, arith}
use slipvolt.Base.Int.{pos}
use slipvolt.Base.Result.{ok}
use slipvolt.Value.{Value, int, str, arr, obj, field, end, nil, cons, get, get?}
use slipvolt.Gateway.{answered as dispatched, read as read_whole, prepare}
use slipvolt.ModelPolicy.{Row}
use slipvolt.Sessions.Throttle.{Keeper, throttle}
use slipvolt.Sessions.{consume_challenge, new_session, insert_session, session_row}
use slipvolt.Prepaid.{ensure_account}
use slipvolt.Address.{
  index, base58, halvings, bit_length, to_bytes, raw_bytes, decode_codes, decode_address,
}
use slipvolt.TokenAudit.{object, labelled_integer, raw_of_codes, raw_amount, text}
use slipvolt.App.Http.{granted}
use slipvolt.App.Requests.{Runtime, Chat, output_tokens, normalize_completion_request, body_with}
use slipvolt.App.Requests.Fitting.{IsFitting, normalize_completion_request-IsFitting}
use slipvolt.App.PrepaidChat.{Budgets, answered, read, prepaid_chat}
use slipvolt.App.PrepaidChat.Served.{IsServed, prepaid_chat-IsServed}
use slipvolt.App.Eligibility.{
  Mode, Site, Standing, entry, lookup, check_holder, account_amount, account_info, counted_amount,
  fresh_address, token_total, listed_accounts, holding_of, finalized_holding, without_lookup,
  eligibility,
}
use slipvolt.App.Eligibility.Counted.{IsCounted, eligibility-IsCounted}
use slipvolt.App.Ingress.{Moment, limited}
use slipvolt.App.SignIn.{verify, verify_challenge, open_session}
use slipvolt.App.SignIn.Proven.{IsProven, verify-IsProven}
use slipvolt.App.Inference.{Server, Call, Provider, chat}
use slipvolt.App.Inference.Closed.{LeavesNothing, chat-LeavesNothing}
use slipvolt.Tests.Holder.{host, key, empty, at_noon}
use slipvolt.Settlement.Lifecycle.{IsSound}
use slipvolt.Tests.Prepaid.{funded}
use slipvolt.Tests.Access.{asked}
use slipvolt.Tests.Gateways.{config, inquiry, answer, costs}

abbrev runtime : Runtime
runtime = record {
  config = config;
  default_output_tokens = 64;
  max_output_tokens = 128;
  input_rate = 0;
  output_rate = 10;
  maintenance_mode = false;
}

abbrev question : Chat
question = record {
  model = "m";
  max_tokens = some 5;
  max_completion_tokens = none;
  n = 1;
  stream = false;
  json_bytes = λ tokens. 20;
  input_bytes = λ tokens. 20;
  messages = 0;
}

abbrev model_row : Row
model_row = record {
  context_length = some 4096;
  max_completion_tokens = some 100;
  discovered_context_length = none;
  discovered_max_completion_tokens = none;
  discovery_limits_status = "unknown";
  context_limit_source = some "reviewed_policy";
  completion_limit_source = some "reviewed_policy";
  operator_override_configured = false;
}

abbrev rows : List (String × Row)
rows = ("m", model_row) ∷ []

normalized :
    normalize_completion_request runtime question rows ≡ granted (model_row, body_with question 5)
unfolding normalize_completion_request output_tokens prepare
normalized = refl

normalize_completion_request-IsFitting_example :
    IsFitting runtime question rows model_row (body_with question 5)
normalize_completion_request-IsFitting_example =
    normalize_completion_request-IsFitting runtime question rows model_row (body_with question 5)
      normalized

abbrev shown : Value → String
shown v = "u1"

abbrev budgets : Budgets
budgets = record { daily = some 1000; wallet_daily = none }

prepaid_chat-IsServed_example :
    let (reply, db') =
      prepaid_chat host shown runtime budgets inquiry
        (some 100)
        (answered "x1" 200 (read answer true))
        at_noon
        funded in
    IsServed host "r1" funded reply db'
prepaid_chat-IsServed_example =
    prepaid_chat-IsServed host shown runtime budgets inquiry (some 100)
      (answered "x1" 200 (read answer true)) at_noon funded refl

abbrev address : String
address = "11111111111111111111111111111111"

abbrev site : Site
site = record {
  mode = Mode.holder_allowance;
  production = true;
  holder_mint = address;
  holder_token_decimals = 6;
  min_holding_raw = 40;
}

abbrev token_account : Value
token_account = obj (
    field "owner" (str "TokenkegQfeZyiNwAJbNbGKPFXCWuBvf9Ss623VQ5DA") (
      field "data"
        (obj (
          field "parsed"
            (obj (
              field "info"
                (obj (
                  field "mint" (str address) (
                    field "owner" (str "w1") (
                      field "state" (str "initialized") (
                        field "tokenAmount"
                          (obj (field "amount" (str "50") (field "decimals" (int (pos 6)) end)))
                          end)))))
                end))
            end))
        end))

abbrev holdings : Value
holdings = obj (
    field "context" (obj (field "slot" (int (pos 9)) end)) (
      field "value"
        (arr (cons (obj (field "pubkey" (str address) (field "account" token_account end))) nil))
        end))

abbrev standing : Standing
standing = record {
  eligible = true;
  holding = some 50;
  slot = some 9;
  requires_funded_credit = false;
}

looked_up : eligibility site "w1" (ok tt) (ok holdings) ≡ granted standing
unfolding eligibility without_lookup finalized_holding object holding_of get get? listed_accounts
    entry labelled_integer token_total fresh_address decode_address decode_codes base58 index
    raw_bytes to_bytes bit_length halvings text counted_amount account_info check_holder
    account_amount lookup raw_amount raw_of_codes
looked_up = refl

not_skipped : without_lookup site ≡ none
unfolding without_lookup
not_skipped = refl

eligibility-IsCounted_example : IsCounted site "w1" (ok holdings) standing
eligibility-IsCounted_example =
    eligibility-IsCounted site "w1" (ok tt) (ok holdings) standing not_skipped looked_up

abbrev moment : Moment
moment = record { now = at_noon; monotonic = 5 }

abbrev asking : Keeper
asking = record { db = asked; last_housekeeping = some 5 }

abbrev accepts : String → String → String → Bool
accepts wallet message signature = true

abbrev signed_in : Keeper
signed_in = record {
  db = record empty {
    accounts = record { wallet = "w1"; balance_nusd = pos 0 } ∷ [];
    sessions = session_row host "w1" "t1" at_noon ∷ [];
    rate_hits = record { bucket = "verify10.0.0.1"; created = at_noon } ∷ [];
  };
  last_housekeeping = some 5;
}

opened :
    verify host accepts "10.0.0.1" "c1" "s" "t1" moment asking ≡ (granted ("w1", "t1"), signed_in)
unfolding verify limited throttle verify_challenge consume_challenge open_session new_session
    insert_session ensure_account
opened = refl

verify-IsProven_example : IsProven host accepts "c1" "s" moment asking "w1" "t1" signed_in
verify-IsProven_example =
    verify-IsProven host accepts "10.0.0.1" "c1" "s" "t1" moment asking signed_in "w1" "t1"
      (refl, tt) (λ e. omega (arith, ap len e)) opened

abbrev server : Server
server = record {
  mode = Mode.holder_allowance;
  provider_configured = true;
  rows = rows;
  live = true;
  health = [];
  standing = λ wallet. granted standing;
  budgets = budgets;
}

abbrev call : Call
call = record {
  ip = "10.0.0.1";
  authorization = "Bearer sv_1";
  chat = question;
  idempotency_key = some "i1";
  drawn_idem = "d1";
  rid = "r1";
}

abbrev provider : Provider
provider = record {
  available = some 100000;
  dispatch = dispatched "x1" 200 (read_whole answer (some costs) true);
  sending = answered "x1" 200 (read answer true);
  shown = shown;
}

abbrev quiet : Keeper
quiet = record {
  db = record empty { api_keys = record key { hash = "sv_1" } ∷ [] };
  last_housekeeping = some 5;
}

quiet-IsSound : IsSound quiet.db
quiet-IsSound = record { projected = refl; apart = tt }

chat-LeavesNothing_example :
    let (reply, k') = chat host server runtime provider call moment quiet in
    LeavesNothing "r1" reply k'.db
chat-LeavesNothing_example =
    chat-LeavesNothing host server runtime provider call moment quiet quiet-IsSound (refl, refl)
