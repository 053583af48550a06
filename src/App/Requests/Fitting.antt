-- ===== src/App/Requests/Fitting.antt =====
-- An accepted completion request fits its model and the operator's caps.
use mathlib.Core.Path.{subst}
use slipvolt.Base.{refl, ℕ, ◌+◌, ◌≤◌, ◌≡◌, String, Option, none, some, List, arith, ltb}
use slipvolt.App.Http.{granted, >>=-eq-granted, or_refuse, refuse_if-passed, or_refuse_found}
use slipvolt.ModelPolicy.{Row}
use slipvolt.Gateway.{Body, Config, input_budget, prepare}
use slipvolt.App.Requests.{
  Runtime, Chat, by_id, requested_tokens, positive_limit, body_with, output_tokens,
  normalize_completion_request,
}

-- What an accepted request satisfies.
pub record IsFitting (cfg : Runtime) (chat : Chat) (models : List (String × Row)) (row : Row)
    (body : Body) : Type 0 where
  pub output : ℕ
  pub context : ℕ
  pub listed : by_id chat.model models ≡ some row
  pub written : body ≡ body_with chat body.max_tokens
  pub asked : (n : ℕ) → requested_tokens chat ≡ some n → body.max_tokens ≡ n
  pub limits : (row.max_completion_tokens ≡ some output) × (row.context_length ≡ some context)
  pub capped : (body.max_tokens ≤ output) × (body.max_tokens ≤ cfg.max_output_tokens)
  pub fits : input_budget body + body.max_tokens ≤ context
  pub small : body.json_bytes ≤ cfg.config.max_request_bytes

positive_limit-some : (o : Option ℕ) (n : ℕ) → positive_limit o ≡ some n → (o ≡ some n) × (1 ≤ n)
positive_limit-some none n e = ground arith
positive_limit-some (some m) n e = ground arith

output_tokens_range :
    (cfg : Runtime) (cap : ℕ) (chat : Chat) (n : ℕ)
    → output_tokens cfg cap chat ≡ granted n
    → (n ≤ cap) × (n ≤ cfg.max_output_tokens) × ((m : ℕ) → requested_tokens chat ≡ some m → n ≡ m)
unfolding output_tokens
output_tokens_range cfg cap chat n e = (ground arith, ground arith, λ m f. ground arith)

prepare_small :
    (cfg : Config) (b : Body) (tokens : ℕ)
    → prepare cfg b ≡ some tokens
    → b.json_bytes ≤ cfg.max_request_bytes
unfolding prepare
prepare_small cfg b tokens e = ground arith

-- An accepted request names a listed model with an output limit and a context, asks for no more
-- tokens than that limit and the operator's cap, has the number that the client asked for, and with
-- its input estimate fits the context.
pub normalize_completion_request-IsFitting :
    (cfg : Runtime) (chat : Chat) (models : List (String × Row)) (row : Row) (body : Body)
    → normalize_completion_request cfg chat models ≡ granted (row, body)
    → IsFitting cfg chat models row body
unfolding normalize_completion_request
normalize_completion_request-IsFitting cfg chat models row body e =
    let (meta, f1, e1) = >>=-eq-granted (or_refuse (by_id chat.model models) 400) _ e in
    let (cap, f2, e2) =
      >>=-eq-granted (or_refuse (positive_limit meta.max_completion_tokens) 503) _ e1 in
    let (tokens, f3, e3) = >>=-eq-granted (output_tokens cfg cap chat) _ e2 in
    let (context, f4, e4) =
      >>=-eq-granted (or_refuse (positive_limit meta.context_length) 503) _ e3 in
    let made = body_with chat tokens in
    let (total, f5, e5) = >>=-eq-granted (or_refuse (prepare cfg.config made) 413) _ e4 in
    let (fitting, last) = refuse_if-passed (ltb context (input_budget made + tokens)) 400 _ e5 in
    let range = output_tokens_range cfg cap chat tokens f3 in
    let limit = positive_limit-some meta.max_completion_tokens cap (or_refuse_found _ 503 f2) in
    let window = positive_limit-some meta.context_length context (or_refuse_found _ 503 f4) in
    let small = prepare_small cfg.config made total (or_refuse_found _ 413 f5) in
    let listed = or_refuse_found (by_id chat.model models) 400 f1 in
    let fitted : IsFitting cfg chat models meta made = record {
      output = cap;
      context = context;
      listed = listed;
      written = refl;
      asked = range.2;
      limits = (limit.0, window.0);
      capped = (range.0, range.1);
      fits = ground arith;
      small = small;
    } in
    let same_row : meta ≡ row = ground arith in
    let same_body : made ≡ body = ground arith in
    subst (λ b. IsFitting cfg chat models row b) same_body
      (subst (λ m. IsFitting cfg chat models m made) same_row fitted)
