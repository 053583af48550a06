-- ===== src/Structured/Tools.antt =====
-- What the tools of a request that was let through are.
use slipvolt.Base.{
  ◌≡◌, refl, sym, ap, ◌∙◌, ◌⊎◌, inl, inr, All, String, Bool, true, false, not, ◌&&◌, ◌||◌, Option,
  some, List, [], ◌∷◌, arith, str_eq, eq_iff, any, map, is_some,
}
use mathlib.Core.Path.{subst}
use slipvolt.Base.Result.{ok, >>=-eq-ok, raise_if-passed}
use slipvolt.Value.{Value, Fields, null, str, obj, end, get}
use slipvolt.Structured.{Encoder}
use slipvolt.Structured.Fitting.{IsBounded, bounded_object-IsBounded}
use slipvolt.Structured.Extensions.{
  Extensions, is_kind, text_or_empty, is_name, function_of, function_name, check_parameters,
  check_tools, check_template, check_optional, repeats, validate_extensions,
}

-- The object under "function", and the name in it.
abbrev pub fields_or_end : Value → Fields
fields_or_end (obj d) = d
fields_or_end _ = end

abbrev pub tool_name : Fields → String
tool_name tool = text_or_empty (get "name" (fields_or_end (get "function" tool)))

-- A parameter schema that is absent, or an object within the limits.
abbrev pub IsParameters : Encoder → Value → Type 0
IsParameters encoder v = (v ≡ null) ⊎ ((d : Fields) × (v ≡ obj d) × IsBounded encoder 256 (obj d))

abbrev pub IsTool : Encoder → Fields → Type 0
IsTool encoder tool =
    (is_kind "function" (get "type" tool) ≡ true)
    × (is_name (tool_name tool) ≡ true)
    × IsParameters encoder (get "parameters" (fields_or_end (get "function" tool)))

split_new : (a b c : Bool) → (not (a || b) && c) ≡ true → (a ≡ false) × (b ≡ false) × (c ≡ true)
split_new a b c h = ground arith

str_eq_sym : (a b : String) → str_eq a b ≡ str_eq b a
str_eq_sym a b = grind (arith, eq_iff)

function_of-eq :
    (tool f : Fields)
    → function_of tool ≡ ok f
    → (is_kind "function" (get "type" tool) ≡ true) × (fields_or_end (get "function" tool) ≡ f)
unfolding function_of
function_of-eq tool f e = ground arith

function_name-eq :
    (v : Value) (name : String)
    → function_name v ≡ ok name
    → (is_name name ≡ true) × (text_or_empty v ≡ name)
unfolding function_name
function_name-eq (str s) name e =
    let (good, e1) = raise_if-passed (not (is_name s)) _ _ e in
    let same : s ≡ name = cc in (ap is_name (sym same) ∙ ground arith, same)
function_name-eq v name e = absurd (ground arith)

check_parameters-IsParameters :
    (encoder : Encoder) (v : Value) → check_parameters encoder v ≡ ok tt → IsParameters encoder v
unfolding check_parameters
check_parameters-IsParameters encoder null e = inl refl
check_parameters-IsParameters encoder (obj d) e =
    inr (d, refl, (bounded_object-IsBounded encoder 256 (obj d)).0 e)
check_parameters-IsParameters encoder v e = absurd (ground arith)

-- No name of the list was seen before.
abbrev are_new : List String → List String → Bool
are_new seen [] = true
are_new seen (n ∷ ns) = not (any (str_eq n) seen) && are_new seen ns

are_new-cons :
    (n : String) (seen ns : List String)
    → are_new (n ∷ seen) ns ≡ true
    → (any (str_eq n) ns ≡ false) × (are_new seen ns ≡ true)
are_new-cons n seen [] h = (refl, refl)
are_new-cons n seen (m ∷ ns) h =
    let (apart, fresh, later) =
      split_new (str_eq m n) (any (str_eq m) seen) (are_new (n ∷ seen) ns) h in
    let (absent, kept) = are_new-cons n seen ns later in
    (ground (arith, str_eq_sym n m, apart, absent), ground (arith, fresh, kept))

check_tools_sound :
    (encoder : Encoder) (names : List String) (tools : List Fields)
    → check_tools encoder names tools ≡ ok tt
    → All (IsTool encoder) tools
      × (repeats (map tool_name tools) ≡ false)
      × (are_new names (map tool_name tools) ≡ true)
unfolding check_tools repeats
check_tools_sound encoder names [] e = (tt, refl, refl)
check_tools_sound encoder names (tool ∷ tools) e =
    let (f, ef, e1) = >>=-eq-ok (function_of tool) _ e in
    let (name, en, e2) = >>=-eq-ok (function_name (get "name" f)) _ e1 in
    let (fresh, e3) = raise_if-passed (any (str_eq name) names) _ _ e2 in
    let (done, ep, e4) = >>=-eq-ok (check_parameters encoder (get "parameters" f)) _ e3 in
    let (kind, found) = function_of-eq tool f ef in
    let (fit, text) = function_name-eq (get "name" f) name en in
    let same : tool_name tool ≡ name = ap (λ d. text_or_empty (get "name" d)) found ∙ text in
    let (sound, distinct, new) = check_tools_sound encoder (name ∷ names) tools e4 in
    let (absent, old) = are_new-cons name names (map tool_name tools) new in
    (
      (
        (
          kind,
          ap is_name same ∙ fit,
          subst (λ d. IsParameters encoder (get "parameters" d)) (sym found)
              (check_parameters-IsParameters encoder (get "parameters" f) ep),
        ),
        sound,
      ),
      ap (λ n. any (str_eq n) (map tool_name tools) || repeats (map tool_name tools)) same
          ∙ ground (arith, absent, distinct),
      ap (λ n. not (any (str_eq n) names) && are_new names (map tool_name tools)) same
          ∙ ground (arith, fresh, old),
    )

-- What the fields of an accepted request keep to.
pub record IsOrderly (encoder : Encoder) (body : Extensions) : Type 0 where
  pub sound : All (IsTool encoder) body.tools
  pub distinct : repeats (map tool_name body.tools) ≡ false
  pub single : (is_some body.response_format && is_some body.structured_outputs) ≡ false
  pub format : (d : Fields) → body.response_format ≡ some d → IsBounded encoder 256 (obj d)
  pub outputs : (d : Fields) → body.structured_outputs ≡ some d → IsBounded encoder 256 (obj d)

check_optional-IsBounded :
    (encoder : Encoder) (o : Option Fields)
    → check_optional encoder o ≡ ok tt
    → (d : Fields) → o ≡ some d
    → IsBounded encoder 256 (obj d)
unfolding check_optional
check_optional-IsBounded encoder o e d given =
    (bounded_object-IsBounded encoder 256 (obj d)).0
      (sym (ap (λ x. check_optional encoder x) given) ∙ e)

-- A request that validate_extensions lets through: every tool is a function tool with an allowed name
-- and, where it has parameters, an object within the limits; no two tools share a name; of
-- response_format and structured_outputs at most one is given, and it is within the limits.
pub validate_extensions-IsOrderly :
    (encoder : Encoder) (body : Extensions)
    → validate_extensions encoder body ≡ ok tt
    → IsOrderly encoder body
unfolding validate_extensions
validate_extensions-IsOrderly encoder body e =
    let (single, e1) =
      raise_if-passed (is_some body.response_format && is_some body.structured_outputs) _ _ e in
    let (t, et, e2) = >>=-eq-ok (check_template encoder body.chat_template_kwargs) _ e1 in
    let (r, er, e3) = >>=-eq-ok (check_optional encoder body.response_format) _ e2 in
    let (s, es, e4) = >>=-eq-ok (check_optional encoder body.structured_outputs) _ e3 in
    let (n, en, e5) = >>=-eq-ok (check_tools encoder [] body.tools) _ e4 in
    let (sound, distinct, new) = check_tools_sound encoder [] body.tools en in
    record {
      sound = sound;
      distinct = distinct;
      single = single;
      format = check_optional-IsBounded encoder body.response_format er;
      outputs = check_optional-IsBounded encoder body.structured_outputs es;
    }
