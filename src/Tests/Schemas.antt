-- ===== src/Tests/Schemas.antt =====
-- A JSON schema within the limits.
use slipvolt.Base.{◌≡◌, ◌↔◌, refl, String, some, none, [], ◌∷◌}
use slipvolt.Base.Result.{ok}
use slipvolt.Value.{Value, Fields, str, arr, obj, nil, cons, end, field, get, get?}
use slipvolt.Host.{len}
use slipvolt.Structured.{Encoder, push_fields, push_items, children, walk, bounded_object}
use slipvolt.Structured.Fitting.{IsBounded, bounded_object-IsBounded}
use slipvolt.Structured.Extensions.{
  Extensions, validate_extensions, check_template, check_optional, check_tools, check_messages,
  function_of, function_name, check_parameters,
}
use slipvolt.Structured.Tools.{IsOrderly, validate_extensions-IsOrderly}

abbrev encoder : Encoder
encoder = record { dumped = λ v. ok 90; encoded = len }

abbrev schema : Value
schema = obj (
    field "type" (str "object") (
      field "anyOf"
        (arr (
          cons (obj (field "pattern" (str "[a-z]+") end))
            (cons (obj (field "enum" (arr (cons (str "a") (cons (str "b") nil))) end)) nil)))
        end))

bounded_object-schema : bounded_object encoder 9 schema ≡ ok tt
unfolding bounded_object walk children push_fields push_items get?
bounded_object-schema = refl

bounded_object-IsBounded_example :
    (bounded_object encoder 9 schema ≡ ok tt) ↔ IsBounded encoder 9 schema
bounded_object-IsBounded_example = bounded_object-IsBounded encoder 9 schema

abbrev tool : String → Fields
tool name =
    field "type" (str "function")
      (field "function" (obj (field "name" (str name) (field "parameters" schema end))) end)

abbrev extensions : Extensions
extensions = record {
  response_format = some (field "type" (str "json_object") end);
  structured_outputs = none;
  chat_template_kwargs = none;
  tools = tool "search" ∷ tool "fetch" ∷ [];
  messages = [];
}

validate_extensions-extensions : validate_extensions encoder extensions ≡ ok tt
unfolding validate_extensions check_template check_optional check_tools check_messages function_of
    function_name check_parameters bounded_object walk children push_fields push_items get get?
validate_extensions-extensions = refl

validate_extensions-IsOrderly_example : IsOrderly encoder extensions
validate_extensions-IsOrderly_example =
    validate_extensions-IsOrderly encoder extensions validate_extensions-extensions
