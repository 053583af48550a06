-- ===== src/Structured/Extensions.antt =====
-- The checks on tools, templates and message parts (gridraft/request_policy.py: validate_extensions).
use slipvolt.Base.{
  ℕ, String, Bool, true, false, not, ◌&&◌, ◌||◌, Option, none, some, List, [], ◌∷◌, str_eq, any,
  map, is_some, leb, ◌==◌, if◌then◌else◌,
}
use slipvolt.Base.Result.{Result, ok, err, value_error, ◌>>=◌, ◌>>◌, raise_if}
use slipvolt.Host.{len}
use slipvolt.Burn.{codes}
use slipvolt.Value.{Value, Fields, null, str, obj, get, get?}
use slipvolt.Structured.{Encoder, bounded_object}

-- A message: its parts where `content` is a list, and its tool calls.
pub record ChatMessage : Type 0 where
  pub parts : List Fields
  pub tool_calls : List Fields

-- The fields of the request that are checked.
pub record Extensions : Type 0 where
  pub response_format : Option Fields
  pub structured_outputs : Option Fields
  pub chat_template_kwargs : Option Fields
  pub tools : List Fields
  pub messages : List ChatMessage

-- TEMPLATE_DENY
abbrev pub template_deny : List String
template_deny =
    "chat_template" ∷ "tokenize" ∷ "tools" ∷ "documents" ∷ "conversation" ∷ "continue_final_message"
    ∷ "padding" ∷ "truncation" ∷ "max_length" ∷ "return_tensors" ∷ "return_dict" ∷ []

unfoldable pub check_template : Encoder → Option Fields → Result (Unit {0})
check_template encoder none = ok tt
check_template encoder (some d) = do
  raise_if (any (λ key. is_some (get? key d)) template_deny) "Unsafe chat template override"
  bounded_object encoder 128 (obj d)

-- `if obj is not None: bounded_object(obj)`
unfoldable pub check_optional : Encoder → Option Fields → Result (Unit {0})
check_optional encoder none = ok tt
check_optional encoder (some d) = bounded_object encoder 256 (obj d)

-- `value == kind`, for a text
abbrev pub is_kind : String → Value → Bool
is_kind kind (str s) = str_eq s kind
is_kind kind _ = false

abbrev pub text_or_empty : Value → String
text_or_empty (str s) = s
text_or_empty _ = ""

-- `tool.get('function')` of a function tool
unfoldable pub function_of : Fields → Result Fields
function_of tool = elim (get "function" tool) [
  | obj f ↦
      if is_kind "function" (get "type" tool)
      then ok f
      else err (value_error "Only function tools are supported")
  | _ ↦ err (value_error "Only function tools are supported")
]

-- `[A-Za-z0-9_-]`
abbrev pub is_name_code : ℕ → Bool
is_name_code c =
    (leb 65 c && leb c 90)
    || (leb 97 c && leb c 122)
    || (leb 48 c && leb c 57)
    || c == 95
    || c == 45

-- `re.fullmatch(r'[A-Za-z0-9_-]{1,64}', name)`
abbrev pub is_name : String → Bool
is_name s = leb 1 (len s) && leb (len s) 64 && not (any (λ c. not (is_name_code c)) (codes s))

unfoldable pub function_name : Value → Result String
function_name (str s) = do raise_if (not (is_name s)) "Invalid function name"; ok s
function_name _ = err (value_error "Invalid function name")

unfoldable pub check_parameters : Encoder → Value → Result (Unit {0})
check_parameters encoder null = ok tt
check_parameters encoder (obj d) = bounded_object encoder 256 (obj d)
check_parameters encoder _ = err (value_error "Function parameters must be an object")

-- The loop over the tools, with the names that were seen.
unfoldable pub check_tools : Encoder → List String → List Fields → Result (Unit {0})
check_tools encoder names [] = ok tt
check_tools encoder names (tool ∷ tools) = do
  f ← function_of tool
  name ← function_name (get "name" f)
  raise_if (any (str_eq name) names) "Duplicate function tool name"
  check_parameters encoder (get "parameters" f)
  check_tools encoder (name ∷ names) tools

abbrev pub is_string : Value → Bool
is_string (str s) = true
is_string _ = false

-- `part.get('type') == 'text' and isinstance(part.get('text'), str)`
abbrev pub is_text_part : Fields → Bool
is_text_part part = is_kind "text" (get "type" part) && is_string (get "text" part)

-- A call's id that is no text counts as the empty one, which is refused alike.
abbrev pub id_of : Fields → String
id_of call = text_or_empty (get "id" call)

-- `len(set(ids)) != len(ids)`
unfoldable pub repeats : List String → Bool
repeats [] = false
repeats (i ∷ ids) = any (str_eq i) ids || repeats ids

-- The loop over the messages.
unfoldable pub check_messages : List ChatMessage → Result (Unit {0})
check_messages [] = ok tt
check_messages (m ∷ messages) = do
  raise_if (any (λ part. not (is_text_part part)) m.parts) "Only text content parts are supported"
  raise_if (any (str_eq "") (map id_of m.tool_calls) || repeats (map id_of m.tool_calls))
      "Tool-call IDs must be non-empty and unique in a message"
  check_messages messages

-- `validate_extensions(body)`
unfoldable pub validate_extensions : Encoder → Extensions → Result (Unit {0})
validate_extensions encoder body = do
  raise_if (is_some body.response_format && is_some body.structured_outputs)
      "Choose either response_format or structured_outputs, not both"
  check_template encoder body.chat_template_kwargs
  check_optional encoder body.response_format
  check_optional encoder body.structured_outputs
  check_tools encoder [] body.tools
  check_messages body.messages
