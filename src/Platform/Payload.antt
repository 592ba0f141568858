-- ===== src/Platform/Payload.antt =====
-- `_parse_resolve_payload` of otari/src/gateway/api/routes/_platform.py, on a parsed JSON value; none
-- where it raises. Python's `str` and `int` of a value that is no text or no integer are arguments.
use mozilla_ai.Common.{
  String, Bool, true, false, not, Option, none, some, List, [], ◌∷◌, ◌==◌, if◌then◌else◌, str_eq,
  string_eq,
}
use mozilla_ai.Platform.{ResolvedAttempt, ResolvedRoute}
use mozilla_ai.Common.Int.{ℤ, pos, negsuc}

-- a JSON value; of a decimal number, whether it is not zero and its text; an object has its pairs of
-- a key and a value in order, each key once
mutual
  pub data Json : Type 0 where
    null : Json
    boolean : Bool → Json
    integer : ℤ → Json
    decimal : Bool → String → Json
    text : String → Json
    array : Items → Json
    object : Fields → Json

  pub data Items : Type 0 where
    no_items : Items
    item : Json → Items → Items

  pub data Fields : Type 0 where
    no_fields : Fields
    field : String → Json → Fields → Fields

-- `d.get(k)`
abbrev pub get : String → Fields → Option Json
get k no_fields = none
get k (field j v fields) = if str_eq j k then some v else get k fields

abbrev pub is_truthy : Json → Bool
is_truthy null = false
is_truthy (boolean b) = b
is_truthy (integer (pos n)) = not (n == 0)
is_truthy (integer (negsuc n)) = true
is_truthy (decimal nonzero s) = nonzero
is_truthy (text s) = not (str_eq s "")
is_truthy (array no_items) = false
is_truthy (array (item _ _)) = true
is_truthy (object no_fields) = false
is_truthy (object (field _ _ _)) = true

-- `bool(d.get(k, False))`
abbrev pub flag : Option Json → Bool
flag none = false
flag (some v) = is_truthy v

-- a field of the type `str | None`, with the default None
abbrev pub optional_text : Option Json → Option (Option String)
optional_text none = some none
optional_text (some null) = some none
optional_text (some (text s)) = some (some s)
optional_text (some _) = none

-- `str` and `int` of the values that are no text or no integer; `int` may raise
pub record Conversions : Type 0 where
  pub str_of : Json → String
  pub int_of : Json → Option ℤ

abbrev pub map_option : {A B : Type 0} → (A → B) → Option A → Option B
map_option f none = none
map_option f (some a) = some (f a)

infixl 20 ◌>>=◌
abbrev pub ◌>>=◌ : {A B : Type 0} → Option A → (A → Option B) → Option B
none >>= f = none
some a >>= f = f a

-- the elements that a `for` loop takes from a value; a text has its characters, an object its keys,
-- and the other values are not iterable
abbrev pub chars : String → Items
chars String.[] = no_items
chars (String.◌∷◌ c s) = item (text (String.◌∷◌ c "")) (chars s)

abbrev pub keys : Fields → Items
keys no_fields = no_items
keys (field k v fields) = item (text k) (keys fields)

abbrev pub iterate : Json → Option Items
iterate (array xs) = some xs
iterate (text s) = some (chars s)
iterate (object fields) = some (keys fields)
iterate null = none
iterate (boolean b) = none
iterate (integer n) = none
iterate (decimal nonzero s) = none

module _ (python : Conversions) where
  abbrev pub str : Json → String
  str (text s) = s
  str null = python.str_of null
  str (boolean b) = python.str_of (boolean b)
  str (integer n) = python.str_of (integer n)
  str (decimal nonzero s) = python.str_of (decimal nonzero s)
  str (array xs) = python.str_of (array xs)
  str (object fields) = python.str_of (object fields)

  abbrev pub int : Json → Option ℤ
  int (integer n) = some n
  int null = python.int_of null
  int (boolean b) = python.int_of (boolean b)
  int (decimal nonzero s) = python.int_of (decimal nonzero s)
  int (text s) = python.int_of (text s)
  int (array xs) = python.int_of (array xs)
  int (object fields) = python.int_of (object fields)

  -- `str(d[k])`
  abbrev pub str_field : String → Fields → Option String
  str_field k fields = map_option str (get k fields)

  -- `int(d[k])`
  abbrev pub int_field : String → Fields → Option ℤ
  int_field k fields = elim (get k fields) [ none ↦ none | some v ↦ int v ]

  -- an attempt, of its two first fields and the object that has the others
  abbrev pub attempt_of : String → ℤ → Fields → Option ResolvedAttempt
  attempt_of attempt_id position fields = do
    provider ← str_field "provider" fields
    model ← str_field "model" fields
    api_key ← str_field "api_key" fields
    api_base ← optional_text (get "api_base" fields)
    some (record {
      attempt_id = attempt_id;
      position = position;
      provider = provider;
      model = model;
      api_base = api_base;
      api_key = api_key;
      managed = flag (get "managed" fields);
    })

  -- `att["attempt_id"]` of a value that is no object raises
  abbrev pub new_attempt : Json → Option ResolvedAttempt
  new_attempt (object att) = do
    attempt_id ← str_field "attempt_id" att
    position ← int_field "position" att
    attempt_of attempt_id position att
  new_attempt null = none
  new_attempt (boolean b) = none
  new_attempt (integer n) = none
  new_attempt (decimal nonzero s) = none
  new_attempt (text s) = none
  new_attempt (array xs) = none

  abbrev pub new_attempts : Items → Option (List ResolvedAttempt)
  new_attempts no_items = some []
  new_attempts (item att rest) = do
    attempt ← new_attempt att
    attempts ← new_attempts rest
    some (attempt ∷ attempts)

  -- the shape with a list of attempts
  abbrev pub new_route : Json → Fields → Option ResolvedRoute
  new_route attempts_payload payload = do
    xs ← iterate attempts_payload
    attempts ← new_attempts xs
    request_id ← str_field "request_id" payload
    some (record {
      request_id = request_id;
      fallback_enabled = flag (get "fallback_enabled" payload);
      attempts = attempts;
    })

  -- the legacy shape, with the one attempt at the top
  abbrev pub legacy_route : Fields → Option ResolvedRoute
  legacy_route payload = do
    correlation_id ← str_field "correlation_id" payload
    attempt ← attempt_of correlation_id (pos 0) payload
    some (record { request_id = correlation_id; fallback_enabled = false; attempts = attempt ∷ [] })

  abbrev pub by_shape : Option Json → Fields → Option ResolvedRoute
  by_shape none payload = legacy_route payload
  by_shape (some null) payload = legacy_route payload
  by_shape (some (boolean b)) payload = new_route (boolean b) payload
  by_shape (some (integer n)) payload = new_route (integer n) payload
  by_shape (some (decimal nonzero s)) payload = new_route (decimal nonzero s) payload
  by_shape (some (text s)) payload = new_route (text s) payload
  by_shape (some (array xs)) payload = new_route (array xs) payload
  by_shape (some (object fields)) payload = new_route (object fields) payload

  -- `payload.get` of a value that is no object raises
  unfoldable pub parse_resolve_payload : Json → Option ResolvedRoute
  parse_resolve_payload (object payload) = by_shape (get "attempts" payload) payload
  parse_resolve_payload null = none
  parse_resolve_payload (boolean b) = none
  parse_resolve_payload (integer n) = none
  parse_resolve_payload (decimal nonzero s) = none
  parse_resolve_payload (text s) = none
  parse_resolve_payload (array xs) = none
