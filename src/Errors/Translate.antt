-- ===== src/Errors/Translate.antt =====
-- `ErrorTranslator` and `OKXErrorTranslator` of error.py. A response is a dictionary of JSON values;
-- of these `Value` has null, texts and integers, and `str` and the formatting of the whole response
-- are parameters. A translation gives the arguments that `UnifiedError` is constructed with; what
-- its constructor takes out of the texts is not modelled.
use Prim.Native.String.{◌++◌ as append}
use bt_api_base.Prelude.{
  ℕ, String, ◌≡◌, ◌↔◌, Bool, true, false, not, Option, none, some, [], ◌∷◌, ◌==◌, ==_iff, Key,
  nat_key, string_key, if◌then◌else◌, arith,
}
use bt_api_base.Prelude.Dict.{Dict, lookup}
use bt_api_base.Errors.Codes.{
  ErrorCategory, system, UnifiedErrorCode, get_category, internal_error, exchange_maintenance,
  network_timeout, rate_limit_exceeded, exchange_overloaded, invalid_parameter, invalid_api_key,
  expired_timestamp, invalid_signature, permission_denied, invalid_symbol, invalid_volume,
  insufficient_balance, insufficient_margin, invalid_price, order_not_found, duplicate_order,
  order_already_filled,
}

-- `minus n` is the number below `-n`.
pub data Value : Type 0 where
  null : Value
  text : String → Value
  number minus : ℕ → Value

abbrev value_equals : Value → Value → Bool
value_equals null null = true
value_equals (text a) (text b) = a == b
value_equals (number a) (number b) = a == b
value_equals (minus a) (minus b) = a == b
value_equals _ _ = false

pub value_equals_iff : (a b : Value) → (value_equals a b ≡ true) ↔ (a ≡ b)
value_equals_iff null null = ground arith
value_equals_iff null (text b) = ground arith
value_equals_iff null (number b) = ground arith
value_equals_iff null (minus b) = ground arith
value_equals_iff (text a) null = ground arith
value_equals_iff (text a) (text b) = ground (arith, ==_iff a b)
value_equals_iff (text a) (number b) = ground arith
value_equals_iff (text a) (minus b) = ground arith
value_equals_iff (number a) null = ground arith
value_equals_iff (number a) (text b) = ground arith
value_equals_iff (number a) (number b) = ground (arith, ==_iff a b)
value_equals_iff (number a) (minus b) = ground arith
value_equals_iff (minus a) null = ground arith
value_equals_iff (minus a) (text b) = ground arith
value_equals_iff (minus a) (number b) = ground arith
value_equals_iff (minus a) (minus b) = ground (arith, ==_iff a b)

instance abbrev pub value_key : Key Value
value_key = record { equals = value_equals; equals_iff = value_equals_iff }

abbrev pub Response : Type 0
Response = Dict String Value

-- `d.get(key)` and `d.get(key, default)`: a key that is there may hold null.
abbrev pub or_default : Option Value → Value → Value
or_default none default = default
or_default (some v) default = v

abbrev pub get : Response → String → Value → Value
get raw key default = or_default (lookup key raw) default

-- The truth of a value in a test.
abbrev pub truthy : Value → Bool
truthy null = false
truthy (text s) = not (s == "")
truthy (number n) = not (n == 0)
truthy (minus n) = true

abbrev pub ErrorMap : Type 0
ErrorMap = Dict Value (Option UnifiedErrorCode × String)

-- The arguments of a `UnifiedError`; the context holds the response.
pub record UnifiedError : Type 0 where
  pub code : UnifiedErrorCode
  pub category : ErrorCategory
  pub venue : String
  pub message : Value
  pub original_error : String
  pub raw_response : Response

abbrev pub http_status_map : Dict ℕ (UnifiedErrorCode × String)
http_status_map =
    (400, (invalid_parameter, "Invalid request parameters"))
    ∷ (401, (invalid_api_key, "Invalid API key"))
    ∷ (403, (permission_denied, "Permission denied"))
    ∷ (404, (invalid_symbol, "Resource not found"))
    ∷ (429, (rate_limit_exceeded, "Rate limit exceeded"))
    ∷ (500, (internal_error, "Internal server error"))
    ∷ (503, (exchange_overloaded, "Service unavailable"))
    ∷ (504, (network_timeout, "Gateway timeout"))
    ∷ []

-- A status that is not a number is in no map of numbers; zero counts as none.
abbrev pub lookup_status : Value → Option (UnifiedErrorCode × String)
lookup_status (number n) = lookup n http_status_map
lookup_status null = none
lookup_status (text s) = none
lookup_status (minus n) = none

-- `code is not None and code in ERROR_MAP`
abbrev pub lookup_code : Value → ErrorMap → Option (Option UnifiedErrorCode × String)
lookup_code null errors = none
lookup_code (text s) errors = lookup (text s) errors
lookup_code (number n) errors = lookup (number n) errors
lookup_code (minus n) errors = lookup (minus n) errors

abbrev pub message_or : Value → String → Value
message_or msg default = if truthy msg then msg else text default

abbrev pub okx_code : Response → Value
okx_code raw = get raw "code" (get raw "sCode" (text ""))

-- The entries of errors; the code 0 stands for success.
abbrev pub okx_errors : ErrorMap
okx_errors =
    (text "50000", (some internal_error, "Body can not be empty"))
    ∷ (text "50001", (some exchange_maintenance, "Service temporarily unavailable"))
    ∷ (text "50004", (some network_timeout, "Endpoint request timeout"))
    ∷ (text "50011", (some rate_limit_exceeded, "Rate limit reached"))
    ∷ (text "50013", (some exchange_overloaded, "System busy"))
    ∷ (text "50014", (some invalid_parameter, "Parameter error"))
    ∷ (text "50100", (some invalid_api_key, "API frozen"))
    ∷ (text "50101", (some invalid_api_key, "API key does not match the current environment"))
    ∷ (text "50102", (some expired_timestamp, "Timestamp expired"))
    ∷ (text "50103", (some invalid_signature, "Signature invalid"))
    ∷ (text "50104", (some permission_denied, "No permission"))
    ∷ (text "50105", (some permission_denied, "IP not whitelisted"))
    ∷ (text "50119", (some invalid_api_key, "API key does not exist"))
    ∷ (text "51000", (some invalid_parameter, "Parameter error"))
    ∷ (text "51001", (some invalid_symbol, "Instrument ID does not exist"))
    ∷ (text "51004", (some invalid_volume, "Order amount too small"))
    ∷ (text "51008", (some insufficient_balance, "Insufficient balance"))
    ∷ (text "51009", (some insufficient_margin, "Insufficient margin"))
    ∷ (text "51010", (some invalid_price, "Price not meeting post-only rule"))
    ∷ (text "51020", (some order_not_found, "Order does not exist"))
    ∷ (text "51023", (some duplicate_order, "Duplicate order"))
    ∷ (text "51024", (some order_already_filled, "Order already filled"))
    ∷ (text "51503", (some invalid_parameter, "Reduce-only parameter error"))
    ∷ []

abbrev pub okx_error_map : ErrorMap
okx_error_map = (text "0", (none, "Success")) ∷ okx_errors

-- `str(code) if code is not None else ""`
abbrev pub code_str : (Value → String) → Value → String
code_str str null = ""
code_str str (text s) = str (text s)
code_str str (number n) = str (number n)
code_str str (minus n) = str (minus n)

module _ (str : Value → String) (str_raw : Response → String) where
  unfoldable pub from_status :
      Response → String → Value → Value → Option (UnifiedErrorCode × String) → UnifiedError
  from_status raw venue msg status (some (code, default)) = record {
    code = code;
    category = get_category code;
    venue = venue;
    message = message_or msg default;
    original_error = append "HTTP " (append (str status) (append ": " (str msg)));
    raw_response = raw;
  }
  from_status raw venue msg status none = record {
    code = internal_error;
    category = system;
    venue = venue;
    message = message_or msg "Unknown error";
    original_error = str_raw raw;
    raw_response = raw;
  }

  -- An entry without a code means that there is no error.
  unfoldable pub from_map :
      Response → String → Value → Value → Option UnifiedErrorCode → String → Option UnifiedError
  from_map raw venue msg code none default = none
  from_map raw venue msg code (some unified_code) default = some (record {
    code = unified_code;
    category = get_category unified_code;
    venue = venue;
    message = message_or msg default;
    original_error = append (str code) (append ": " (str msg));
    raw_response = raw;
  })

  abbrev pub by_code :
      Response
      → String
      → Value
      → Value
      → Value
      → Option (Option UnifiedErrorCode × String)
      → Option UnifiedError
  by_code raw venue code msg status (some (unified_code, default)) =
      from_map raw venue msg code unified_code default
  by_code raw venue code msg status none =
      some (from_status raw venue msg status (lookup_status status))

  unfoldable pub translate : ErrorMap → Response → String → Option UnifiedError
  unfolding from_status from_map
  translate errors raw venue =
      let code = get raw "code" null in
      let msg = get raw "msg" (get raw "message" (text "")) in
      by_code raw venue code msg (get raw "status" null) (lookup_code code errors)

  abbrev pub by_okx_code :
      Response
      → String
      → Value
      → Value
      → Option (Option UnifiedErrorCode × String)
      → Option UnifiedError
  by_okx_code raw venue code msg (some (unified_code, default)) =
      from_map raw venue msg code unified_code default
  by_okx_code raw venue code msg none = translate okx_error_map raw venue

  unfoldable pub okx_translate : Response → String → Option UnifiedError
  unfolding from_map translate
  okx_translate raw venue =
      let code = okx_code raw in
      let msg = get raw "msg" (get raw "sMsg" (text "")) in
      by_okx_code raw venue code msg (lookup (text (code_str str code)) okx_error_map)
