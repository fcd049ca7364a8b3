-- ===== src/Errors/Exceptions.antt =====
-- The classes of exceptions.py, their messages, and the tests on them. The base classes are those of the
-- `class` lines, and those of Python's own classes. `str` writes a number as Python does.
use Prim.Native.String.{◌++◌}
use bt_api_base.Prelude.{
  ℕ, String, Bool, false, ◌||◌, Option, none, some, List, [], ◌∷◌, ◌==◌, nat_key, string_key,
  if◌then◌else◌,
}

pub data ErrorClass : Type 0 where
  bt_api_error exchange_not_found exchange_connection authentication request_timeout : ErrorClass
  request request_failed order insufficient_balance invalid_order order_not_found : ErrorClass
  subscribe data_parse queue_not_initialized rate_limit network invalid_symbol : ErrorClass
  configuration web_socket currency_not_found : ErrorClass
  exception type_error value_error attribute_error lookup_error key_error index_error : ErrorClass
  os_error connection_error timeout_error runtime_error : ErrorClass

abbrev number_of : ErrorClass → ℕ
number_of bt_api_error = 0
number_of exchange_not_found = 1
number_of exchange_connection = 2
number_of authentication = 3
number_of request_timeout = 4
number_of request = 5
number_of request_failed = 6
number_of order = 7
number_of insufficient_balance = 8
number_of invalid_order = 9
number_of order_not_found = 10
number_of subscribe = 11
number_of data_parse = 12
number_of queue_not_initialized = 13
number_of rate_limit = 14
number_of network = 15
number_of invalid_symbol = 16
number_of configuration = 17
number_of web_socket = 18
number_of currency_not_found = 19
number_of exception = 20
number_of type_error = 21
number_of value_error = 22
number_of attribute_error = 23
number_of lookup_error = 24
number_of key_error = 25
number_of index_error = 26
number_of os_error = 27
number_of connection_error = 28
number_of timeout_error = 29
number_of runtime_error = 30

-- A class with its base classes, the nearest first.
abbrev pub package_bases : List ErrorClass
package_bases = bt_api_error ∷ exception ∷ []

abbrev pub bases : ErrorClass → List ErrorClass
bases bt_api_error = package_bases
bases exchange_not_found = exchange_not_found ∷ package_bases
bases exchange_connection = exchange_connection ∷ package_bases
bases authentication = authentication ∷ exchange_connection ∷ package_bases
bases request_timeout = request_timeout ∷ package_bases
bases request = request ∷ package_bases
bases request_failed = request_failed ∷ request ∷ package_bases
bases order = order ∷ package_bases
bases insufficient_balance = insufficient_balance ∷ order ∷ package_bases
bases invalid_order = invalid_order ∷ order ∷ package_bases
bases order_not_found = order_not_found ∷ order ∷ package_bases
bases subscribe = subscribe ∷ package_bases
bases data_parse = data_parse ∷ package_bases
bases queue_not_initialized = queue_not_initialized ∷ data_parse ∷ package_bases
bases rate_limit = rate_limit ∷ package_bases
bases network = network ∷ package_bases
bases invalid_symbol = invalid_symbol ∷ package_bases
bases configuration = configuration ∷ package_bases
bases web_socket = web_socket ∷ package_bases
bases currency_not_found = currency_not_found ∷ package_bases
bases exception = exception ∷ []
bases type_error = type_error ∷ exception ∷ []
bases value_error = value_error ∷ exception ∷ []
bases attribute_error = attribute_error ∷ exception ∷ []
bases lookup_error = lookup_error ∷ exception ∷ []
bases key_error = key_error ∷ lookup_error ∷ exception ∷ []
bases index_error = index_error ∷ lookup_error ∷ exception ∷ []
bases os_error = os_error ∷ exception ∷ []
bases connection_error = connection_error ∷ os_error ∷ exception ∷ []
bases timeout_error = timeout_error ∷ os_error ∷ exception ∷ []
bases runtime_error = runtime_error ∷ exception ∷ []

abbrev pub among : ErrorClass → List ErrorClass → Bool
among c [] = false
among c (d ∷ classes) = number_of d == number_of c || among c classes

-- `isinstance(error, classes)` of an error of class `c`.
unfoldable pub isinstance : ErrorClass → List ErrorClass → Bool
isinstance c [] = false
isinstance c (d ∷ classes) = among d (bases c) || isinstance c classes

unfoldable pub is_network_error : ErrorClass → Bool
unfolding isinstance
is_network_error c = isinstance c (network ∷ request_timeout ∷ web_socket ∷ connection_error ∷ [])

unfoldable pub is_auth_error : ErrorClass → Bool
unfolding isinstance
is_auth_error c = isinstance c (authentication ∷ [])

unfoldable pub is_rate_limit_error : ErrorClass → Bool
unfolding isinstance
is_rate_limit_error c = isinstance c (rate_limit ∷ [])

unfoldable pub is_order_error : ErrorClass → Bool
unfolding isinstance
is_order_error c = isinstance c (order ∷ [])

unfoldable pub is_user_recoverable : ErrorClass → Bool
unfolding isinstance
is_user_recoverable c =
    isinstance c
      (invalid_symbol ∷ insufficient_balance ∷ invalid_order ∷ configuration ∷ rate_limit ∷ [])

-- An error: its class, its text, and the exchange where it names one.
pub record ApiError : Type 0 where
  pub class : ErrorClass
  pub message : String
  pub exchange_name : Option String

-- `if detail: msg += sep + detail + end`
abbrev pub with_detail : String → String → String → String → String
with_detail msg sep detail end = if detail == "" then msg else msg ++ sep ++ detail ++ end

abbrev at : ErrorClass → String → String → ApiError
at class name message = record { class = class; message = message; exchange_name = some name }

-- `available` is the text of the list, empty where there is none.
unfoldable pub exchange_not_found_error : String → String → ApiError
exchange_not_found_error name available =
    at exchange_not_found name
      (with_detail ("Exchange not found: " ++ name) ". Available: " available "")

unfoldable pub exchange_connection_error : String → String → ApiError
exchange_connection_error name detail =
    at exchange_connection name (with_detail ("Connection failed: " ++ name) " — " detail "")

unfoldable pub authentication_error : String → String → ApiError
authentication_error name detail =
    at authentication name (with_detail ("Connection failed: " ++ name) " — " detail "")

unfoldable pub request_timeout_error : (ℕ → String) → String → String → ℕ → ApiError
request_timeout_error str name url timeout =
    at request_timeout name
      (with_detail (name ++ " request timeout (" ++ str timeout ++ "s)") ": " url "")

abbrev request_text : String → String → String → String
request_text name url detail =
    with_detail (with_detail (name ++ " request error") ": " url "") " — " detail ""

unfoldable pub request_error : String → String → String → ApiError
request_error name url detail = at request name (request_text name url detail)

abbrev order_text : String → String → String → String
order_text name symbol detail =
    with_detail (with_detail (name ++ " order error") " [" symbol "]") ": " detail ""

unfoldable pub order_error : String → String → String → ApiError
order_error name symbol detail = at order name (order_text name symbol detail)

unfoldable pub subscribe_error : String → String → ApiError
subscribe_error name detail =
    at subscribe name (with_detail (name ++ " subscribe error") ": " detail "")

abbrev parse_text : String → String → String
parse_text container_class detail =
    with_detail (with_detail "Data parse error" " in " container_class "") ": " detail ""

unfoldable pub data_parse_error : String → String → ApiError
data_parse_error container_class detail = record {
  class = data_parse;
  message = parse_text container_class detail;
  exchange_name = none;
}

-- A time to retry after that is missing, or zero, is not told.
abbrev retry_text : (ℕ → String) → Option ℕ → String
retry_text str none = ""
retry_text str (some n) = if n == 0 then "" else str n

unfoldable pub rate_limit_error : (ℕ → String) → String → Option ℕ → String → ApiError
rate_limit_error str name retry_after detail = at rate_limit name (
    with_detail
      (with_detail (name ++ " rate limit exceeded") " (retry after " (retry_text str retry_after)
        "s)")
      ": " detail "")

unfoldable pub network_error : String → String → ApiError
network_error name detail = at network name (with_detail (name ++ " network error") ": " detail "")

unfoldable pub invalid_symbol_error : String → String → String → ApiError
invalid_symbol_error name symbol detail =
    at invalid_symbol name (with_detail (name ++ " invalid symbol: " ++ symbol) " — " detail "")

abbrev balance_text : (ℕ → String) → Option ℕ → Option ℕ → String
balance_text str (some required) (some available) =
    "Insufficient balance (required: " ++ str required ++ ", available: " ++ str available ++ ")"
balance_text str none available = "Insufficient balance"
balance_text str (some required) none = "Insufficient balance"

unfoldable pub insufficient_balance_error :
    (ℕ → String) → String → String → Option ℕ → Option ℕ → ApiError
insufficient_balance_error str name symbol required available =
    at insufficient_balance name (order_text name symbol (balance_text str required available))

unfoldable pub order_not_found_error : String → String → String → ApiError
order_not_found_error name order_id symbol =
    at order_not_found name (order_text name symbol ("Order not found: " ++ order_id))

unfoldable pub configuration_error : String → ApiError
configuration_error detail = record {
  class = configuration;
  message = with_detail "Configuration error" ": " detail "";
  exchange_name = none;
}

unfoldable pub web_socket_error : String → String → ApiError
web_socket_error name detail =
    at web_socket name (with_detail (name ++ " WebSocket error") ": " detail "")

unfoldable pub currency_not_found_error : String → String → ApiError
currency_not_found_error name currency =
    at currency_not_found name ("Currency '" ++ currency ++ "' not found in " ++ name)

unfoldable pub queue_not_initialized_error : String → String → ApiError
queue_not_initialized_error queue_name detail = record {
  class = queue_not_initialized;
  message =
      parse_text "DataQueue"
        (with_detail (with_detail "Data queue not initialized" ": " queue_name "") " — " detail "");
  exchange_name = none;
}

-- `a or b`, of texts.
abbrev pub or_text : String → String → String
or_text a b = if a == "" then b else a

abbrev status_text : (ℕ → String) → String → Option ℕ → String
status_text str msg none = msg
status_text str msg (some status) = msg ++ " (HTTP " ++ str status ++ ")"

-- A missing name is the empty text.
unfoldable pub request_failed_error :
    (ℕ → String) → (exchange_name url detail venue message : String) → Option ℕ → ApiError
request_failed_error str exchange_name url detail venue message status_code =
    let name = or_text (or_text exchange_name venue) "unknown" in
    let msg = status_text str (or_text message (or_text detail "Request failed")) status_code in
    at request_failed name (request_text name url msg)
