-- ===== src/Errors/Tests.antt =====
-- Runs of the errors.
use bt_api_base.Prelude.{String, ◌≡◌, ◌↔◌, refl, Option, none, some, [], ◌∷◌, string_key}
use bt_api_base.Errors.Translate.{
  Value, null, text, number, minus, Response, code_str, okx_code, okx_translate, UnifiedError,
  from_map,
}
use bt_api_base.Errors.Outcomes.{okx_translate-none}

abbrev str : Value → String
str null = "None"
str (text s) = s
str (number n) = "a number"
str (minus n) = "a number"

abbrev str_raw : Response → String
str_raw raw = "a response"

-- The code in the field of a single order, without a message.
abbrev failed : Response
failed = ("sCode", text "51008") ∷ ("status", number 400) ∷ []

abbrev message_of : Option UnifiedError → Value
message_of none = null
message_of (some e) = e.message

message_failed : message_of (okx_translate str str_raw failed "OKX") ≡ text "Insufficient balance"
unfolding okx_translate from_map
message_failed = refl

okx_translate-none_example :
    (okx_translate str str_raw failed "OKX" ≡ none) ↔ (code_str str (okx_code failed) ≡ "0")
okx_translate-none_example = okx_translate-none str str_raw failed "OKX" (λ s. refl)
