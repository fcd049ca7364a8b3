-- ===== src/Errors/Codes.antt =====
-- `ErrorCategory` and `UnifiedErrorCode` of error.py.
use bt_api_base.Prelude.{
  ℕ, zero, suc, ◌/◌, ◌≡◌, refl, ◌&&◌, Option, none, some, List, [], ◌∷◌, arith, ltb, leb,
  if◌then◌else◌, ◌==◌, nat_key,
}

pub data ErrorCategory : Type 0 where
  network auth rate_limit business system capability validation api order trade account :
      ErrorCategory

pub data UnifiedErrorCode : Type 0 where
  network_timeout network_disconnected dns_error connection_refused invalid_api_key :
      UnifiedErrorCode
  invalid_signature expired_timestamp permission_denied session_expired rate_limit_exceeded :
      UnifiedErrorCode
  ip_banned too_many_requests invalid_symbol invalid_price invalid_volume insufficient_balance :
      UnifiedErrorCode
  insufficient_margin order_not_found order_already_filled order_cancelled order_timeout :
      UnifiedErrorCode
  market_closed position_not_found duplicate_order invalid_order min_notional minimum_not_met :
      UnifiedErrorCode
  precision_error order_cancel_failed invalid_side invalid_order_type withdrawal_failed :
      UnifiedErrorCode
  deposit_failed transfer_failed account_suspended exchange_maintenance exchange_overloaded :
      UnifiedErrorCode
  internal_error unsupported_operation not_supported not_implemented invalid_parameter :
      UnifiedErrorCode
  missing_parameter parameter_out_of_range api_error order_error trade_error account_error :
      UnifiedErrorCode

unfoldable pub value : UnifiedErrorCode → ℕ
value network_timeout = 1001
value network_disconnected = 1002
value dns_error = 1003
value connection_refused = 1004
value invalid_api_key = 2001
value invalid_signature = 2002
value expired_timestamp = 2003
value permission_denied = 2004
value session_expired = 2005
value rate_limit_exceeded = 3001
value ip_banned = 3002
value too_many_requests = 3003
value invalid_symbol = 4001
value invalid_price = 4002
value invalid_volume = 4003
value insufficient_balance = 4004
value insufficient_margin = 4005
value order_not_found = 4006
value order_already_filled = 4007
value order_cancelled = 4008
value order_timeout = 4009
value market_closed = 4010
value position_not_found = 4011
value duplicate_order = 4012
value invalid_order = 4013
value min_notional = 4014
value minimum_not_met = 4015
value precision_error = 4016
value order_cancel_failed = 4017
value invalid_side = 4018
value invalid_order_type = 4019
value withdrawal_failed = 4020
value deposit_failed = 4021
value transfer_failed = 4022
value account_suspended = 4023
value exchange_maintenance = 5001
value exchange_overloaded = 5002
value internal_error = 5003
value unsupported_operation = 5004
value not_supported = 6001
value not_implemented = 6002
value invalid_parameter = 7001
value missing_parameter = 7002
value parameter_out_of_range = 7003
value api_error = 8001
value order_error = 8002
value trade_error = 8003
value account_error = 8004

-- `_get_category`, on a code's value.
unfoldable pub category_of : ℕ → ErrorCategory
category_of v =
    if leb 1000 v && ltb v 2000
    then network
    else if leb 2000 v && ltb v 3000
    then auth
    else if leb 3000 v && ltb v 4000
    then rate_limit
    else if leb 4000 v && ltb v 5000
    then business
    else if leb 5000 v && ltb v 6000
    then system
    else if leb 6000 v && ltb v 7000
    then capability
    else validation

unfoldable pub get_category : UnifiedErrorCode → ErrorCategory
unfolding category_of value
get_category code = category_of (value code)

-- All codes, as the enumeration lists them.
abbrev pub all_codes : List UnifiedErrorCode
all_codes =
    network_timeout ∷ network_disconnected ∷ dns_error ∷ connection_refused ∷ invalid_api_key
    ∷ invalid_signature ∷ expired_timestamp ∷ permission_denied ∷ session_expired
    ∷ rate_limit_exceeded ∷ ip_banned ∷ too_many_requests ∷ invalid_symbol ∷ invalid_price
    ∷ invalid_volume ∷ insufficient_balance ∷ insufficient_margin ∷ order_not_found
    ∷ order_already_filled ∷ order_cancelled ∷ order_timeout ∷ market_closed ∷ position_not_found
    ∷ duplicate_order ∷ invalid_order ∷ min_notional ∷ minimum_not_met ∷ precision_error
    ∷ order_cancel_failed ∷ invalid_side ∷ invalid_order_type ∷ withdrawal_failed ∷ deposit_failed
    ∷ transfer_failed ∷ account_suspended ∷ exchange_maintenance ∷ exchange_overloaded
    ∷ internal_error ∷ unsupported_operation ∷ not_supported ∷ not_implemented ∷ invalid_parameter
    ∷ missing_parameter ∷ parameter_out_of_range ∷ api_error ∷ order_error ∷ trade_error
    ∷ account_error ∷ []

-- `UnifiedErrorCode(v)`: the member with the value, if there is one.
unfoldable pub first_with : ℕ → List UnifiedErrorCode → Option UnifiedErrorCode
unfolding value
first_with v [] = none
first_with v (code ∷ codes) = if value code == v then some code else first_with v codes

unfoldable pub of_value : ℕ → Option UnifiedErrorCode
unfolding first_with
of_value v = first_with v all_codes

-- Every code is found by its value, so no two codes share one.
pub of_value-value : (code : UnifiedErrorCode) → of_value (value code) ≡ some code
unfolding of_value
of_value-value network_timeout = refl
of_value-value network_disconnected = refl
of_value-value dns_error = refl
of_value-value connection_refused = refl
of_value-value invalid_api_key = refl
of_value-value invalid_signature = refl
of_value-value expired_timestamp = refl
of_value-value permission_denied = refl
of_value-value session_expired = refl
of_value-value rate_limit_exceeded = refl
of_value-value ip_banned = refl
of_value-value too_many_requests = refl
of_value-value invalid_symbol = refl
of_value-value invalid_price = refl
of_value-value invalid_volume = refl
of_value-value insufficient_balance = refl
of_value-value insufficient_margin = refl
of_value-value order_not_found = refl
of_value-value order_already_filled = refl
of_value-value order_cancelled = refl
of_value-value order_timeout = refl
of_value-value market_closed = refl
of_value-value position_not_found = refl
of_value-value duplicate_order = refl
of_value-value invalid_order = refl
of_value-value min_notional = refl
of_value-value minimum_not_met = refl
of_value-value precision_error = refl
of_value-value order_cancel_failed = refl
of_value-value invalid_side = refl
of_value-value invalid_order_type = refl
of_value-value withdrawal_failed = refl
of_value-value deposit_failed = refl
of_value-value transfer_failed = refl
of_value-value account_suspended = refl
of_value-value exchange_maintenance = refl
of_value-value exchange_overloaded = refl
of_value-value internal_error = refl
of_value-value unsupported_operation = refl
of_value-value not_supported = refl
of_value-value not_implemented = refl
of_value-value invalid_parameter = refl
of_value-value missing_parameter = refl
of_value-value parameter_out_of_range = refl
of_value-value api_error = refl
of_value-value order_error = refl
of_value-value trade_error = refl
of_value-value account_error = refl

-- The category by the thousands of a value; the classes of errors from seven thousand on, and the
-- values below one thousand, count as failed validation.
abbrev pub by_thousands : ℕ → ErrorCategory
by_thousands zero = validation
by_thousands (suc zero) = network
by_thousands (suc (suc zero)) = auth
by_thousands (suc (suc (suc zero))) = rate_limit
by_thousands (suc (suc (suc (suc zero)))) = business
by_thousands (suc (suc (suc (suc (suc zero))))) = system
by_thousands (suc (suc (suc (suc (suc (suc zero)))))) = capability
by_thousands (suc (suc (suc (suc (suc (suc (suc n))))))) = validation

thousands : (v n : ℕ) → n ≡ v / 1000 → category_of v ≡ by_thousands n
unfolding category_of
thousands v zero e = ground arith
thousands v (suc zero) e = ground arith
thousands v (suc (suc zero)) e = ground arith
thousands v (suc (suc (suc zero))) e = ground arith
thousands v (suc (suc (suc (suc zero)))) e = ground arith
thousands v (suc (suc (suc (suc (suc zero))))) e = ground arith
thousands v (suc (suc (suc (suc (suc (suc zero)))))) e = ground arith
thousands v (suc (suc (suc (suc (suc (suc (suc n))))))) e = ground arith

-- The category of a code is the one of the thousands of its value.
pub get_category-value :
    (code : UnifiedErrorCode) → get_category code ≡ by_thousands (value code / 1000)
get_category-value code = unfold get_category in thousands (value code) (value code / 1000) refl
