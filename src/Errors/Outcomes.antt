-- ===== src/Errors/Outcomes.antt =====
-- What the translators of error.py make of a response.
use mathlib.Core.Bool.{false≢true}
use bt_api_base.Prelude.{
  String, ◌≡◌, ◌↔◌, refl, sym, ◌∙◌, inl, inr, Option, none, some, [], ◌∷◌, ◌==◌, ==_iff, nat_key,
  string_key, arith, Bool-cases,
}
use bt_api_base.Prelude.Dict.{lookup}
use bt_api_base.Errors.Codes.{UnifiedErrorCode, get_category, value, category_of}
use bt_api_base.Errors.Translate.{
  Value, null, text, number, minus, value_key, Response, ErrorMap, UnifiedError, get, or_default,
  lookup_status, lookup_code, from_status, from_map, by_code, translate, code_str, okx_code,
  okx_errors, okx_error_map, by_okx_code, okx_translate,
}

-- An error is filed under its code's category, names the venue and carries the response.
abbrev pub IsFiled : Response → String → UnifiedError → Type 0
IsFiled raw venue e =
    (e.category ≡ get_category e.code) × (e.venue ≡ venue) × (e.raw_response ≡ raw)

abbrev pub IsFiledIf : Response → String → Option UnifiedError → Type 0
IsFiledIf raw venue none = Unit
IsFiledIf raw venue (some e) = IsFiled raw venue e

-- An entry of a map of codes that stands for success.
abbrev pub MeansSuccess : Option (Option UnifiedErrorCode × String) → Type 0
MeansSuccess none = ⊥
MeansSuccess (some (none, _)) = Unit
MeansSuccess (some (some _, _)) = ⊥

-- The entries that all stand for errors.
abbrev AllErrors : ErrorMap → Type 0
AllErrors [] = Unit
AllErrors ((k, (none, _)) ∷ d) = ⊥
AllErrors ((k, (some _, _)) ∷ d) = AllErrors d

lookup-AllErrors : (k : Value) (d : ErrorMap) → AllErrors d → MeansSuccess (lookup k d) → ⊥
lookup-AllErrors k [] h s = s
lookup-AllErrors k ((j, (none, t)) ∷ d) h s = h
lookup-AllErrors k ((j, (some c, t)) ∷ d) h s = elim (Bool-cases (j == k)) [
  | inl here ↦ rw here at s
  | inr other ↦ lookup-AllErrors k d h (rw other at s)
]

okx_success : (t : String) → MeansSuccess (lookup (text t) okx_error_map) ↔ (t ≡ "0")
okx_success t = elim (Bool-cases ("0" == t)) [
  | inl zero ↦ (λ s. sym ((==_iff "0" t).0 zero), λ e. rw e tt)
  | inr other ↦ (
    λ s. absurd (lookup-AllErrors (text t) okx_errors tt (rw other at s)),
    λ e. absurd (false≢true (sym other ∙ (==_iff "0" t).1 (sym e))),
  )
]

module _ (str : Value → String) (str_raw : Response → String) where
  from_status-IsFiled :
      (raw : Response) (venue : String) (msg status : Value)
      (o : Option (UnifiedErrorCode × String))
      → IsFiled raw venue (from_status str str_raw raw venue msg status o)
  unfolding from_status get_category value category_of
  from_status-IsFiled raw venue msg status none = (refl, refl, refl)
  from_status-IsFiled raw venue msg status (some (code, default)) = (refl, refl, refl)

  from_map-IsFiledIf :
      (raw : Response) (venue : String) (msg code : Value) (o : Option UnifiedErrorCode)
      (default : String)
      → IsFiledIf raw venue (from_map str str_raw raw venue msg code o default)
  unfolding from_map
  from_map-IsFiledIf raw venue msg code none default = tt
  from_map-IsFiledIf raw venue msg code (some c) default = (refl, refl, refl)

  by_code-IsFiledIf :
      (raw : Response) (venue : String) (code msg status : Value)
      (o : Option (Option UnifiedErrorCode × String))
      → IsFiledIf raw venue (by_code str str_raw raw venue code msg status o)
  by_code-IsFiledIf raw venue code msg status none =
      from_status-IsFiled raw venue msg status (lookup_status status)
  by_code-IsFiledIf raw venue code msg status (some (c, default)) =
      from_map-IsFiledIf raw venue msg code c default

  translate_filed :
      (errors : ErrorMap) (raw : Response) (venue : String)
      → IsFiledIf raw venue (translate str str_raw errors raw venue)
  unfolding translate
  translate_filed errors raw venue =
      by_code-IsFiledIf raw venue (get raw "code" null)
        (get raw "msg" (get raw "message" (text ""))) (get raw "status" null)
        (lookup_code (get raw "code" null) errors)

  by_okx_code-IsFiledIf :
      (raw : Response) (venue : String) (code msg : Value)
      (o : Option (Option UnifiedErrorCode × String))
      → IsFiledIf raw venue (by_okx_code str str_raw raw venue code msg o)
  by_okx_code-IsFiledIf raw venue code msg none = translate_filed okx_error_map raw venue
  by_okx_code-IsFiledIf raw venue code msg (some (c, default)) =
      from_map-IsFiledIf raw venue msg code c default

  -- Every error that either translator gives, by its map of codes, by the HTTP status or by default,
  -- has the category of its code, the venue it was called for and the response.
  pub translate-IsFiledIf :
      (errors : ErrorMap) (raw : Response) (venue : String)
      → IsFiledIf raw venue (translate str str_raw errors raw venue)
        × IsFiledIf raw venue (okx_translate str str_raw raw venue)
  unfolding okx_translate
  translate-IsFiledIf errors raw venue = (
    translate_filed errors raw venue,
    by_okx_code-IsFiledIf raw venue (okx_code raw) (get raw "msg" (get raw "sMsg" (text "")))
        (lookup (text (code_str str (okx_code raw))) okx_error_map),
  )

  by_code-none :
      (raw : Response) (venue : String) (code msg status : Value)
      (o : Option (Option UnifiedErrorCode × String))
      → (by_code str str_raw raw venue code msg status o ≡ none) ↔ MeansSuccess o
  unfolding from_map
  by_code-none raw venue code msg status none = ground arith
  by_code-none raw venue code msg status (some (none, default)) = ground arith
  by_code-none raw venue code msg status (some (some c, default)) = ground arith

  -- A response translates to no error exactly when its code stands in the map for success, whatever
  -- its status says.
  pub translate-none :
      (errors : ErrorMap) (raw : Response) (venue : String)
      → (translate str str_raw errors raw venue ≡ none)
        ↔ MeansSuccess (lookup_code (get raw "code" null) errors)
  unfolding translate
  translate-none errors raw venue =
      by_code-none raw venue (get raw "code" null) (get raw "msg" (get raw "message" (text "")))
        (get raw "status" null) (lookup_code (get raw "code" null) errors)

-- The OKX translator looks the code up twice: by its text, and then as any translator does, from the
-- one field. What the first look does not find, the second does not find either.
second_look :
    (str : Value → String) (text_kept : (s : String) → str (text s) ≡ s) (raw : Response)
    (o : Option Value)
    → (MeansSuccess
          (lookup (text (code_str str (or_default o (get raw "sCode" (text ""))))) okx_error_map)
        → ⊥)
    → MeansSuccess (lookup_code (or_default o null) okx_error_map)
    → ⊥
second_look str text_kept raw none first s = s
second_look str text_kept raw (some null) first s = s
second_look str text_kept raw (some (text t)) first s = first (rw (text_kept t) s)
second_look str text_kept raw (some (number n)) first s = s
second_look str text_kept raw (some (minus n)) first s = s

by_okx_code-none :
    (str : Value → String) (str_raw : Response → String) (raw : Response) (venue : String)
    (code msg : Value) (o : Option (Option UnifiedErrorCode × String))
    → ((MeansSuccess o → ⊥) → MeansSuccess (lookup_code (get raw "code" null) okx_error_map) → ⊥)
    → (by_okx_code str str_raw raw venue code msg o ≡ none) ↔ MeansSuccess o
unfolding from_map
by_okx_code-none str str_raw raw venue code msg none second =
    (λ e. second (λ s. s) ((translate-none str str_raw okx_error_map raw venue).0 e), λ s. absurd s)
by_okx_code-none str str_raw raw venue code msg (some (none, default)) second = ground arith
by_okx_code-none str str_raw raw venue code msg (some (some c, default)) second = ground arith

-- A response of OKX translates to no error exactly when the text of its code, from either field, is
-- "0", given that `str` keeps texts.
pub okx_translate-none :
    (str : Value → String) (str_raw : Response → String) (raw : Response) (venue : String)
    → ((s : String) → str (text s) ≡ s)
    → (okx_translate str str_raw raw venue ≡ none) ↔ (code_str str (okx_code raw) ≡ "0")
unfolding okx_translate
okx_translate-none str str_raw raw venue text_kept =
    let t = code_str str (okx_code raw) in
    let no_error =
      by_okx_code-none str str_raw raw venue (okx_code raw)
        (get raw "msg" (get raw "sMsg" (text ""))) (lookup (text t) okx_error_map)
        (second_look str text_kept raw (lookup "code" raw)) in
    let zero = okx_success t in (λ e. zero.0 (no_error.0 e), λ e. no_error.1 (zero.1 e))
