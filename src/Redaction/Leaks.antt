-- ===== src/Redaction/Leaks.antt =====
-- No credential that a value names is left in the texts of its redaction.
use bt_api_base.Prelude.{
  String, Bool, false, List, [], ◌∷◌, ◌++◌, ◌≡◌, All, All-append, string_key, inl, inr, Bool-cases,
}
use bt_api_base.Prelude.Set
use bt_api_base.Redaction.{
  redacted, Value, text, bytes, integer, mapping, list, tuple, other, Values, no_values, values_of,
  Entries, no_entries, entry, Texts, is_sensitive_key, sanitize, sanitize_values, sanitize_entries,
}
use bt_api_base.Redaction.Named.{IsLong}

abbrev mutual
  pub texts_in : Value → List String
  texts_in (text t) = t ∷ []
  texts_in (bytes t) = []
  texts_in (integer negative n) = []
  texts_in (mapping es) = texts_in_entries es
  texts_in (list vs) = texts_in_values vs
  texts_in (tuple vs) = texts_in_values vs
  texts_in (other n) = []

  pub texts_in_values : Values → List String
  texts_in_values no_values = []
  texts_in_values (values_of v vs) = texts_in v ++ texts_in_values vs

  pub texts_in_entries : Entries → List String
  texts_in_entries no_entries = []
  texts_in_entries (entry key v es) = texts_in v ++ texts_in_entries es

module _ (T : Texts) where
  -- A secret that `replace` can take out.
  abbrev IsPlain : String → Type 0
  IsPlain s = IsLong T s × (T.within "*" s ≡ false)

  module _ (s : String) (clean : String → String) (marked : T.within s redacted ≡ false)
      (cleans : (t : String) → T.within s (clean t) ≡ false) where
    abbrev IsFree : String → Type 0
    IsFree t = T.within s t ≡ false

    mutual
      unfolding sanitize

      sanitize-IsFree : (v : Value) → All IsFree (texts_in (sanitize T clean v))
      sanitize-IsFree (text t) = (cleans t, tt)
      sanitize-IsFree (bytes t) = tt
      sanitize-IsFree (integer negative n) = tt
      sanitize-IsFree (mapping es) = sanitize_entries-IsFree es
      sanitize-IsFree (list vs) = sanitize_values-IsFree vs
      sanitize-IsFree (tuple vs) = sanitize_values-IsFree vs
      sanitize-IsFree (other n) = tt

      sanitize_values-IsFree :
          (vs : Values) → All IsFree (texts_in_values (sanitize_values T clean vs))
      sanitize_values-IsFree no_values = tt
      sanitize_values-IsFree (values_of v vs) =
          All-append IsFree (texts_in (sanitize T clean v))
            (texts_in_values (sanitize_values T clean vs)) (sanitize-IsFree v)
            (sanitize_values-IsFree vs)

      sanitize_entries-IsFree :
          (es : Entries) → All IsFree (texts_in_entries (sanitize_entries T clean es))
      sanitize_entries-IsFree no_entries = tt
      sanitize_entries-IsFree (entry key v es) =
          let rest = sanitize_entries-IsFree es in
          elim (Bool-cases (is_sensitive_key T key)) [
            | inl hidden ↦ rw (sanitize_entries, hidden) (marked, rest)
            | inr shown ↦
                rw (sanitize_entries, shown)
                  (All-append IsFree (texts_in (sanitize T clean v))
                    (texts_in_entries (sanitize_entries T clean es)) (sanitize-IsFree v) rest)
          ]
