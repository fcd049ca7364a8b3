-- ===== src/Redaction/Tests.antt =====
-- Runs of the redaction.
use bt_api_base.Prelude.{ℕ, String, none, [], ◌∷◌, if◌then◌else◌, ◌==◌, string_key, nat_key}
use bt_api_base.Redaction.{
  Value, text, mapping, entry, no_entries, list, values_of, no_values, Texts, Patterns, Urls,
}

-- Texts that are only within themselves and are replaced as a whole; a text has four characters,
-- unless it is empty or "***".
abbrev length_of : String → ℕ
length_of t = if t == "" then 0 else if t == "***" then 3 else 4

abbrev texts : Texts
texts = record {
  normalize = λ t. t;
  within = λ a b. a == b;
  ends_with = λ a b. a == b;
  replace = λ t a b. if a == t then b else t;
  len = length_of;
  lower = λ t. t;
  starts_with = λ a b. a == b;
  split_last = λ t. none;
  str = λ b n. "number";
}

abbrev patterns : Patterns
patterns = record { sub_urls = λ f t. f t; sub_key_values = λ t. t; sub_bearers = λ t. t }

abbrev urls : Urls
urls = record {
  urlsplit = λ t. none;
  urlencode = λ q. "";
  urlunsplit = λ a b c d e. a;
  split = λ t. t ∷ [];
  join = λ l. "";
}

-- The credential stands in a list of mappings, and in a note beside it.
abbrev order : Value
order = mapping (
    entry "accounts"
      (list (values_of (mapping (entry "token" (text "abcdefgh") no_entries)) no_values))
      (entry "note" (text "abcdefgh") no_entries))
