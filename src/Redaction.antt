-- ===== src/Redaction.antt =====
-- feeds/transport_safety.py: credentials are taken out of texts, urls and nested values. Python's
-- texts, `re` and `urllib.parse` are parameters.

pub mod Named
pub mod Leaks
mod Tests
use Prim.Native.String.{◌++◌ as append}
use bt_api_base.Prelude.{
  ℕ, zero, suc, String, Bool, true, false, not, ◌&&◌, ◌||◌, Option, none, some, List, [], ◌∷◌, ◌++◌,
  leb, if◌then◌else◌, ◌==◌, string_key,
}
use bt_api_base.Prelude.Set

abbrev pub redacted : String
redacted = "***"

abbrev pub sensitive_key_parts : List String
sensitive_key_parts =
    "apikey" ∷ "accesskey" ∷ "secret" ∷ "token" ∷ "signature" ∷ "password" ∷ "passphrase"
    ∷ "authorization" ∷ "privatekey" ∷ "publickey" ∷ "listenkey" ∷ []

abbrev pub sensitive_exact_keys : List String
sensitive_exact_keys = "nonce" ∷ "timestamp" ∷ []

mutual
  -- A value: a text, bytes by the text they decode to, an integer by its sign and size, a mapping, a
  -- list, a tuple, or something else.
  pub data Value : Type 0 where
    text bytes : String → Value
    integer : (negative : Bool) → ℕ → Value
    mapping : Entries → Value
    list tuple : Values → Value
    other : ℕ → Value

  pub data Values : Type 0 where
    no_values : Values
    values_of : Value → Values → Values

  pub data Entries : Type 0 where
    no_entries : Entries
    entry : String → Value → Entries → Entries

-- A url as urlsplit parts it; the port is the text of it.
pub record Parsed : Type 0 where
  pub scheme : String
  pub hostname : Option String
  pub port : Option String
  pub username : Option String
  pub password : Option String
  pub path : String
  pub query : List (String × String)
  pub fragment : String

-- Python's methods of texts: `normalize` drops "-", "_" and " " and lowers, `within a b` is `a in b`,
-- `replace t a b` is `t.replace(a, b)`, `len` counts characters,
-- `split_last` parts the last character from the text before it, and `str` writes an integer.
pub record Texts : Type 0 where
  pub normalize : String → String
  pub within : String → String → Bool
  pub ends_with : String → String → Bool
  pub replace : String → String → String → String
  pub len : String → ℕ
  pub lower : String → String
  pub starts_with : String → String → Bool
  pub split_last : String → Option (String × String)
  pub str : Bool → ℕ → String

-- The substitutions of the three patterns: `sub_urls f t` puts `f` of each url of `t` in its place.
pub record Patterns : Type 0 where
  pub sub_urls : (String → String) → String → String
  pub sub_key_values : String → String
  pub sub_bearers : String → String

-- What urllib.parse does: `urlsplit` and `parse_qsl` in one, which may raise, `urlencode`, and
-- `urlunsplit`. `split` and `join` are at "/".
pub record Urls : Type 0 where
  pub urlsplit : String → Option Parsed
  pub urlencode : List (String × String) → String
  pub urlunsplit : (scheme netloc path query fragment : String) → String
  pub split : String → List String
  pub join : List String → String

module _ (T : Texts) where
  abbrev pub any_within : List String → String → Bool
  any_within [] normalized = false
  any_within (part ∷ parts) normalized = T.within part normalized || any_within parts normalized

  unfoldable pub is_sensitive_key : String → Bool
  is_sensitive_key key =
      let normalized = T.normalize key in
      Set.contains sensitive_exact_keys normalized
      || T.ends_with normalized "sign"
      || any_within sensitive_key_parts normalized

  -- What `add` collects of an item.
  unfoldable pub added : Value → List String
  added (text t) = if leb 4 (T.len t) then t ∷ [] else []
  added (bytes t) = if leb 4 (T.len t) then t ∷ [] else []
  added (integer negative n) = if leb 8 (T.len (T.str false n)) then T.str negative n ∷ [] else []
  added (mapping es) = []
  added (list vs) = []
  added (tuple vs) = []
  added (other n) = []

  unfoldable mutual
    unfolding added is_sensitive_key

    pub walk : Value → List String
    walk (text t) = []
    walk (bytes t) = []
    walk (integer negative n) = []
    walk (mapping es) = walk_entries es
    walk (list vs) = walk_values vs
    walk (tuple vs) = walk_values vs
    walk (other n) = []

    pub walk_values : Values → List String
    walk_values no_values = []
    walk_values (values_of v vs) = walk v ++ walk_values vs

    pub walk_entries : Entries → List String
    walk_entries no_entries = []
    walk_entries (entry key v es) =
        (if is_sensitive_key key then added v else []) ++ (walk v ++ walk_entries es)

  -- `dict.fromkeys`, which keeps the first of each.
  abbrev pub from_keys : List String → List String → List String
  from_keys seen [] = seen
  from_keys seen (s ∷ rest) = from_keys (Set.add s seen) rest

  unfoldable pub collect_sensitive_values : Value → List String
  unfolding walk
  collect_sensitive_values v = from_keys [] (walk v)

  -- `sensitive_mapping_values`, for a mapping that may be missing.
  abbrev of_sensitive : Entries → List Value
  of_sensitive no_entries = []
  of_sensitive (entry key v es) =
      let rest = of_sensitive es in if is_sensitive_key key then v ∷ rest else rest

  unfoldable pub sensitive_mapping_values : Option Entries → List Value
  sensitive_mapping_values none = []
  sensitive_mapping_values (some es) = of_sensitive es

  -- The loop of `sanitize_text` over the sensitive values.
  abbrev pub replace_all : List (Option String) → String → String
  replace_all [] t = t
  replace_all (none ∷ secrets) t = replace_all secrets t
  replace_all (some secret ∷ secrets) t =
      replace_all secrets (if secret == "" then t else T.replace t secret redacted)

  abbrev or_empty : Option String → String
  or_empty none = ""
  or_empty (some t) = t

  abbrev is_some : Option String → Bool
  is_some none = false
  is_some (some t) = true

  abbrev with_port : String → Option String → String
  with_port hostname none = hostname
  with_port hostname (some port) = append hostname (append ":" port)

  unfoldable pub redact_user_info : Parsed → String
  redact_user_info p =
      let hostname = or_empty p.hostname in
      let bracketed =
        if T.within ":" hostname && not (T.starts_with hostname "[")
        then append "[" (append hostname "]")
        else hostname in
      let host = with_port bracketed p.port in
      if is_some p.username || is_some p.password then append redacted (append "@" host) else host

  -- The parts with the one after the first `marker` redacted, if there is one and it is not empty.
  abbrev mark_next : List String → Option (List String)
  mark_next [] = none
  mark_next (part ∷ parts) = if part == "" then none else some (redacted ∷ parts)

  abbrev cons_part : String → Option (List String) → Option (List String)
  cons_part part none = none
  cons_part part (some parts) = some (part ∷ parts)

  abbrev pub mark : String → List String → Option (List String)
  mark marker [] = none
  mark marker (part ∷ parts) =
      let rest = mark marker parts in
      cons_part part (if part == marker then mark_next parts else rest)

  abbrev first_marked : Option (List String) → Option (List String) → Option (List String)
  first_marked none next = next
  first_marked (some parts) next = some parts

  abbrev joined : Urls → String → Option (List String) → String
  joined U path none = path
  joined U path (some parts) = U.join parts

  unfoldable pub redact_websocket_path : Urls → String → String → String
  redact_websocket_path U path scheme =
      let parts = U.split path in
      if scheme == "ws" || scheme == "wss"
      then joined U path (first_marked (mark "ws" parts) (mark "stream" parts))
      else path

  abbrev redact_query : List (String × String) → List (String × String)
  redact_query [] = []
  redact_query ((key, value) ∷ query) =
      (key, if is_sensitive_key key then redacted else value) ∷ redact_query query

  abbrev is_url_scheme : String → Bool
  is_url_scheme scheme = Set.contains ("http" ∷ "https" ∷ "ws" ∷ "wss" ∷ []) scheme

  abbrev sanitize_parsed : Urls → String → Option Parsed → String
  sanitize_parsed U url none = "<redacted-invalid-url>"
  sanitize_parsed U url (some p) =
      let scheme = T.lower p.scheme in
      if is_url_scheme scheme
      then U.urlunsplit p.scheme (redact_user_info p) (redact_websocket_path U p.path scheme)
          (U.urlencode (redact_query p.query)) p.fragment
      else url

  -- A value that is not a text is left as it is.
  unfoldable pub sanitize_url : Urls → String → String
  unfolding redact_user_info redact_websocket_path is_sensitive_key
  sanitize_url U url = sanitize_parsed U url (U.urlsplit url)

  abbrev trim_last : String → String → Option (String × String) → String × String → String × String
  trim_last candidate suffix none rest = (candidate, suffix)
  trim_last candidate suffix (some (front, last)) rest =
      if T.within last ".,;:)]}" then rest else (candidate, suffix)

  abbrev front_of : String → Option (String × String) → String × String
  front_of candidate none = (candidate, "")
  front_of candidate (some parts) = parts

  -- At most `fuel` characters are taken off; there are `T.len candidate`.
  abbrev pub trim_from : ℕ → String → String → String × String
  trim_from zero candidate suffix = (candidate, suffix)
  trim_from (suc fuel) candidate suffix =
      let (front, last) = front_of candidate (T.split_last candidate) in
      trim_last candidate suffix (T.split_last candidate)
        (trim_from fuel front (append last suffix))

  unfoldable pub trim_url_punctuation : String → String × String
  trim_url_punctuation candidate = trim_from (T.len candidate) candidate ""

  unfoldable pub sanitize_text : Patterns → Urls → List (Option String) → String → String
  unfolding sanitize_url trim_url_punctuation
  sanitize_text P U secrets t =
      let replace_url : String → String = λ found.
        let (candidate, suffix) = trim_url_punctuation found in
        append (sanitize_url U candidate) suffix in
      replace_all secrets (P.sub_bearers (P.sub_key_values (P.sub_urls replace_url t)))

  abbrev pub all_some : List String → List (Option String)
  all_some [] = []
  all_some (s ∷ secrets) = some s ∷ all_some secrets

  unfoldable mutual
    unfolding sanitize_text is_sensitive_key

    pub sanitize : (String → String) → Value → Value
    sanitize clean (text t) = text (clean t)
    sanitize clean (bytes t) = bytes t
    sanitize clean (integer negative n) = integer negative n
    sanitize clean (mapping es) = mapping (sanitize_entries clean es)
    sanitize clean (list vs) = list (sanitize_values clean vs)
    sanitize clean (tuple vs) = tuple (sanitize_values clean vs)
    sanitize clean (other n) = other n

    pub sanitize_values : (String → String) → Values → Values
    sanitize_values clean no_values = no_values
    sanitize_values clean (values_of v vs) = values_of (sanitize clean v) (sanitize_values clean vs)

    pub sanitize_entries : (String → String) → Entries → Entries
    sanitize_entries clean no_entries = no_entries
    sanitize_entries clean (entry key v es) =
        entry key (if is_sensitive_key key then text redacted else sanitize clean v)
          (sanitize_entries clean es)

  unfoldable pub sanitize_value : Patterns → Urls → Value → Value
  unfolding sanitize sanitize_text collect_sensitive_values
  sanitize_value P U v = sanitize (sanitize_text P U (all_some (collect_sensitive_values v))) v
