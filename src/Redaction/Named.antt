-- ===== src/Redaction/Named.antt =====
-- The credentials that a value names, and that `collect_sensitive_values` finds them.
use bt_api_base.Prelude.{
  ℕ, ◌≤◌, ◌⊎◌, ==_self, String, Bool, true, false, ◌||◌, List, [], ◌∷◌, ◌++◌, ◌≡◌, refl, ◌∙◌,
  if◌then◌else◌, string_key, inl, inr, arith,
}
use bt_api_base.Prelude.Set
use bt_api_base.Redaction.{
  Value, text, bytes, integer, mapping, list, tuple, other, Values, no_values, values_of, Entries,
  no_entries, entry, Texts, is_sensitive_key, any_within, sensitive_exact_keys, sensitive_key_parts,
  added, walk, walk_values, walk_entries, from_keys,
}

or_left : (a b : Bool) → a ≡ true → (a || b) ≡ true
or_left a b h = ground (arith, h)

or_right : (a b : Bool) → b ≡ true → (a || b) ≡ true
or_right a b h = ground (arith, h)

contains-append_left :
    (xs ys : List String) (s : String) → Set.contains xs s ≡ true → Set.contains (xs ++ ys) s ≡ true
contains-append_left xs ys s h = Set.contains-append xs ys s ∙ ground (arith, h)

contains-append_right :
    (xs ys : List String) (s : String) → Set.contains ys s ≡ true → Set.contains (xs ++ ys) s ≡ true
contains-append_right xs ys s h = Set.contains-append xs ys s ∙ ground (arith, h)

abbrev pub IsOneOf : String → List String → Type 0
IsOneOf part [] = ⊥
IsOneOf part (p ∷ parts) = (part ≡ p) ⊎ IsOneOf part parts

module _ (T : Texts) where
  pub contains-from_keys :
      (seen l : List String) (s : String)
      → Set.contains (from_keys T seen l) s ≡ (Set.contains seen s || Set.contains l s)
  contains-from_keys seen [] s = ground arith
  contains-from_keys seen (x ∷ l) s =
      ground (arith, contains-from_keys (Set.add x seen) l s, Set.contains-add x s seen)

  abbrev pub IsLong : String → Type 0
  IsLong s = 4 ≤ T.len s

  -- A key names credentials: without "-", "_" and " " and in small letters, it is one of the exact
  -- keys, ends with "sign", or has one of the parts within it.
  abbrev pub IsCredentialKey : String → Type 0
  IsCredentialKey key =
      ((T.normalize key ≡ "nonce") ⊎ (T.normalize key ≡ "timestamp"))
      ⊎ (T.ends_with (T.normalize key) "sign" ≡ true)
      ⊎ ((part : String) × IsOneOf part sensitive_key_parts
          × (T.within part (T.normalize key) ≡ true))

  -- The value is the credential `s`: a text, or the text of bytes, of four characters or more, or
  -- an integer of eight digits or more, as it is written.
  abbrev pub IsCredential : String → Value → Type 0
  IsCredential s (text t) = (s ≡ t) × (4 ≤ T.len t)
  IsCredential s (bytes t) = (s ≡ t) × (4 ≤ T.len t)
  IsCredential s (integer negative n) = (s ≡ T.str negative n) × (8 ≤ T.len (T.str false n))
  IsCredential s (mapping es) = ⊥
  IsCredential s (list vs) = ⊥
  IsCredential s (tuple vs) = ⊥
  IsCredential s (other n) = ⊥

  -- `s` is a credential that a key of the value names, at any depth of mappings, lists and tuples.
  abbrev mutual
    pub IsNamed : String → Value → Type 0
    IsNamed s (text t) = ⊥
    IsNamed s (bytes t) = ⊥
    IsNamed s (integer negative n) = ⊥
    IsNamed s (mapping es) = IsNamedEntries s es
    IsNamed s (list vs) = IsNamedValues s vs
    IsNamed s (tuple vs) = IsNamedValues s vs
    IsNamed s (other n) = ⊥

    pub IsNamedValues : String → Values → Type 0
    IsNamedValues s no_values = ⊥
    IsNamedValues s (values_of v vs) = IsNamed s v ⊎ IsNamedValues s vs

    pub IsNamedEntries : String → Entries → Type 0
    IsNamedEntries s no_entries = ⊥
    IsNamedEntries s (entry key v es) =
        (IsCredentialKey key × IsCredential s v) ⊎ (IsNamed s v ⊎ IsNamedEntries s es)

  within-any_within :
      (part : String) (parts : List String) (t : String)
      → IsOneOf part parts
      → T.within part t ≡ true
      → any_within T parts t ≡ true
  within-any_within part [] t m h = absurd m
  within-any_within part (p ∷ parts) t (inl e) h =
      or_left (T.within p t) (any_within T parts t) (rw e at h)
  within-any_within part (p ∷ parts) t (inr m) h =
      or_right (T.within p t) (any_within T parts t) (within-any_within part parts t m h)

  abbrev exact : String → Bool
  exact key = Set.contains sensitive_exact_keys (T.normalize key)

  abbrev parts : String → Bool
  parts key = any_within T sensitive_key_parts (T.normalize key)

  key_found : (key : String) → IsCredentialKey key → is_sensitive_key T key ≡ true
  unfolding is_sensitive_key
  key_found key (inl (inl e)) = rw e refl
  key_found key (inl (inr e)) = rw e refl
  key_found key (inr (inl e)) =
      or_left (exact key || T.ends_with (T.normalize key) "sign") (parts key)
        (or_right (exact key) (T.ends_with (T.normalize key) "sign") e)
  key_found key (inr (inr (part, m, h))) =
      or_right (exact key || T.ends_with (T.normalize key) "sign") (parts key)
        (within-any_within part sensitive_key_parts (T.normalize key) m h)

  module _ (str_len : (b : Bool) (n : ℕ) → T.len (T.str false n) ≤ T.len (T.str b n)) where
    credential-IsLong : (s : String) (v : Value) → IsCredential s v → IsLong s
    credential-IsLong s (text t) (e, long) = rw e long
    credential-IsLong s (bytes t) (e, long) = rw e long
    credential-IsLong s (integer negative n) (e, long) =
        rw e (omega (arith, long, str_len negative n))
    credential-IsLong s (mapping es) h = absurd h
    credential-IsLong s (list vs) h = absurd h
    credential-IsLong s (tuple vs) h = absurd h
    credential-IsLong s (other n) h = absurd h

    mutual
      pub named-IsLong : (s : String) (v : Value) → IsNamed s v → IsLong s
      named-IsLong s (text t) h = absurd h
      named-IsLong s (bytes t) h = absurd h
      named-IsLong s (integer negative n) h = absurd h
      named-IsLong s (mapping es) h = named_entries-IsLong s es h
      named-IsLong s (list vs) h = named_values-IsLong s vs h
      named-IsLong s (tuple vs) h = named_values-IsLong s vs h
      named-IsLong s (other n) h = absurd h

      named_values-IsLong : (s : String) (vs : Values) → IsNamedValues s vs → IsLong s
      named_values-IsLong s no_values h = absurd h
      named_values-IsLong s (values_of v vs) (inl h) = named-IsLong s v h
      named_values-IsLong s (values_of v vs) (inr h) = named_values-IsLong s vs h

      named_entries-IsLong : (s : String) (es : Entries) → IsNamedEntries s es → IsLong s
      named_entries-IsLong s no_entries h = absurd h
      named_entries-IsLong s (entry key v es) (inl h) = credential-IsLong s v h.1
      named_entries-IsLong s (entry key v es) (inr (inl h)) = named-IsLong s v h
      named_entries-IsLong s (entry key v es) (inr (inr h)) = named_entries-IsLong s es h

  added_found : (s : String) (v : Value) → IsCredential s v → Set.contains (added T v) s ≡ true
  unfolding added
  added_found s (text t) (e, long) = rw e (ground (arith, ==_self t))
  added_found s (bytes t) (e, long) = rw e (ground (arith, ==_self t))
  added_found s (integer negative n) (e, long) = rw e (ground (arith, ==_self (T.str negative n)))
  added_found s (mapping es) h = absurd h
  added_found s (list vs) h = absurd h
  added_found s (tuple vs) h = absurd h
  added_found s (other n) h = absurd h

  mutual
    unfolding walk

    pub walk_found : (s : String) (v : Value) → IsNamed s v → Set.contains (walk T v) s ≡ true
    walk_found s (text t) h = absurd h
    walk_found s (bytes t) h = absurd h
    walk_found s (integer negative n) h = absurd h
    walk_found s (mapping es) h = walk_entries_found s es h
    walk_found s (list vs) h = walk_values_found s vs h
    walk_found s (tuple vs) h = walk_values_found s vs h
    walk_found s (other n) h = absurd h

    walk_values_found :
        (s : String) (vs : Values) → IsNamedValues s vs → Set.contains (walk_values T vs) s ≡ true
    walk_values_found s no_values h = absurd h
    walk_values_found s (values_of v vs) (inl h) =
        contains-append_left (walk T v) (walk_values T vs) s (walk_found s v h)
    walk_values_found s (values_of v vs) (inr h) =
        contains-append_right (walk T v) (walk_values T vs) s (walk_values_found s vs h)

    walk_entries_found :
        (s : String) (es : Entries)
        → IsNamedEntries s es
        → Set.contains (walk_entries T es) s ≡ true
    walk_entries_found s no_entries h = absurd h
    walk_entries_found s (entry key v es) (inl (named, here)) =
        rw (walk_entries, key_found key named)
          (contains-append_left (added T v) (walk T v ++ walk_entries T es) s
            (added_found s v here))
    walk_entries_found s (entry key v es) (inr (inl h)) =
        contains-append_right (if is_sensitive_key T key then added T v else [])
          (walk T v ++ walk_entries T es) s
          (contains-append_left (walk T v) (walk_entries T es) s (walk_found s v h))
    walk_entries_found s (entry key v es) (inr (inr h)) =
        contains-append_right (if is_sensitive_key T key then added T v else [])
          (walk T v ++ walk_entries T es) s
          (contains-append_right (walk T v) (walk_entries T es) s (walk_entries_found s es h))
