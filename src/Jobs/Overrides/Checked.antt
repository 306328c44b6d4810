-- ===== src/Jobs/Overrides/Checked.antt =====
-- The entries of a validated dictionary of overrides.
use imagin.Prelude.{
  ℕ, suc, ◌≤◌, String, ◌≡◌, refl, sym, ◌⊎◌, inl, inr, true, Option, none, some, List, [], ◌∷◌,
  str_eq, eq_iff, Bool-cases, contains, zero, ◌&&◌, arith, if◌then◌else◌,
}
use imagin.Prelude.Int.{leb_ℤ, ℤ}
use imagin.Prelude.Strip.{strip}
use imagin.Prelude.Json.{
  Json, Fields, null, boolean, integer, float, string, array, object, end, field, get, put,
}
use imagin.Prelude.Python.{Python, value, refused, overflow, Converted, str, int_of, float_of}
use imagin.Jobs.Overrides.{
  OverrideAllowlists, Validation, valid, invalid, ◌>>=◌, string_fields, take_chars, has_unknown,
  check_string, check_strings, check_steps, check_cfg_scale, check_negative_prompt, check_object,
  validate_overrides, overflow_error,
}
use mathlib.Core.Path.{subst}

-- The number of characters.
abbrev pub chars : String → ℕ
chars Prim.Native.String.[] = 0
chars (Prim.Native.String.◌∷◌ c s) = suc (chars s)

-- The key stands in the table with this allowlist.
abbrev pub Listed : String → List String → List (String × List String) → Type 0
Listed key allowlist [] = ⊥
Listed key allowlist ((k, l) ∷ rest) = (k ≡ key) × (l ≡ allowlist) ⊎ Listed key allowlist rest

module _ (py : Python) (a : OverrideAllowlists) where
  -- What an entry of a validated dictionary is.
  pub data Entry : String → Json → Type 0 where
    listed :
        (key text : String) (allowlist : List String)
        → Listed key allowlist (string_fields a)
        → contains text allowlist ≡ true
        → Entry key (string text)
    steps :
        (n : ℤ)
        → leb_ℤ a.min_steps n ≡ true
        → leb_ℤ n a.max_steps ≡ true
        → Entry "steps" (integer n)
    cfg_scale :
        (f : py.Float)
        → py.le (py.read a.min_cfg_scale) f ≡ true
        → py.le f (py.read a.max_cfg_scale) ≡ true
        → Entry "cfg_scale" (float (py.print f))
    negative_prompt :
        (s : String) → chars s ≤ a.max_negative_prompt_chars → Entry "negative_prompt" (string s)

  abbrev pub Entries : Fields → Type 0
  Entries end = Unit
  Entries (field k v rest) = Entry k v × Entries rest

  put-Entries : (k : String) (v : Json) (d : Fields) → Entry k v → Entries d → Entries (put k v d)
  unfolding put
  put-Entries k v end e h = (e, tt)
  put-Entries k v (field j w rest) e h = elim (Bool-cases (str_eq j k)) [
    | inl same ↦ rw same (subst (λ x. Entry x v) (sym ((eq_iff j k).0 same)) e, h.1)
    | inr other ↦ rw other (h.0, put-Entries k v rest e h.1)
  ]

  -- The validation's value, if there is one, consists of such entries.
  abbrev Checks : Validation → Type 0
  Checks (valid d) = Entries d
  Checks (invalid e) = Unit

  >>=-Checks :
      (m : Validation) (f : Fields → Validation)
      → Checks m
      → ((d : Fields) → Entries d → Checks (f d))
      → Checks (m >>= f)
  >>=-Checks (valid d) f h k = k d h
  >>=-Checks (invalid e) f h k = tt

  check_string-Checks :
      (key : String) (allowlist : List String) (o : Option Json) (d : Fields)
      → Listed key allowlist (string_fields a)
      → Entries d
      → Checks (check_string py key allowlist o d)
  unfolding check_string
  check_string-Checks key allowlist none d l h = h
  check_string-Checks key [] (some x) d l h = tt
  check_string-Checks key (s ∷ ss) (some x) d l h =
      elim (Bool-cases (contains (strip (str py x)) (s ∷ ss))) [
        | inl e ↦ rw e (
            put-Entries key (string (strip (str py x))) d
              (listed key (strip (str py x)) (s ∷ ss) l e) h)
        | inr e ↦ rw e tt
      ]

  check_strings-Checks :
      (table : List (String × List String)) (o d : Fields)
      → ((key : String) (allowlist : List String)
          → Listed key allowlist table
          → Listed key allowlist (string_fields a))
      → Entries d
      → Checks (check_strings py table o d)
  unfolding check_strings
  check_strings-Checks [] o d sub h = h
  check_strings-Checks ((key, allowlist) ∷ rest) o d sub h =
      >>=-Checks (check_string py key allowlist (get key o) d) (check_strings py rest o)
        (check_string-Checks key allowlist (get key o) d (sub key allowlist (inl (refl, refl))) h)
        (λ d' h'. check_strings-Checks rest o d' (λ k l m. sub k l (inr m)) h')

  check_steps-Checks : (o : Option Json) (d : Fields) → Entries d → Checks (check_steps py a o d)
  unfolding check_steps
  check_steps-Checks none d h = h
  check_steps-Checks (some x) d h = go (int_of py x)
    where
      go :
          (r : Converted ℤ)
          → Checks (elim r [
            | value n ↦
                if leb_ℤ a.min_steps n && leb_ℤ n a.max_steps
                then valid (put "steps" (integer n) d)
                else valid d
            | refused ↦ valid d
            | overflow ↦ invalid overflow_error
          ])
      go refused = h
      go overflow = tt
      go (value n) = elim (Bool-cases (leb_ℤ a.min_steps n && leb_ℤ n a.max_steps)) [
        | inl e ↦ rw e (put-Entries "steps" (integer n) d (steps n (ground arith) (ground arith)) h)
        | inr e ↦ rw e h
      ]

  check_cfg_scale-Checks :
      (o : Option Json) (d : Fields) → Entries d → Checks (check_cfg_scale py a o d)
  unfolding check_cfg_scale
  check_cfg_scale-Checks none d h = h
  check_cfg_scale-Checks (some x) d h = go (float_of py x)
    where
      go :
          (r : Converted py.Float)
          → Checks (elim r [
            | value f ↦
                if py.le (py.read a.min_cfg_scale) f && py.le f (py.read a.max_cfg_scale)
                then valid (put "cfg_scale" (float (py.print f)) d)
                else valid d
            | refused ↦ valid d
            | overflow ↦ invalid overflow_error
          ])
      go refused = h
      go overflow = tt
      go (value f) =
          elim (Bool-cases
            (py.le (py.read a.min_cfg_scale) f && py.le f (py.read a.max_cfg_scale))) [
              | inl e ↦ rw e (
                  put-Entries "cfg_scale" (float (py.print f)) d
                    (cfg_scale f (ground arith) (ground arith)) h)
              | inr e ↦ rw e h
            ]

  chars-take : (n : ℕ) (s : String) → chars (take_chars n s) ≤ n
  unfolding take_chars
  chars-take zero s = omega arith
  chars-take (suc n) Prim.Native.String.[] = omega arith
  chars-take (suc n) (Prim.Native.String.◌∷◌ c s) = omega (arith, chars-take n s)

  check_negative_prompt-Checks :
      (o : Option Json) (d : Fields) → Entries d → Checks (check_negative_prompt py a o d)
  unfolding check_negative_prompt
  check_negative_prompt-Checks none d h = h
  check_negative_prompt-Checks (some x) d h =
      let s = take_chars a.max_negative_prompt_chars (str py x) in
      put-Entries "negative_prompt" (string s) d
        (negative_prompt s (chars-take a.max_negative_prompt_chars (str py x))) h

  check_object-Checks : (o : Fields) → Checks (check_object py a o)
  unfolding check_object
  check_object-Checks o = elim (Bool-cases (has_unknown o)) [
    | inl e ↦ rw e tt
    | inr e ↦ rw e (
        >>=-Checks _ _
          (>>=-Checks _ _
            (>>=-Checks _ _ (check_strings-Checks (string_fields a) o end (λ k l m. m) tt)
              (check_steps-Checks (get "steps" o)))
            (check_cfg_scale-Checks (get "cfg_scale" o)))
          (check_negative_prompt-Checks (get "negative_prompt" o)))
  ]

  all-Checks : (o : Option Json) → Checks (validate_overrides py o a)
  unfolding validate_overrides
  all-Checks none = tt
  all-Checks (some null) = tt
  all-Checks (some (object o)) = check_object-Checks o
  all-Checks (some (boolean b)) = tt
  all-Checks (some (integer z)) = tt
  all-Checks (some (float r)) = tt
  all-Checks (some (string s)) = tt
  all-Checks (some (array xs)) = tt

  -- Whatever a caller sends, each entry of an accepted result is a text of the allowlist of its
  -- field, a number of steps or a scale within its range, or a negative prompt no longer than
  -- allowed.
  pub validate_overrides-Entries :
      (o : Option Json) (d : Fields) → validate_overrides py o a ≡ valid d → Entries d
  validate_overrides-Entries o d h = subst Checks h (all-Checks o)
