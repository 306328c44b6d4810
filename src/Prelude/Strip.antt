-- ===== src/Prelude/Strip.antt =====
-- `str.strip()` over the code points that Python's `str.isspace` counts as white space, and
-- `str.split(",")`.
use Prim.Native.Nat.{ℕ}
use Prim.Native.Char.{Char, code}
use Prim.Native.String.{String}
use mathlib.Core.Bool.{Bool, true, false, ◌&&◌, ◌||◌}
use mathlib.Core.List.{List, [], ◌∷◌}
use imagin.Prelude.Tests.{◌==◌, leb, if◌then◌else◌}

abbrev within : ℕ → ℕ → ℕ → Bool
within low high c = leb low c && leb c high

unfoldable pub is_space : Char → Bool
is_space c =
    within 9 13 (code c)
    || within 28 32 (code c)
    || code c == 133
    || code c == 160
    || code c == 5760
    || within 8192 8202 (code c)
    || within 8232 8233 (code c)
    || code c == 8239
    || code c == 8287
    || code c == 12288

abbrev is_blank : String → Bool
is_blank String.[] = true
is_blank (String.◌∷◌ c s) = false

unfoldable pub lstrip : String → String
lstrip String.[] = String.[]
lstrip (String.◌∷◌ c s) = if is_space c then lstrip s else String.◌∷◌ c s

-- The rest is stripped first: a character goes only with nothing left behind it.
unfoldable pub rstrip : String → String
rstrip String.[] = String.[]
rstrip (String.◌∷◌ c s) =
    let rest = rstrip s in if is_blank rest && is_space c then String.[] else String.◌∷◌ c rest

unfoldable pub strip : String → String
unfolding lstrip rstrip is_space
strip s = rstrip (lstrip s)

-- The first part, and the later ones.
unfoldable pub split_commas : String → String × List String
split_commas String.[] = (String.[], [])
split_commas (String.◌∷◌ c s) =
    let (part, parts) = split_commas s in
    if code c == b',' then (String.[], part ∷ parts) else (String.◌∷◌ c part, parts)

-- `value.split(",")`
unfoldable pub split : String → List String
unfolding split_commas
split s = let (part, parts) = split_commas s in part ∷ parts
