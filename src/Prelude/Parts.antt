-- ===== src/Prelude/Parts.antt =====
-- Texts put together and taken apart at a colon, as `f"{a}:{b}"` and `s.partition(":")` do.
use Prim.Native.Char.{Char, code}
use Prim.Native.String.{String}
use mathlib.Core.Path.{◌≡◌, refl}
use mathlib.Core.Bool.{Bool, true, false}
use mathlib.Core.Option.{Option, none, some}
use native.Mathlib.Omega.{arith}
use imagin.Prelude.Tests.{◌==◌, if◌then◌else◌}

-- `a + b`
unfoldable pub join : String → String → String
join String.[] t = t
join (String.◌∷◌ c s) t = String.◌∷◌ c (join s t)

abbrev add_front : Char → Option (String × String) → Option (String × String)
add_front c none = none
add_front c (some (a, b)) = some (String.◌∷◌ c a, b)

-- The parts before and after the first colon; `none` where there is no colon.
unfoldable pub partition : String → Option (String × String)
partition String.[] = none
partition (String.◌∷◌ c s) =
    let rest = partition s in if code c == b':' then some (String.[], s) else add_front c rest

unfoldable pub has_colon : String → Bool
has_colon String.[] = false
has_colon (String.◌∷◌ c s) = if code c == b':' then true else has_colon s

-- `f"{a}:{b}"`
unfoldable pub with_colon : String → String → String
with_colon a b = join a (join ":" b)

pub partition-with_colon :
    (a b : String) → has_colon a ≡ false → partition (with_colon a b) ≡ some (a, b)
unfolding partition with_colon join has_colon
partition-with_colon String.[] b h = refl
partition-with_colon (String.◌∷◌ c s) b h = ground (arith, partition-with_colon s b)
