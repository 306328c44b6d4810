-- ===== src/Prelude/Python.antt =====
-- What the code takes of Python's numbers and texts, as a parameter: floats with their order, and
-- the conversions where these read or print a number or a container.
use Prim.Native.String.{String}
use mathlib.Core.Path.{◌≡◌}
use mathlib.Core.Bool.{Bool, true, false}
use imagin.Prelude.Int.{ℤ, pos}
use imagin.Prelude.Json.{Json, null, boolean, integer, float, string, array, object}

-- The answer of a conversion: a value, `TypeError` or `ValueError`, or `OverflowError`.
pub data Converted {ℓ} (A : Type ℓ) : Type ℓ where
  value : A → Converted A
  refused overflow : Converted A

pub record Python : Type 1 where
  pub Float : Type 0
  pub le : Float → Float → Bool
  -- the float that a decimal text stands for, and the text that stands for a float
  pub read : String → Float
  pub print : Float → String
  -- a float is read back as it was printed
  pub read-print : (f : Float) → read (print f) ≡ f
  -- `float(x)` of a text and of an integer, `int(x)` of a text and of a float
  pub float_of_text : String → Converted Float
  pub float_of_int : ℤ → Converted Float
  pub int_of_text : String → Converted ℤ
  pub int_of_float : Float → Converted ℤ
  -- `str(x)` of an integer, and of a list or a dictionary
  pub print_int : ℤ → String
  pub print_container : Json → String

abbrev bit : Bool → ℤ
bit true = pos 1
bit false = pos 0

module _ (py : Python) where
  -- `str(x)`
  unfoldable pub str : Json → String
  str null = "None"
  str (boolean true) = "True"
  str (boolean false) = "False"
  str (integer z) = py.print_int z
  str (float r) = py.print (py.read r)
  str (string s) = s
  str (array xs) = py.print_container (array xs)
  str (object d) = py.print_container (object d)

  -- `int(x)`
  unfoldable pub int_of : Json → Converted ℤ
  int_of (boolean b) = value (bit b)
  int_of (integer z) = value z
  int_of (float r) = py.int_of_float (py.read r)
  int_of (string s) = py.int_of_text s
  int_of _ = refused

  -- `float(x)`
  unfoldable pub float_of : Json → Converted py.Float
  float_of (boolean b) = py.float_of_int (bit b)
  float_of (integer z) = py.float_of_int z
  float_of (float r) = value (py.read r)
  float_of (string s) = py.float_of_text s
  float_of _ = refused
