-- ===== src/Config/TallyMarks.antt =====
-- A Python for the examples: numbers are written as tally marks, and floats are whole numbers.
use imagin.Prelude.{ℕ, zero, suc, ◌≡◌, ap, refl, ◌==◌, if◌then◌else◌, leb, false, String}
use imagin.Prelude.Int.{ℤ, pos, negsuc}
use imagin.Prelude.Parts.{join, has_colon}
use imagin.Prelude.Python.{Python, Converted, value, refused}
use Prim.Native.Char.{code}

unfoldable pub marks : ℕ → String
marks zero = ""
marks (suc n) = join "1" (marks n)

unfoldable pub size : String → ℕ
size Prim.Native.String.[] = 0
size (Prim.Native.String.◌∷◌ c s) = suc (size s)

pub size-marks : (n : ℕ) → size (marks n) ≡ n
unfolding size marks join
size-marks zero = refl
size-marks (suc n) = ap suc (size-marks n)

unfoldable pub read_int : String → Converted ℤ
read_int Prim.Native.String.[] = value (pos 0)
read_int (Prim.Native.String.◌∷◌ c s) =
    if code c == b'-' then value (negsuc (size s)) else value (pos (suc (size s)))

unfoldable pub print_int : ℤ → String
print_int (pos n) = marks n
print_int (negsuc n) = join "-" (marks n)

unfoldable pub float_of_int : ℤ → Converted ℕ
float_of_int (pos n) = value n
float_of_int (negsuc n) = refused

abbrev pub tally_marks : Python
tally_marks = record {
  Float = ℕ;
  le = leb;
  read = size;
  print = marks;
  read-print = size-marks;
  float_of_text = λ s. value (size s);
  float_of_int = float_of_int;
  int_of_text = read_int;
  int_of_float = λ n. value (pos n);
  print_int = print_int;
  print_container = λ x. "[]";
}

pub read-print_int : (z : ℤ) → read_int (print_int z) ≡ value z
unfolding read_int print_int marks join
read-print_int (pos zero) = refl
read-print_int (pos (suc n)) = ap (λ k. value (pos (suc k))) (size-marks n)
read-print_int (negsuc n) = ap (λ k. value (negsuc k)) (size-marks n)

marks-no_colon : (n : ℕ) → has_colon (marks n) ≡ false
unfolding has_colon marks join
marks-no_colon zero = refl
marks-no_colon (suc n) = marks-no_colon n

pub print_int-no_colon : (z : ℤ) → has_colon (print_int z) ≡ false
unfolding has_colon print_int join
print_int-no_colon (pos n) = marks-no_colon n
print_int-no_colon (negsuc n) = marks-no_colon n
