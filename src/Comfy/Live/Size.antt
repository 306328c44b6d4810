-- ===== src/Comfy/Live/Size.antt =====
-- `_resolve_dimensions` of backend/app/adapters/comfyui/live.py.
use imagin.Prelude.{
  ℕ, zero, suc, ◌*◌, ◌/◌, ◌%◌, ◌≤◌, ◌<◌, ◌≡◌, refl, min, String, Option, none, some, List, [], ◌∷◌,
  str_eq, if◌then◌else◌, arith, Bool-cases, inl, inr, ◌⊎◌,
}
use imagin.Prelude.Json.{Json, string, array, object, truthy}

-- A value on its way to the key of a dictionary: a false one, a text, another value that the
-- dictionary does not have, or one that raises `TypeError`.
pub data Lookup : Type 0 where
  missing no_text unhashable : Lookup
  text : String → Lookup

abbrev hashed : Json → Lookup
hashed (string s) = text s
hashed (array xs) = unhashable
hashed (object d) = unhashable
hashed _ = no_text

abbrev pub lookup_of : Option Json → Lookup
lookup_of none = missing
lookup_of (some v) = if truthy v then hashed v else missing

-- `_BASE_DIMENSIONS_1K`
abbrev pub base_dimensions : List (String × ℕ × ℕ)
base_dimensions =
    ("1:1", 1024, 1024)
    ∷ ("9:16", 768, 1344)
    ∷ ("2:3", 832, 1216)
    ∷ ("3:4", 896, 1152)
    ∷ ("4:5", 896, 1088)
    ∷ ("5:4", 1088, 896)
    ∷ ("4:3", 1152, 896)
    ∷ ("3:2", 1216, 832)
    ∷ ("16:9", 1344, 768)
    ∷ ("21:9", 1536, 640)
    ∷ []

-- `_QWEN_IMAGE_BASE_DIMENSIONS_1K`
abbrev pub qwen_image_base_dimensions : List (String × ℕ × ℕ)
qwen_image_base_dimensions =
    ("1:1", 1328, 1328)
    ∷ ("16:9", 1664, 928)
    ∷ ("9:16", 928, 1664)
    ∷ ("4:3", 1472, 1140)
    ∷ ("3:4", 1140, 1472)
    ∷ ("3:2", 1584, 1056)
    ∷ ("2:3", 1056, 1584)
    ∷ ("5:4", 1472, 1140)
    ∷ ("4:5", 1140, 1472)
    ∷ ("21:9", 1664, 704)
    ∷ []

abbrev size_at : String → ℕ × ℕ → List (String × ℕ × ℕ) → ℕ × ℕ
size_at key default_size [] = default_size
size_at key default_size ((k, width, height) ∷ rest) =
    if str_eq k key then (width, height) else size_at key default_size rest

-- `table.get(aspect_ratio or "1:1", table["1:1"])`
abbrev pub base_size : ℕ × ℕ → List (String × ℕ × ℕ) → Lookup → Option (ℕ × ℕ)
base_size square table (text key) = some (size_at key square table)
base_size square table unhashable = none
base_size square table _ = some square

-- `_RESOLUTION_SCALE.get(resolution or "1K", 1)`
abbrev pub scale_of : Lookup → Option ℕ
scale_of (text key) = some (if str_eq key "2K" then 2 else if str_eq key "4K" then 4 else 1)
scale_of unhashable = none
scale_of _ = some 1

-- `(min(side * scale, _MAX_DIM) // 8) * 8`
unfoldable pub side : ℕ → ℕ → ℕ
side base scale = min (base * scale) 4096 / 8 * 8

abbrev scaled_size : Option (ℕ × ℕ) → Option ℕ → Option (ℕ × ℕ)
scaled_size (some (w, h)) (some scale) = some (side w scale, side h scale)
scaled_size _ _ = none

-- `none` is the `TypeError` for a list or a dictionary as a key.
unfoldable pub resolve_dimensions : Option Json → Option Json → String → Option (ℕ × ℕ)
resolve_dimensions aspect_ratio resolution family =
    scaled_size
      (if str_eq family "qwen_image"
        then base_size (1328, 1328) qwen_image_base_dimensions (lookup_of aspect_ratio)
        else base_size (1024, 1024) base_dimensions (lookup_of aspect_ratio))
      (scale_of (lookup_of resolution))

-- What a table gives: sides from 640 to 1664.
abbrev pub Fits : ℕ × ℕ → Type 0
Fits (w, h) = (640 ≤ w) × (w ≤ 1664) × (640 ≤ h) × (h ≤ 1664)

abbrev TableFits : List (String × ℕ × ℕ) → Type 0
TableFits [] = Unit
TableFits ((k, w, h) ∷ rest) = Fits (w, h) × TableFits rest

size_at-Fits :
    (key : String) (square : ℕ × ℕ) (table : List (String × ℕ × ℕ))
    → Fits square
    → TableFits table
    → Fits (size_at key square table)
size_at-Fits key square [] h t = h
size_at-Fits key square ((k, w, g) ∷ rest) h (here, later) = elim (Bool-cases (str_eq k key)) [
  | inl e ↦ rw e here
  | inr e ↦ rw e (size_at-Fits key square rest h later)
]

abbrev AllFit : Lookup → Option (ℕ × ℕ) → Type 0
AllFit l none = l ≡ unhashable
AllFit l (some size) = Fits size

base_size-AllFit :
    (square : ℕ × ℕ) (table : List (String × ℕ × ℕ)) (l : Lookup)
    → Fits square
    → TableFits table
    → AllFit l (base_size square table l)
base_size-AllFit square table missing h t = h
base_size-AllFit square table no_text h t = h
base_size-AllFit square table unhashable h t = refl
base_size-AllFit square table (text key) h t = size_at-Fits key square table h t

-- A side that the samplers take.
abbrev pub IsSide : ℕ → Type 0
IsSide n = (n % 8 ≡ 0) × (640 ≤ n) × (n ≤ 4096)

multiple : (n : ℕ) → 640 ≤ n → n ≤ 4096 → IsSide (n / 8 * 8)
multiple n low high = (omega arith, omega arith, omega arith)

grows : (base scale : ℕ) → 0 < scale → base ≤ base * scale
grows base (suc n) p = ground arith
grows base zero p = omega arith

side-IsSide : (base scale : ℕ) → 640 ≤ base → 0 < scale → IsSide (side base scale)
unfolding side
side-IsSide base scale h p =
    multiple (min (base * scale) 4096) (omega (arith, grows base scale p)) (omega arith)

-- Both sides are good; there is no size only for a value that no dictionary takes as a key.
abbrev pub AllSides : Lookup → Lookup → Option (ℕ × ℕ) → Type 0
AllSides a r none = (a ≡ unhashable) ⊎ (r ≡ unhashable)
AllSides a r (some (width, height)) = IsSide width × IsSide height

sides : (w h scale : ℕ) → Fits (w, h) → 0 < scale → IsSide (side w scale) × IsSide (side h scale)
sides w h scale (a, b, c, d) p = (side-IsSide w scale a p, side-IsSide h scale c p)

scale_at : (key : String) → 0 < (if str_eq key "2K" then 2 else if str_eq key "4K" then 4 else 1)
scale_at key = ground arith

scaled_size-AllSides :
    (size : Option (ℕ × ℕ)) (a l : Lookup)
    → AllFit a size
    → AllSides a l (scaled_size size (scale_of l))
scaled_size-AllSides none a l h = inl h
scaled_size-AllSides (some (w, g)) a missing h = sides w g 1 h (omega arith)
scaled_size-AllSides (some (w, g)) a no_text h = sides w g 1 h (omega arith)
scaled_size-AllSides (some (w, g)) a unhashable h = inr refl
scaled_size-AllSides (some (w, g)) a (text key) h = sides w g _ h (scale_at key)

-- Both sides of the size that `_resolve_dimensions` gives are multiples of 8, at least 640 and at most
-- 4096, for tabled, unknown and missing aspect ratios and resolutions alike; it gives one unless the
-- aspect ratio or the resolution is a list or a dictionary that is not empty.
pub resolve_dimensions-AllSides :
    (aspect_ratio resolution : Option Json) (family : String)
    → AllSides
        (lookup_of aspect_ratio)
        (lookup_of resolution)
        (resolve_dimensions aspect_ratio resolution family)
unfolding resolve_dimensions
resolve_dimensions-AllSides aspect_ratio resolution family =
    scaled_size-AllSides _ (lookup_of aspect_ratio) (lookup_of resolution)
      (elim (Bool-cases (str_eq family "qwen_image")) [
        | inl e ↦
            rw e (base_size-AllFit _ qwen_image_base_dimensions (lookup_of aspect_ratio) small qwen)
        | inr e ↦ rw e (base_size-AllFit _ base_dimensions (lookup_of aspect_ratio) square base)
      ])
  where
    small : Fits (1328, 1328)
    small = (omega arith, omega arith, omega arith, omega arith)

    square : Fits (1024, 1024)
    square = (omega arith, omega arith, omega arith, omega arith)

    qwen : TableFits qwen_image_base_dimensions
    qwen = ground arith

    base : TableFits base_dimensions
    base = ground arith
