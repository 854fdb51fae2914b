-- ===== src/Roles/Fields.antt =====
-- The lines of an account file and their fields.
use meraki_builder.Prelude.{
  ℕ, zero, suc, Bytes, true, false, List, [], ◌∷◌, ◌++◌, Option, none, some, ◌==◌, ◌||◌,
  if◌then◌else◌,
}
use meraki_builder.Libc.{trim_newline, c_string}

abbrev pub account_line_max : ℕ
account_line_max = 4096

abbrev last_line : Bytes → List Bytes
last_line [] = []
last_line (c ∷ cur) = (c ∷ cur) ∷ []

-- The lines that repeated calls of `fgets` give: each of at most `size` bytes, up to a newline.
-- `room` is what is left for the current line `cur`.
unfoldable pub fgets_lines : ℕ → ℕ → Bytes → Bytes → List Bytes
fgets_lines size room cur [] = last_line cur
fgets_lines size zero cur (c ∷ s) = cur ∷ fgets_lines size size (c ∷ []) s
fgets_lines size (suc room) cur (c ∷ s) = elim (c == 10 || room == 0) [
  | true ↦ (cur ++ c ∷ []) ∷ fgets_lines size size [] s
  | false ↦ fgets_lines size room (cur ++ c ∷ []) s
]

-- A line as the code sees it: a C string, cut at its end.
abbrev text_of : Bytes → Bytes
unfolding trim_newline c_string
text_of line = trim_newline (c_string line)

abbrev map_text : List Bytes → List Bytes
unfolding text_of
map_text [] = []
map_text (l ∷ ls) = text_of l ∷ map_text ls

unfoldable pub account_lines : Bytes → List Bytes
unfolding fgets_lines map_text text_of
account_lines text = map_text (fgets_lines 4095 4095 [] text)

-- A text up to its first colon, and what is behind that, if there is one.
unfoldable pub cut_colon : Bytes → Bytes × Option Bytes
cut_colon [] = ([], none)
cut_colon (c ∷ s) =
    let (field, rest) = cut_colon s in if c == b':' then ([], some s) else (c ∷ field, rest)

-- The field at the cursor, and the cursor behind it; none is a null pointer.
unfoldable pub next_colon_field : Option Bytes → Option Bytes × Option Bytes
unfolding cut_colon
next_colon_field none = (none, none)
next_colon_field (some s) = let (field, rest) = cut_colon s in (some field, rest)

-- The first four fields of a line.
pub record Fields : Type 0 where
  pub name : Option Bytes
  pub password : Option Bytes
  pub third : Option Bytes
  pub fourth : Option Bytes

unfoldable pub fields_of : Bytes → Fields
unfolding next_colon_field
fields_of line =
    let (a, c1) = next_colon_field (some line) in
    let (b, c2) = next_colon_field c1 in
    let (c, c3) = next_colon_field c2 in
    let (d, c4) = next_colon_field c3 in record { name = a; password = b; third = c; fourth = d }
