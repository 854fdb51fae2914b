-- ===== src/Libc/Tokens.antt =====
-- `strtok_r` over one separator, and the cutting of a line at its end and at a NUL byte.
use meraki_builder.Prelude.{
  ℕ, Bytes, true, false, List, [], ◌∷◌, ◌++◌, ◌≡◌, ◌≢◌, arith, ◌==◌, if◌then◌else◌, ◌||◌, All,
  append_assoc, append-nil,
}

-- A token is never empty: separators in a row count as one.
abbrev emit : Bytes → List Bytes → List Bytes
emit [] rest = rest
emit (c ∷ cur) rest = (c ∷ cur) ∷ rest

words : ℕ → Bytes → Bytes → List Bytes
words sep [] cur = emit cur []
words sep (c ∷ s) cur = elim (c == sep) [
  | true ↦ emit cur (words sep s [])
  | false ↦ words sep s (cur ++ c ∷ [])
]

-- The tokens that successive calls of `strtok_r` give.
unfoldable pub tokens : ℕ → Bytes → List Bytes
unfolding words
tokens sep s = words sep s []

-- `text[strcspn(text, "\r\n")] = '\0'`.
unfoldable pub trim_newline : Bytes → Bytes
trim_newline [] = []
trim_newline (c ∷ s) = if c == 10 || c == 13 then [] else c ∷ trim_newline s

-- A buffer read as a C string ends at its first NUL.
unfoldable pub c_string : Bytes → Bytes
c_string [] = []
c_string (c ∷ s) = if c == 0 then [] else c ∷ c_string s

abbrev pub Lacks : ℕ → Bytes → Type 0
Lacks b = All (λ c. c ≢ b)

words_plain :
    (sep : ℕ) (w rest cur : Bytes)
    → Lacks sep w
    → words sep (w ++ rest) cur ≡ words sep rest (cur ++ w)
unfolding words
words_plain sep [] rest cur h = rw append-nil
words_plain sep (c ∷ w) rest cur h =
    ground (arith, words_plain sep w rest (cur ++ c ∷ []) h.1, append_assoc cur (c ∷ []) w)

words_sep : (sep : ℕ) (rest cur : Bytes) → words sep (sep ∷ rest) cur ≡ emit cur (words sep rest [])
unfolding words
words_sep sep rest cur = ground arith

-- A non-empty text with no separator, then a separator, is the first token.
pub tokens-cons :
    (sep c : ℕ) (w rest : Bytes)
    → Lacks sep (c ∷ w)
    → tokens sep ((c ∷ w) ++ sep ∷ rest) ≡ (c ∷ w) ∷ tokens sep rest
unfolding tokens
tokens-cons sep c w rest h =
    rw (words_plain sep (c ∷ w) (sep ∷ rest) [] h, words_sep sep rest (c ∷ w))

pub tokens-last :
    (sep c : ℕ) (w : Bytes) → Lacks sep (c ∷ w) → tokens sep ((c ∷ w) ++ []) ≡ (c ∷ w) ∷ []
unfolding tokens
tokens-last sep c w h = rw (words_plain sep (c ∷ w) [] [] h)
