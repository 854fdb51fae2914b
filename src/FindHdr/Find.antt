-- ===== src/FindHdr/Find.antt =====
-- `le_find`. Behind a match the code compares with what stands behind the header in memory, which
-- is the argument `beyond`.
use meraki_builder.Prelude.{
  ℕ, ◌+◌, ◌-◌, Bytes, Bool, true, false, [], ◌∷◌, Option, none, some, ◌==◌, if◌then◌else◌, length,
  get_elem?,
}

module _ (shdr : Bytes) (beyond : ℕ → ℕ) (footer : Bool) where
  abbrev pub char_at : ℕ → ℕ
  char_at i = elim (get_elem? shdr i) [ none ↦ beyond i | some c ↦ c ]

  -- The position of the header's start, or of the footer's end, once `pos` bytes are read.
  abbrev pub placed : ℕ → ℕ → Option ℕ → Option ℕ
  placed pos index found =
      if index == length shdr then some (if footer then pos else pos - index) else found

  unfoldable pub find_loop : ℕ → ℕ → Option ℕ → Bytes → Option ℕ
  find_loop pos index found [] = found
  find_loop pos index found (ch ∷ s) = elim (ch == char_at index) [
    | true ↦ find_loop (pos + 1) (index + 1) (placed (pos + 1) (index + 1) found) s
    | false ↦ find_loop (pos + 1) 0 found s
  ]

  -- None is -1.
  unfoldable pub le_find : Bytes → Option ℕ
  unfolding find_loop
  le_find file = find_loop 0 0 none file
