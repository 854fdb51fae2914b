-- ===== src/FindHdr/Sound.antt =====
-- What `le_find` finds is there, and what it misses.
use meraki_builder.Prelude.{
  ℕ, zero, suc, ◌+◌, ◌-◌, ◌≤◌, Bytes, Bool, false, [], ◌∷◌, ◌++◌, Option, none, some, ◌≡◌, ◌≢◌,
  refl, sym, ap, ◌∙◌, ◌==◌, ==_iff, length, length-append, get_elem?, take, take-length_le,
  append_assoc, append-nil, arith, if_both, elim_both, Option-cases, inl, inr, subst,
}
use meraki_builder.FindHdr.Find.{char_at, placed, find_loop, le_find}

-- A place of the header in a file.
pub record At (shdr file : Bytes) (p : ℕ) : Type 0 where
  pub before : Bytes
  pub behind : Bytes
  pub split : file ≡ before ++ (shdr ++ behind)
  pub place : length before ≡ p

take_snoc : (xs : Bytes) (i c : ℕ) → get_elem? xs i ≡ some c → take (i + 1) xs ≡ take i xs ++ c ∷ []
take_snoc [] i c h = cc
take_snoc (x ∷ xs) zero c h = ground arith
take_snoc (x ∷ xs) (suc i) c h =
    let e : suc i + 1 ≡ suc (i + 1) = omega arith in rw e (ap (λ t. x ∷ t) (take_snoc xs i c h))

beyond_none : (xs : Bytes) (i : ℕ) → get_elem? xs i ≡ none → length xs ≤ i
beyond_none [] i h = omega arith
beyond_none (x ∷ xs) zero h = cc
beyond_none (x ∷ xs) (suc i) h = omega (arith, beyond_none xs i h)

module _ (shdr : Bytes) (beyond : ℕ → ℕ) (file : Bytes) where
  -- The bytes read end in the first `index` bytes of the header, as long as there are so many.
  Suffix : Bytes → ℕ → Type 0
  Suffix pre index = index ≤ length shdr → (u : Bytes) × (pre ≡ u ++ take index shdr)

  Right : Option ℕ → Type 0
  Right none = Unit
  Right (some p) = At shdr file p

  longer :
      (pre : Bytes) (index ch : ℕ)
      → Suffix pre index
      → ch ≡ char_at shdr beyond false index
      → Suffix (pre ++ ch ∷ []) (index + 1)
  unfolding Suffix
  longer pre index ch v e = λ h. elim (Option-cases (get_elem? shdr index)) [
    | inl k ↦ absurd (omega (arith, beyond_none shdr index k))
    | inr (c, k) ↦
        let (u, w) = v (omega arith) in
        let same : ch ≡ c = e ∙ rw (k, char_at) refl in
        (
          u,
          ap (λ q. q ++ ch ∷ []) w
              ∙ append_assoc u (take index shdr) (ch ∷ [])
              ∙ ap (λ d. u ++ (take index shdr ++ d ∷ [])) same
              ∙ ap (λ q. u ++ q) (sym (take_snoc shdr index c k)),
        )
  ]

  begins : (pre : Bytes) → Suffix pre 0
  unfolding Suffix
  begins pre = λ _. (pre, sym (append-nil pre))

  matched :
      (pre s : Bytes)
      → file ≡ pre ++ s
      → Suffix pre (length shdr)
      → At shdr file (length pre - length shdr)
  unfolding Suffix
  matched pre s e v =
      let (u, w) = v (omega arith) in
      let whole = w ∙ ap (λ q. u ++ q) (take-length_le (length shdr) shdr (omega arith)) in
      record {
        before = u;
        behind = s;
        split = e ∙ ap (λ q. q ++ s) whole ∙ append_assoc u shdr s;
        place = omega (arith, ap length whole, length-append u shdr);
      }

  placed-Right :
      (pre s : Bytes) (index : ℕ) (found : Option ℕ)
      → file ≡ pre ++ s
      → Suffix pre index
      → Right found
      → Right (placed shdr beyond false (length pre) index found)
  unfolding Right
  placed-Right pre s index found e v r =
      if_both Right (index == length shdr) _ _
        (λ same.
          let k = (==_iff index (length shdr)).0 same in
          subst (λ n. At shdr file (length pre - n)) (sym k)
            (matched pre s e (subst (Suffix pre) k v)))
        (λ _. r)

  find_loop-Right :
      (s pre : Bytes) (index : ℕ) (found : Option ℕ)
      → file ≡ pre ++ s
      → Suffix pre index
      → Right found
      → Right (find_loop shdr beyond false (length pre) index found s)
  unfolding find_loop
  find_loop-Right [] pre index found e v r = r
  find_loop-Right (ch ∷ s) pre index found e v r =
      let pre' = pre ++ ch ∷ [] in
      let size : length pre + 1 ≡ length pre' = sym (length-append pre (ch ∷ [])) in
      let e' : file ≡ pre' ++ s = e ∙ sym (append_assoc pre (ch ∷ []) s) in
      elim_both Right (ch == char_at shdr beyond false index) _ _
        (λ same.
          let v' = longer pre index ch v ((==_iff ch (char_at shdr beyond false index)).0 same) in
          subst
            (λ n. Right (
              find_loop shdr beyond false n (index + 1)
                (placed shdr beyond false n (index + 1) found) s))
            (sym size)
            (find_loop-Right s pre' (index + 1) _ e' v'
              (placed-Right pre' s (index + 1) found e' v' r)))
        (λ _.
          subst (λ n. Right (find_loop shdr beyond false n 0 found s)) (sym size)
            (find_loop-Right s pre' 0 found e' (begins pre') r))

-- Whatever stands behind the header in memory: a position that is found for a header is one at
-- which the file has the header.
pub le_find-At :
    (shdr : Bytes) (beyond : ℕ → ℕ) (file : Bytes) (p : ℕ)
    → le_find shdr beyond false file ≡ some p
    → At shdr file p
unfolding le_find Right
le_find-At shdr beyond file p h =
    subst (Right shdr beyond file) h
      (find_loop-Right shdr beyond file file [] 0 none refl (begins shdr beyond file []) tt)

-- A header of three bytes, the first two of which differ, is missed in the file of four bytes that
-- has the header behind one more copy of its first byte, although it stands there at position 1.
pub le_find_misses :
    (a b c : ℕ) (beyond : ℕ → ℕ) (footer : Bool)
    → a ≢ b
    → (le_find (a ∷ b ∷ c ∷ []) beyond footer (a ∷ a ∷ b ∷ c ∷ []) ≡ none)
      × At (a ∷ b ∷ c ∷ []) (a ∷ a ∷ b ∷ c ∷ []) 1
unfolding le_find find_loop
le_find_misses a b c beyond footer h =
    (ground arith, record { before = a ∷ []; behind = []; split = refl; place = refl })
