-- ===== src/Roles/Members.antt =====
-- The member list of a group, as a list of names with commas between them.
use meraki_builder.Prelude.{
  ℕ, ◌<◌, Bytes, Bool, true, List, [], ◌∷◌, ◌++◌, ◌≡◌, refl, sym, ap, ◌∙◌, All, length, bytes_eq,
  if_true_eq, ltb, lt→ltb, ◌↔◌, if_both, subst, bytes_eq→eq, ne_of_bytes_eq, inl, inr,
}
use mathlib.Core.List.{Memᴰ}
use mathlib.Core.List.Memᴰ
use meraki_builder.Libc.{tokens, tokens-cons, tokens-last, Lacks}
use meraki_builder.Roles.Account.{member_list_contains, has_token}

-- A name that can stand in the list.
pub record IsName (s : Bytes) : Type 0 where
  pub first : ℕ
  pub others : Bytes
  pub spelled : s ≡ first ∷ others
  pub plain : Lacks b',' (first ∷ others)

unfoldable pub join : List Bytes → Bytes
join [] = []
join (x ∷ []) = x ++ []
join (x ∷ y ∷ xs) = x ++ b',' ∷ join (y ∷ xs)

tokens-join : (names : List Bytes) → All IsName names → tokens b',' (join names) ≡ names
unfolding join tokens
tokens-join [] h = refl
tokens-join (x ∷ []) h = let v = h.0 in rw v.spelled (tokens-last b',' v.first v.others v.plain)
tokens-join (x ∷ y ∷ xs) h =
    let v = h.0 in
    rw v.spelled (
      tokens-cons b',' v.first v.others (join (y ∷ xs)) v.plain
      ∙ ap (λ l. (v.first ∷ v.others) ∷ l) (tokens-join (y ∷ xs) h.1))

has_token-Mem :
    (username : Bytes) (names : List Bytes) → has_token username names ≡ true → Memᴰ username names
unfolding has_token
has_token-Mem username [] h = cc
has_token-Mem username (x ∷ xs) h =
    if_both (λ (b : Bool). b ≡ true → Memᴰ username (x ∷ xs)) (bytes_eq x username) true
      (has_token username xs) (λ e _. Memᴰ.head (sym (bytes_eq→eq x username e)))
      (λ _ k. Memᴰ.tail (has_token-Mem username xs k)) h

Mem-has_token :
    (username : Bytes) (names : List Bytes) → Memᴰ username names → has_token username names ≡ true
unfolding has_token
Mem-has_token username [] m = absurd (Memᴰ.not-nil m)
Mem-has_token username (x ∷ xs) m =
    if_both (λ (b : Bool). b ≡ true) (bytes_eq x username) true (has_token username xs) (λ _. refl)
      (λ ne. elim (Memᴰ.cases_cons m) [
        | inl e ↦ absurd (ne_of_bytes_eq x username ne (sym e))
        | inr k ↦ Mem-has_token username xs k
      ])

-- For names that are not empty and have no comma, joined by commas to a text that fits the
-- buffer: the code finds a user in the text exactly when the user is one of the names.
pub member_list_contains-join :
    (names : List Bytes) (username : Bytes)
    → All IsName names
    → length (join names) < 4096
    → (member_list_contains (join names) username ≡ true) ↔ Memᴰ username names
unfolding member_list_contains
member_list_contains-join names username h fits =
    let e =
      if_true_eq (ltb (length (join names)) 4096) _ _ (lt→ltb (length (join names)) 4096 fits)
      ∙ ap (has_token username) (tokens-join names h) in
    subst (λ b. (b ≡ true) ↔ Memᴰ username names) (sym e)
      (has_token-Mem username names, Mem-has_token username names)
