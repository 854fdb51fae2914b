-- ===== src/Throttle/Slots.antt =====
-- Where `auth_bucket_for` ends, as a split of the table.
use meraki_builder.Prelude.{
  ℕ, ◌+◌, Bytes, Bool, true, false, List, [], ◌∷◌, ◌++◌, ◌≡◌, refl, ap, arith, ◌&&◌, bytes_eq,
  length, get_or, set, All, elim_both,
}
use meraki_builder.Throttle.Buckets.{
  Bucket, Buckets, nonempty, older, Slot, found, free, full, scan,
}

-- The bucket is in use for the key, or for another one.
abbrev pub hit : Bytes → Bucket → Bool
hit key b = nonempty b.key && bytes_eq b.key key

pub record Other (key : Bytes) (b : Bucket) : Type 0 where
  pub used : nonempty b.key ≡ true
  pub differs : bytes_eq b.key key ≡ false

-- A bucket behind buckets that are in use for other keys; `i` buckets stand before these.
pub record Located (P : Bucket → Type 0) (key : Bytes) (i : ℕ) (bs : Buckets) (j : ℕ) : Type 0 where
  pub before : Buckets
  pub here : Bucket
  pub behind : Buckets
  pub split : bs ≡ before ++ here ∷ behind
  pub place : i + length before ≡ j
  pub others : All (Other key) before
  pub what : P here

abbrev pub AtSlot : Bytes → ℕ → Buckets → Slot → Type 0
AtSlot key i bs (found j) = Located (λ b. hit key b ≡ true) key i bs j
AtSlot key i bs (free j) = Located (λ b. nonempty b.key ≡ false) key i bs j
AtSlot key i bs (full j) = All (Other key) bs

pushed :
    (P : Bucket → Type 0) (key : Bytes) (i : ℕ) (b : Bucket) (bs : Buckets) (j : ℕ)
    → Other key b
    → Located P key (i + 1) bs j
    → Located P key i (b ∷ bs) j
pushed P key i b bs j o l = record {
  before = b ∷ l.before;
  here = l.here;
  behind = l.behind;
  split = ap (λ t. b ∷ t) l.split;
  place = omega (arith, l.place);
  others = (o, l.others);
  what = l.what;
}

later :
    (key : Bytes) (i : ℕ) (b : Bucket) (bs : Buckets) (s : Slot)
    → Other key b
    → AtSlot key (i + 1) bs s
    → AtSlot key i (b ∷ bs) s
later key i b bs (found j) o l = pushed (λ b. hit key b ≡ true) key i b bs j o l
later key i b bs (free j) o l = pushed (λ b. nonempty b.key ≡ false) key i b bs j o l
later key i b bs (full j) o l = (o, l)

pub scan-AtSlot :
    (key : Bytes) (i : ℕ) (oldest : ℕ × ℕ) (bs : Buckets) → AtSlot key i bs (scan key i oldest bs)
unfolding scan
scan-AtSlot key i oldest [] = tt
scan-AtSlot key i oldest (b ∷ bs) =
    elim_both (AtSlot key i (b ∷ bs)) (hit key b) _ _
      (λ e. record {
        before = [];
        here = b;
        behind = bs;
        split = refl;
        place = omega arith;
        others = tt;
        what = e;
      })
      (λ ne.
        elim_both (AtSlot key i (b ∷ bs)) (nonempty b.key) _ _
          (λ used.
            later key i b bs (scan key (i + 1) (older i b.last_seen oldest) bs)
              (record { used = used; differs = ground arith })
              (scan-AtSlot key (i + 1) (older i b.last_seen oldest) bs))
          (λ vacant. record {
            before = [];
            here = b;
            behind = bs;
            split = refl;
            place = omega arith;
            others = tt;
            what = vacant;
          }))

module _ {A : Type 0} where
  pub set-append :
      (xs : List A) (a b : A) (ys : List A) → set (xs ++ a ∷ ys) (length xs) b ≡ xs ++ b ∷ ys
  set-append [] a b ys = refl
  set-append (x ∷ xs) a b ys = ap (λ t. x ∷ t) (set-append xs a b ys)

  pub get_or-append :
      (xs : List A) (a d : A) (ys : List A) → get_or (xs ++ a ∷ ys) (length xs) d ≡ a
  get_or-append [] a d ys = refl
  get_or-append (x ∷ xs) a d ys = get_or-append xs a d ys
