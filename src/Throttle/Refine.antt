-- ===== src/Throttle/Refine.antt =====
-- The table as a function from keys to counts.
use meraki_builder.Prelude.{
  ℕ, ◌+◌, ◌%◌, ◌^◌, ◌≤◌, ◌<◌, Bytes, true, false, [], ◌∷◌, ◌++◌, ◌≡◌, ◌≢◌, refl, sym, ap, ◌∙◌,
  subst, arith, leb, ◌&&◌, if◌then◌else◌, bytes_eq, bytes_eq_refl, bytes_eq→eq, length, get_or, set,
  take, take-length_le, All, if_true_eq, if_false_eq, ◌⊎◌, inl, inr,
}
use mathlib.Core.Bool.{false≢true}
use meraki_builder.Throttle.Buckets.{
  Bucket, Buckets, no_bucket, nonempty, Slot, found, free, full, slot_of, at_slot, auth_bucket_for,
  delay, fail, failed_at, auth_record_failure_key,
}
use meraki_builder.Throttle.Slots.{
  hit, Other, Located, AtSlot, scan-AtSlot, set-append, get_or-append,
}

-- What is kept of a key.
pub record Count : Type 0 where
  pub failures : ℕ
  pub blocked_until : ℕ

abbrev pub no_count : Count
no_count = record { failures = 0; blocked_until = 0 }

abbrev pub count_of : Bucket → Count
count_of b = record { failures = b.failures; blocked_until = b.blocked_until }

-- The count of a key in the table: of any bucket in use for it.
unfoldable pub view : Bytes → Buckets → Count
view key [] = no_count
view key (b ∷ bs) = let rest = view key bs in if hit key b then count_of b else rest

-- A failed attempt for one key.
unfoldable pub fail_count : ℕ → Count → Count
fail_count now c =
    let failures = (c.failures + 1) % 2 ^ 32 in
    record {
      failures = failures;
      blocked_until = if leb 3 failures then now + delay failures else c.blocked_until;
    }

-- A free bucket is blank, and so are those behind it.
abbrev pub Packed : Buckets → Type 0
Packed [] = Unit
Packed (b ∷ bs) =
    ((nonempty b.key ≡ true) × Packed bs) ⊎ ((b ≡ no_bucket) × All (λ c. c ≡ no_bucket) bs)

-- The free buckets.
unfoldable pub vacant : Buckets → ℕ
vacant [] = 0
vacant (b ∷ bs) = (if nonempty b.key then 0 else 1) + vacant bs

pub view_others :
    (key : Bytes) (before bs : Buckets)
    → All (Other key) before
    → view key (before ++ bs) ≡ view key bs
unfolding view
view_others key [] bs h = refl
view_others key (b ∷ before) bs (o, h) =
    if_false_eq (hit key b) _ _ (ground (arith, o.differs)) ∙ view_others key before bs h

pub view_here :
    (key : Bytes) (b : Bucket) (bs : Buckets) → hit key b ≡ true → view key (b ∷ bs) ≡ count_of b
unfolding view
view_here key b bs h = if_true_eq (hit key b) _ _ h

view_miss :
    (key : Bytes) (b : Bucket) (bs : Buckets) → hit key b ≡ false → view key (b ∷ bs) ≡ view key bs
unfolding view
view_miss key b bs h = if_false_eq (hit key b) _ _ h

pub view_blank : (key : Bytes) (bs : Buckets) → All (λ c. c ≡ no_bucket) bs → view key bs ≡ no_count
unfolding view
view_blank key [] h = refl
view_blank key (b ∷ bs) (e, h) = rw e (view_blank key bs h)

pub view_none : (key : Bytes) (bs : Buckets) → All (Other key) bs → view key bs ≡ no_count
unfolding view
view_none key [] h = refl
view_none key (b ∷ bs) (o, h) =
    if_false_eq (hit key b) _ _ (ground (arith, o.differs)) ∙ view_none key bs h

-- Replacing a bucket that is not the key's by another such one does not show.
view_replaced :
    (key : Bytes) (before : Buckets) (a b : Bucket) (behind : Buckets)
    → hit key a ≡ false
    → hit key b ≡ false
    → view key (before ++ a ∷ behind) ≡ view key (before ++ b ∷ behind)
unfolding view
view_replaced key [] a b behind ha hb = view_miss key a behind ha ∙ sym (view_miss key b behind hb)
view_replaced key (c ∷ before) a b behind ha hb =
    ap (λ r. if hit key c then count_of c else r) (view_replaced key before a b behind ha hb)

pub Packed-blank : (bs : Buckets) → All (λ c. c ≡ no_bucket) bs → Packed bs
Packed-blank [] h = tt
Packed-blank (b ∷ bs) h = inr h

used_not_blank : (b : Bucket) → nonempty b.key ≡ true → b ≢ no_bucket
used_not_blank b h e = false≢true (sym (ap (λ (c : Bucket). nonempty c.key) e) ∙ h)

-- A bucket behind others that are in use is put into use, or stays so.
Packed-put :
    (key : Bytes) (before : Buckets) (old new : Bucket) (behind : Buckets)
    → All (Other key) before
    → nonempty new.key ≡ true
    → Packed (before ++ old ∷ behind)
    → Packed (before ++ new ∷ behind)
Packed-put key [] old new behind o u (inl (used, p)) = inl (u, p)
Packed-put key [] old new behind o u (inr (e, h)) = inl (u, Packed-blank behind h)
Packed-put key (b ∷ before) old new behind (o, os) u (inl (used, p)) =
    inl (used, Packed-put key before old new behind os u p)
Packed-put key (b ∷ before) old new behind (o, os) u (inr (e, h)) =
    absurd (used_not_blank b o.used e)

pub free_blank :
    (key : Bytes) (before : Buckets) (old : Bucket) (behind : Buckets)
    → All (Other key) before
    → nonempty old.key ≡ false
    → Packed (before ++ old ∷ behind)
    → (old ≡ no_bucket) × All (λ c. c ≡ no_bucket) behind
free_blank key [] old behind o f (inl (used, p)) = absurd (false≢true (sym f ∙ used))
free_blank key [] old behind o f (inr h) = h
free_blank key (b ∷ before) old behind (o, os) f (inl (used, p)) =
    free_blank key before old behind os f p
free_blank key (b ∷ before) old behind (o, os) f (inr (e, h)) = absurd (used_not_blank b o.used e)

vacant_put :
    (before : Buckets) (old new : Bucket) (behind : Buckets)
    → vacant (before ++ old ∷ behind) ≤ vacant (before ++ new ∷ behind) + 1
unfolding vacant
vacant_put [] old new behind = ground arith
vacant_put (b ∷ before) old new behind = omega (arith, vacant_put before old new behind)

pub others_vacant : (key : Bytes) (bs : Buckets) → All (Other key) bs → vacant bs ≡ 0
unfolding vacant
others_vacant key [] h = refl
others_vacant key (b ∷ bs) (o, h) = ground (arith, o.used, others_vacant key bs h)

-- What a failure for the key does to the table.
pub record Step (key : Bytes) (now : ℕ) (t t' : Buckets) : Type 0 where
  before : Buckets
  old : Bucket
  base : Bucket
  behind : Buckets
  was : t ≡ before ++ old ∷ behind
  becomes : t' ≡ before ++ fail now base ∷ behind
  others : All (Other key) before
  own : base.key ≡ key
  held : (nonempty old.key ≡ false) ⊎ (old.key ≡ key)
  count : view key t ≡ count_of base

-- A key as the code makes them.
pub record IsKey (key : Bytes) : Type 0 where
  pub some_byte : nonempty key ≡ true
  pub short : length key ≤ 127

hit_self : (key : Bytes) → nonempty key ≡ true → (b : Bucket) → b.key ≡ key → hit key b ≡ true
hit_self key h b e =
    subst (λ k. (nonempty k && bytes_eq k key) ≡ true) (sym e)
      (ground (arith, h, bytes_eq_refl key))

hit_key : (key : Bytes) (b : Bucket) → hit key b ≡ true → b.key ≡ key
hit_key key b h = bytes_eq→eq b.key key (ground arith)

failing_found :
    (key : Bytes) (now i : ℕ) (t : Buckets)
    → IsKey key
    → Located (λ b. hit key b ≡ true) key 0 t i
    → Step key now t (set t i (fail now (get_or t i no_bucket)))
failing_found key now i t v l =
    let place : length l.before ≡ i = omega (arith, l.place) in
    let own = hit_key key l.here l.what in
    let at : get_or t i no_bucket ≡ l.here =
      ap (λ n. get_or t n no_bucket) (sym place)
      ∙ ap (λ q. get_or q (length l.before) no_bucket) l.split
      ∙ get_or-append l.before l.here no_bucket l.behind in
    record {
      before = l.before;
      old = l.here;
      base = l.here;
      behind = l.behind;
      was = l.split;
      becomes =
          ap (λ n. set t n (fail now (get_or t i no_bucket))) (sym place)
          ∙ ap (λ q. set q (length l.before) (fail now (get_or t i no_bucket))) l.split
          ∙ set-append l.before l.here (fail now (get_or t i no_bucket)) l.behind
          ∙ ap (λ b. l.before ++ fail now b ∷ l.behind) at;
      others = l.others;
      own = own;
      held = inr own;
      count =
          ap (view key) l.split
          ∙ view_others key l.before (l.here ∷ l.behind) l.others
          ∙ view_here key l.here l.behind l.what;
    }

abbrev fresh : Bytes → Bucket
fresh key = record no_bucket { key = key }

failing_free :
    (key : Bytes) (now i : ℕ) (t : Buckets)
    → IsKey key
    → Packed t
    → Located (λ b. nonempty b.key ≡ false) key 0 t i
    → Step key now t (failed_at now (at_slot key true t (free i)))
failing_free key now i t v p l =
    let place : length l.before ≡ i = omega (arith, l.place) in
    let blank = free_blank key l.before l.here l.behind l.others l.what (subst Packed l.split p) in
    let at : get_or t i no_bucket ≡ no_bucket =
      ap (λ n. get_or t n no_bucket) (sym place)
      ∙ ap (λ q. get_or q (length l.before) no_bucket) l.split
      ∙ get_or-append l.before l.here no_bucket l.behind
      ∙ blank.0 in
    let named : record (get_or t i no_bucket) { key = take 127 key } ≡ fresh key =
      ap (λ (b : Bucket). record b { key = take 127 key }) at
      ∙ ap fresh (take-length_le 127 key v.short) in
    let claimed : set t i (record (get_or t i no_bucket) { key = take 127 key })
        ≡ l.before ++ fresh key ∷ l.behind =
      ap (λ n. set t n (record (get_or t i no_bucket) { key = take 127 key })) (sym place)
      ∙ ap (λ q. set q (length l.before) (record (get_or t i no_bucket) { key = take 127 key }))
          l.split
      ∙ set-append l.before l.here (record (get_or t i no_bucket) { key = take 127 key }) l.behind
      ∙ ap (λ b. l.before ++ b ∷ l.behind) named in
    record {
      before = l.before;
      old = l.here;
      base = fresh key;
      behind = l.behind;
      was = l.split;
      becomes =
          ap (λ q. set q i (fail now (get_or q i no_bucket))) claimed
          ∙ ap
              (λ n.
                set (l.before ++ fresh key ∷ l.behind) n
                  (fail now (get_or (l.before ++ fresh key ∷ l.behind) n no_bucket)))
              (sym place)
          ∙ set-append l.before (fresh key)
              (fail now (get_or (l.before ++ fresh key ∷ l.behind) (length l.before) no_bucket))
              l.behind
          ∙ ap (λ b. l.before ++ fail now b ∷ l.behind)
              (get_or-append l.before (fresh key) no_bucket l.behind);
      others = l.others;
      own = refl;
      held = inl l.what;
      count =
          ap (view key) l.split
          ∙ view_others key l.before (l.here ∷ l.behind) l.others
          ∙ view_blank key (l.here ∷ l.behind) blank;
    }

failing :
    (key : Bytes) (now : ℕ) (t : Buckets) (s : Slot)
    → IsKey key
    → Packed t
    → 0 < vacant t
    → AtSlot key 0 t s
    → Step key now t (failed_at now (at_slot key true t s))
failing key now t (found i) v p room l = failing_found key now i t v l
failing key now t (free i) v p room l = failing_free key now i t v p l
failing key now t (full i) v p room l = absurd (omega (arith, others_vacant key t l))

pub record-Step :
    (key : Bytes) (now : ℕ) (t : Buckets)
    → IsKey key
    → Packed t
    → 0 < vacant t
    → Step key now t (auth_record_failure_key key now t)
unfolding auth_record_failure_key auth_bucket_for
record-Step key now t v p room =
    failing key now t (slot_of key t) v p room
      (scan-AtSlot key 0 (0, (get_or t 0 no_bucket).last_seen) t)

fail_key : (now : ℕ) (b : Bucket) → (fail now b).key ≡ b.key
unfolding fail
fail_key now b = refl

fail_view : (now : ℕ) (b : Bucket) → count_of (fail now b) ≡ fail_count now (count_of b)
unfolding fail fail_count
fail_view now b = refl

other_misses :
    (key k : Bytes) (b : Bucket)
    → bytes_eq key k ≡ false
    → (nonempty b.key ≡ false) ⊎ (b.key ≡ key)
    → hit k b ≡ false
other_misses key k b h (inl e) = ground (arith, e)
other_misses key k b h (inr e) =
    subst (λ q. (nonempty q && bytes_eq q k) ≡ false) (sym e) (ground (arith, h))

module _ (key : Bytes) (now : ℕ) (t t' : Buckets) (v : IsKey key) (s : Step key now t t') where
  pub step_self : view key t' ≡ fail_count now (view key t)
  step_self =
      ap (view key) s.becomes
      ∙ view_others key s.before (fail now s.base ∷ s.behind) s.others
      ∙ view_here key (fail now s.base) s.behind
          (hit_self key v.some_byte (fail now s.base) (fail_key now s.base ∙ s.own))
      ∙ fail_view now s.base
      ∙ ap (fail_count now) (sym s.count)

  pub step_other : (k : Bytes) → bytes_eq key k ≡ false → view k t' ≡ view k t
  step_other k h =
      ap (view k) s.becomes
      ∙ view_replaced k s.before (fail now s.base) s.old s.behind
          (other_misses key k (fail now s.base) h (inr (fail_key now s.base ∙ s.own)))
          (other_misses key k s.old h s.held)
      ∙ sym (ap (view k) s.was)

  pub step-Packed : Packed t → Packed t'
  step-Packed p = subst Packed (sym s.becomes) (
      Packed-put key s.before s.old (fail now s.base) s.behind s.others
        (subst (λ q. nonempty q ≡ true) (sym (fail_key now s.base ∙ s.own)) v.some_byte)
        (subst Packed s.was p))

  pub step_vacant : vacant t ≤ vacant t' + 1
  step_vacant = omega (
    arith,
    ap vacant s.was,
    ap vacant s.becomes,
    vacant_put s.before s.old (fail now s.base) s.behind,
  )
