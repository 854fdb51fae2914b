-- ===== src/Throttle/Holes.antt =====
-- What a free bucket in the middle hides, and how long a block can be.
use meraki_builder.Prelude.{
  ℕ, ◌+◌, ◌≤◌, Bytes, true, false, [], ◌∷◌, ◌++◌, ◌≡◌, refl, ap, ◌∙◌, arith, get_or, set, length,
  All, elim_true, elim_false,
}
use meraki_builder.Throttle.Buckets.{
  Bucket, Buckets, no_bucket, nonempty, older, Slot, found, free, scan, auth_bucket_for,
  auth_retry_after_key, delay, at_slot, waiting, cleared_at, auth_clear_bucket,
}
use meraki_builder.Throttle.Slots.{hit, Other, set-append}

scan_over :
    (key : Bytes) (i : ℕ) (oldest : ℕ × ℕ) (b : Bucket) (bs : Buckets)
    → Other key b
    → scan key i oldest (b ∷ bs) ≡ scan key (i + 1) (older i b.last_seen oldest) bs
unfolding scan
scan_over key i oldest b bs o =
    let P = λ (s : Slot). s ≡ scan key (i + 1) (older i b.last_seen oldest) bs in
    elim_false P (hit key b) (found i) _ (ground (arith, o.differs))
      (elim_true P (nonempty b.key) _ (free i) o.used refl)

scan_hole :
    (key : Bytes) (i : ℕ) (oldest : ℕ × ℕ) (before behind : Buckets)
    → All (Other key) before
    → (j : ℕ) × (scan key i oldest (before ++ no_bucket ∷ behind) ≡ free j)
unfolding scan
scan_hole key i oldest [] behind h = (i, refl)
scan_hole key i oldest (b ∷ before) behind (o, h) =
    let rest = scan_hole key (i + 1) (older i b.last_seen oldest) before behind h in
    (rest.0, scan_over key i oldest b (before ++ no_bucket ∷ behind) o ∙ rest.1)

scan_there :
    (key : Bytes) (i : ℕ) (oldest : ℕ × ℕ) (before : Buckets) (b : Bucket) (behind : Buckets)
    → All (Other key) before
    → hit key b ≡ true
    → scan key i oldest (before ++ b ∷ behind) ≡ found (i + length before)
unfolding scan
scan_there key i oldest [] b behind h e =
    elim_true (λ (s : Slot). s ≡ found (i + 0)) (hit key b) (found i) _ e (ap found (omega arith))
scan_there key i oldest (c ∷ before) b behind (o, h) e =
    scan_over key i oldest c (before ++ b ∷ behind) o
    ∙ scan_there key (i + 1) (older i c.last_seen oldest) before b behind h e
    ∙ ap found (omega arith)

-- Clearing the bucket of one key, as a successful login does, hides every bucket behind it: for
-- a key whose bucket stands there, the code then answers that there is nothing to wait for,
-- whatever block that bucket holds.
pub clear_hides :
    (key hidden : Bytes) (now : ℕ) (before : Buckets) (b : Bucket) (behind : Buckets)
    → All (Other key) before
    → All (Other hidden) before
    → hit key b ≡ true
    → (auth_retry_after_key hidden now (auth_clear_bucket key (before ++ b ∷ behind))).0 ≡ 0
unfolding auth_retry_after_key auth_clear_bucket auth_bucket_for
clear_hides key hidden now before b behind o o' h =
    let t = before ++ b ∷ behind in
    let seen = (get_or t 0 no_bucket).last_seen in
    let cleared : auth_clear_bucket key t ≡ before ++ no_bucket ∷ behind =
      ap (λ s. cleared_at (at_slot key false t s)) (scan_there key 0 (0, seen) before b behind o h)
      ∙ ap (λ n. set t n no_bucket) (omega arith)
      ∙ set-append before b no_bucket behind in
    let t' = before ++ no_bucket ∷ behind in
    let hole = scan_hole hidden 0 (0, (get_or t' 0 no_bucket).last_seen) before behind o' in
    ap (λ q. (auth_retry_after_key hidden now q).0) cleared
    ∙ ap (λ s. (waiting now (at_slot hidden false t' s)).0) hole.1

-- A block lasts at most 30 seconds.
delay_most : (failures : ℕ) → delay failures ≤ 30000
unfolding delay
delay_most failures = ground arith
