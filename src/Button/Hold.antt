-- ===== src/Button/Hold.antt =====
-- What one turn does to a hold: it begins, goes on, is dropped, or requests the factory reset.
use meraki_builder.Prelude.{
  ℕ, ◌+◌, ◌-◌, ◌*◌, ◌≤◌, leb, true, false, not, if◌then◌else◌, ◌≡◌, refl, sym, ◌∙◌, arith, if_both,
  option_both, subst, ap,
}
use meraki_builder.Button.Policy.{ResetPolicy}
use meraki_builder.Button.Loop.{
  policy_equal, Loop, Turn, Next, goes_on, leaves, triggers, debounce, unarmed, inhibited,
  clear_inhibition, acquire_led, begin_hold, retry_led, show_progress, complete_hold, hold,
  cancel_hold, watch, dispatch, sampled, turn,
}
use meraki_builder.Button.Invariant.{IsCoherent, unnegated}

pub apart_bools : true ≡ false → ⊥
apart_bools h = cc

-- A hold that goes on behind a turn.
pub record Kept (t : Turn) (l m : Loop) : Type 0 where
  pub armed : l.armed ≡ true
  pub calm : t.updating ≡ false
  pub pressed : m.debounced_pressed ≡ true
  pub since : m.held_since ≡ (if l.held then l.held_since else t.now)

-- A turn that requests the factory reset.
pub record Fired (policy : ResetPolicy) (t : Turn) (l m : Loop) : Type 0 where
  pub armed : l.armed ≡ true
  pub held : l.held ≡ true
  pub calm : t.updating ≡ false
  pub calm_again : t.updating_again ≡ false
  pub pressed : m.debounced_pressed ≡ true
  pub long_enough : l.held_since + policy.hold_seconds * 1000 ≤ t.now

pub data Outcome (policy : ResetPolicy) (t : Turn) (l : Loop) : Next → Type 0 where
  keeps : (m : Loop) → (m.held ≡ true → Kept t l m) → Outcome policy t l (goes_on m)
  ends : (m : Loop) → Outcome policy t l (leaves m)
  fires : (m : Loop) → Fired policy t l m → Outcome policy t l (triggers m)

-- Of the loop, only these variables matter to a hold.
record Shown (m l : Loop) : Type 0 where
  held : m.held ≡ l.held
  held_since : m.held_since ≡ l.held_since
  pressed : m.debounced_pressed ≡ l.debounced_pressed

show_progress-Shown :
    (policy : ResetPolicy) (t : Turn) (l : Loop) → Shown (show_progress policy t (retry_led t l)) l
unfolding show_progress retry_led acquire_led
show_progress-Shown policy t l = ground arith

module _ (policy : ResetPolicy) (t : Turn) (l : Loop) (armed : l.armed ≡ true)
    (calm : t.updating ≡ false) (long : 3 ≤ policy.hold_seconds) where
  complete_hold-Outcome :
      (m : Loop)
      → l.held ≡ true
      → m.debounced_pressed ≡ true
      → leb (policy.hold_seconds * 1000) (t.now - l.held_since) ≡ true
      → Outcome policy t l (complete_hold t m)
  unfolding complete_hold
  complete_hold-Outcome m h p e =
      if_both (Outcome policy t l) t.updating_again _ _ (λ _. keeps _ (λ q. ground arith))
        (λ again. fires _ (record {
          armed = armed;
          held = h;
          calm = calm;
          calm_again = again;
          pressed = p;
          long_enough = ground arith;
        }))

  hold_running-Outcome :
      l.held ≡ true → l.debounced_pressed ≡ true → Outcome policy t l (hold policy t l)
  unfolding hold
  hold_running-Outcome h p =
      let s = show_progress-Shown policy t l in
      if_both (Outcome policy t l) (leb (policy.hold_seconds * 1000) (t.now - l.held_since)) _ _
        (λ e. complete_hold-Outcome (show_progress policy t (retry_led t l)) h (s.pressed ∙ p) e)
        (λ _. keeps (show_progress policy t (retry_led t l)) (λ _. record {
          armed = armed;
          calm = calm;
          pressed = s.pressed ∙ p;
          since = s.held_since ∙ ground arith;
        }))

  hold_begun-Outcome :
      l.held ≡ false
      → l.debounced_pressed ≡ true
      → Outcome policy t l (hold policy t (begin_hold t l))
  unfolding hold begin_hold acquire_led
  hold_begun-Outcome h p =
      let s = show_progress-Shown policy t (begin_hold t l) in
      if_both (Outcome policy t l) (leb (policy.hold_seconds * 1000) (t.now - t.now)) _ _
        (λ e. absurd (ground arith))
        (λ _. keeps (show_progress policy t (retry_led t (begin_hold t l))) (λ _. record {
          armed = armed;
          calm = calm;
          pressed = s.pressed ∙ p;
          since = s.held_since ∙ ground arith;
        }))

  watch-Outcome : Outcome policy t l (watch policy t l)
  unfolding watch cancel_hold
  watch-Outcome =
      if_both (Outcome policy t l) l.debounced_pressed _ _
        (λ p.
          if_both (λ (m : Loop). Outcome policy t l (hold policy t m)) l.held l (begin_hold t l)
            (λ h. hold_running-Outcome h p) (λ h. hold_begun-Outcome h p))
        (λ _.
          if_both (λ (m : Loop). Outcome policy t l (goes_on m)) l.held (cancel_hold l) l
            (λ _. keeps (cancel_hold l) (λ q. ground arith)) (λ h. keeps l (λ q. ground arith)))

-- The variables of a hold are the same.
record Same (k l : Loop) : Type 0 where
  armed : k.armed ≡ l.armed
  held : k.held ≡ l.held
  held_since : k.held_since ≡ l.held_since

Kept-Same : {t : Turn} → {k l m : Loop} → Same k l → Kept t k m → Kept t l m
Kept-Same {t} {k} {l} {m} s h = record {
  armed = sym s.armed ∙ h.armed;
  calm = h.calm;
  pressed = h.pressed;
  since =
      h.since
      ∙ ap (λ b. if b then k.held_since else t.now) s.held
      ∙ ap (λ n. if l.held then n else t.now) s.held_since;
}

Outcome-Same :
    {policy : ResetPolicy}
    → {t : Turn} → {k l : Loop} → {n : Next} → Same k l
    → Outcome policy t k n
    → Outcome policy t l n
Outcome-Same s (keeps m h) = keeps m (λ q. Kept-Same s (h q))
Outcome-Same s (ends m) = ends m
Outcome-Same {policy} {t} s (fires m h) = fires m (record {
  armed = sym s.armed ∙ h.armed;
  held = sym s.held ∙ h.held;
  calm = h.calm;
  calm_again = h.calm_again;
  pressed = h.pressed;
  long_enough = subst (λ n. n + policy.hold_seconds * 1000 ≤ t.now) s.held_since h.long_enough;
})

clear_inhibition-Same : (l : Loop) → Same (clear_inhibition l) l
unfolding clear_inhibition
clear_inhibition-Same l = ground arith

unarmed_held : (now : ℕ) (l : Loop) → (unarmed now l).held ≡ l.held
unfolding unarmed
unarmed_held now l = ground arith

inhibited_held : (l : Loop) → (inhibited l).held ≡ false
unfolding inhibited
inhibited_held l = ground arith

not_armed : (l : Loop) → IsCoherent l → not l.armed ≡ true → l.held ≡ false
not_armed l v e = ground arith

dispatch-Outcome :
    (policy : ResetPolicy) (t : Turn) (l : Loop)
    → 3 ≤ policy.hold_seconds
    → IsCoherent l
    → Outcome policy t l (dispatch policy t l)
unfolding dispatch
dispatch-Outcome policy t l long v =
    let P = Outcome policy t l in
    if_both P (not l.armed) _ _
      (λ e.
        keeps (unarmed t.now l)
          (λ q. absurd (apart_bools (sym q ∙ unarmed_held t.now l ∙ not_armed l v e))))
      (λ e.
        if_both P t.updating _ _
          (λ _. keeps (inhibited l) (λ q. absurd (apart_bools (sym q ∙ inhibited_held l))))
          (λ calm.
            let s = clear_inhibition-Same l in
            Outcome-Same s (
              watch-Outcome policy t (clear_inhibition l) (s.armed ∙ unnegated l.armed e) calm
                long)))

sampled-Outcome :
    (policy : ResetPolicy) (t : Turn) (l : Loop)
    → 3 ≤ policy.hold_seconds
    → IsCoherent l
    → Outcome policy t l (sampled policy t l)
unfolding sampled
sampled-Outcome policy t l long v =
    let P = Outcome policy t l in
    let k = record l { last_policy_check = t.now } in
    if_both P (leb 1000 (t.now - l.last_policy_check)) _ _
      (λ _.
        if_both P (not (policy_equal policy t.updated)) (leaves l) _ (λ _. ends l)
          (λ _.
            Outcome-Same (record { armed = refl; held = refl; held_since = refl })
              (dispatch-Outcome policy t k long (record { led = v.led; holding = v.holding }))))
      (λ _. dispatch-Outcome policy t l long v)

pub turn-Outcome :
    (policy : ResetPolicy) (t : Turn) (l : Loop)
    → 3 ≤ policy.hold_seconds
    → IsCoherent l
    → Outcome policy t l (turn policy t l)
unfolding turn debounce
turn-Outcome policy t l long v = option_both (Outcome policy t l) t.sample _ _ (ends _) (λ sample _.
    Outcome-Same (record { armed = refl; held = refl; held_since = refl })
      (sampled-Outcome policy t (debounce sample t.now l) long
        (record { led = v.led; holding = v.holding })))
