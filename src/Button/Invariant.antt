-- ===== src/Button/Invariant.antt =====
-- The LED is owned only during a hold, and a hold only begins when the daemon is armed.
use meraki_builder.Prelude.{
  leb, ◌-◌, ◌∙◌, ℕ, Bool, true, false, not, ◌||◌, ◌≡◌, refl, arith, if_both, option_both,
}
use meraki_builder.Button.Policy.{ResetPolicy}
use meraki_builder.Button.Loop.{
  policy_equal, Loop, Turn, Next, goes_on, leaves, triggers, start, debounce, unarmed, inhibited,
  clear_inhibition, acquire_led, begin_hold, retry_led, show_progress, complete_hold, hold,
  cancel_hold, watch, dispatch, sampled, turn,
}

pub record IsCoherent (l : Loop) : Type 0 where
  pub led : (not l.led_owned || l.held) ≡ true
  pub holding : (not l.held || l.armed) ≡ true

-- The variables behind a turn, however it ended.
abbrev pub after : Next → Loop
after (goes_on l) = l
after (leaves l) = l
after (triggers l) = l

unarmed-IsCoherent : (now : ℕ) (l : Loop) → IsCoherent l → IsCoherent (unarmed now l)
unfolding unarmed
unarmed-IsCoherent now l v = ground arith

inhibited-IsCoherent : (l : Loop) → IsCoherent l → IsCoherent (inhibited l)
unfolding inhibited
inhibited-IsCoherent l v = ground arith

hold-IsCoherent :
    (policy : ResetPolicy) (t : Turn) (l : Loop)
    → IsCoherent l
    → l.held ≡ true
    → IsCoherent (after (hold policy t l))
unfolding hold retry_led show_progress complete_hold acquire_led
hold-IsCoherent policy t l v h = ground arith

begin_hold-IsCoherent :
    (t : Turn) (l : Loop)
    → l.armed ≡ true
    → IsCoherent (begin_hold t l) × ((begin_hold t l).held ≡ true)
unfolding begin_hold acquire_led
begin_hold-IsCoherent t l h = ground arith

pub unnegated : (b : Bool) → not b ≡ false → b ≡ true
unnegated b h = ground arith

watch-IsCoherent :
    (policy : ResetPolicy) (t : Turn) (l : Loop)
    → IsCoherent l
    → l.armed ≡ true
    → IsCoherent (after (watch policy t l))
unfolding watch cancel_hold
watch-IsCoherent policy t l v h =
    if_both (λ (n : Next). IsCoherent (after n)) l.debounced_pressed _ _
      (λ _.
        if_both (λ (m : Loop). IsCoherent (after (hold policy t m))) l.held l (begin_hold t l)
          (λ held. hold-IsCoherent policy t l v held)
          (λ _.
            let begun = begin_hold-IsCoherent t l h in
            hold-IsCoherent policy t (begin_hold t l) begun.0 begun.1))
      (λ _. ground arith)

clear_inhibition-IsCoherent : (l : Loop) → IsCoherent l → IsCoherent (clear_inhibition l)
unfolding clear_inhibition
clear_inhibition-IsCoherent l v = ground arith

clear_inhibition-armed : (l : Loop) → (clear_inhibition l).armed ≡ l.armed
unfolding clear_inhibition
clear_inhibition-armed l = ground arith

dispatch-IsCoherent :
    (policy : ResetPolicy) (t : Turn) (l : Loop)
    → IsCoherent l
    → IsCoherent (after (dispatch policy t l))
unfolding dispatch
dispatch-IsCoherent policy t l v =
    let P = λ (n : Next). IsCoherent (after n) in
    if_both P (not l.armed) _ _ (λ _. unarmed-IsCoherent t.now l v)
      (λ e.
        if_both P t.updating _ _ (λ _. inhibited-IsCoherent l v)
          (λ _.
            watch-IsCoherent policy t (clear_inhibition l) (clear_inhibition-IsCoherent l v)
              (clear_inhibition-armed l ∙ unnegated l.armed e)))

sampled-IsCoherent :
    (policy : ResetPolicy) (t : Turn) (l : Loop)
    → IsCoherent l
    → IsCoherent (after (sampled policy t l))
unfolding sampled
sampled-IsCoherent policy t l v =
    let P = λ (n : Next). IsCoherent (after n) in
    if_both P (leb 1000 (t.now - l.last_policy_check)) _ _
      (λ _.
        if_both P (not (policy_equal policy t.updated)) (leaves l) _ (λ _. v)
          (λ _.
            dispatch-IsCoherent policy t (record l { last_policy_check = t.now })
              (record { led = v.led; holding = v.holding })))
      (λ _. dispatch-IsCoherent policy t l v)

-- Every turn keeps it that the LED is owned only during a hold, and that a hold runs only while
-- the daemon is armed, whatever the turn reads and however it ends.
pub turn-IsCoherent :
    (policy : ResetPolicy) (t : Turn) (l : Loop)
    → IsCoherent l
    → IsCoherent (after (turn policy t l))
unfolding turn debounce
turn-IsCoherent policy t l v =
    option_both (λ (n : Next). IsCoherent (after n)) t.sample _ _
      (record { led = v.led; holding = v.holding })
      (λ sample _.
        sampled-IsCoherent policy t (debounce sample t.now l)
          (record { led = v.led; holding = v.holding }))

pub start-IsCoherent : (now : ℕ) → IsCoherent (start now)
unfolding start
start-IsCoherent now = record { led = refl; holding = refl }
