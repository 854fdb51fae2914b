-- ===== src/Button/Loop.antt =====
-- The inner loop of `main` of buttond.c. What a turn reads is an argument: the sample of the input,
-- the clock, the policy file, the firmware lock, and the results of the LED helper.
use meraki_builder.Prelude.{
  ℕ, ◌-◌, ◌*◌, ◌/◌, Bytes, Bool, true, false, not, List, [], ◌∷◌, ◌++◌, Option, none, some, ◌==◌,
  leb, ◌&&◌, ◌||◌, if◌then◌else◌, codes,
}
use meraki_builder.Button.Policy.{ResetPolicy}

-- The arguments of `write_status` that change.
pub record Status : Type 0 where
  pub state : Bytes
  pub progress : ℕ
  pub pressed : Bool
  pub armed : Bool
  pub countdown_active : Bool
  pub led_owned : Bool
  pub last_event : Bytes

pub data Effect : Type 0 where
  status : Status → Effect
  led : Bytes → Effect
  reset_progress : ℕ → Effect
  factory_reset : Effect

-- The variables of the loop. `last_progress` is none for -1.
pub record Loop : Type 0 where
  pub armed : Bool
  pub held : Bool
  pub led_owned : Bool
  pub inhibited_reported : Bool
  pub raw_pressed : Bool
  pub debounced_pressed : Bool
  pub have_sample : Bool
  pub status_pressed : Bool
  pub status_pressed_valid : Bool
  pub raw_since : ℕ
  pub release_since : ℕ
  pub held_since : ℕ
  pub last_led_attempt : ℕ
  pub last_policy_check : ℕ
  pub last_progress : Option ℕ
  pub effects : List Effect

-- What one turn reads. `sample` is nothing when the input cannot be read. `updating` and
-- `updating_again` are the two calls of `update_in_progress`; the others tell whether the LED
-- helper and the progress file succeed, should they be used.
pub record Turn : Type 0 where
  pub sample : Option Bool
  pub now : ℕ
  pub updated : ResetPolicy
  pub updating : Bool
  pub updating_again : Bool
  pub acquire_ok : Bool
  pub start_ok : Bool
  pub progress_ok : Bool
  pub final_ok : Bool

-- The loop goes on, or `break`s, or the factory reset is requested.
pub data Next : Type 0 where
  goes_on : Loop → Next
  leaves : Loop → Next
  triggers : Loop → Next

abbrev pub emit : Effect → Loop → Loop
emit e l = record l { effects = l.effects ++ e ∷ [] }

abbrev pub write_status : Bytes → ℕ → Bool → Bool → Bool → Bool → Bytes → Loop → Loop
write_status state progress pressed armed countdown led_owned event l =
    emit
      (status (record {
        state = state;
        progress = progress;
        pressed = pressed;
        armed = armed;
        countdown_active = countdown;
        led_owned = led_owned;
        last_event = event;
      }))
      l

abbrev pub reported : Bool → Loop → Loop
reported pressed l = record l { status_pressed = pressed; status_pressed_valid = true }

abbrev pub same_bool : Bool → Bool → Bool
same_bool true b = b
same_bool false b = not b

-- The status that is on file shows another level of the button.
abbrev pub stale : Loop → Bool
stale l = not l.status_pressed_valid || not (same_bool l.status_pressed l.debounced_pressed)

unfoldable pub start : ℕ → Loop
start now =
    write_status (codes "waiting-release") 0 false false false false (codes "startup") (record {
      armed = false;
      held = false;
      led_owned = false;
      inhibited_reported = false;
      raw_pressed = false;
      debounced_pressed = false;
      have_sample = false;
      status_pressed = false;
      status_pressed_valid = false;
      raw_since = 0;
      release_since = 0;
      held_since = 0;
      last_led_attempt = 0;
      last_policy_check = now;
      last_progress = none;
      effects = [];
    })

abbrev debounce_ms : ℕ
debounce_ms = 150

abbrev arm_release_ms : ℕ
arm_release_ms = 500

abbrev policy_reload_ms : ℕ
policy_reload_ms = 1000

-- The sample is taken in, and the level is debounced.
abbrev pub new_raw : Bool → ℕ → Loop → Loop
new_raw sample now l =
    let changed = not l.have_sample || not (same_bool sample l.raw_pressed) in
    record l {
      raw_pressed = if changed then sample else l.raw_pressed;
      raw_since = if changed then now else l.raw_since;
      have_sample = true;
    }

unfoldable pub debounce : Bool → ℕ → Loop → Loop
debounce sample now l =
    let l' = new_raw sample now l in
    record l' {
      debounced_pressed =
          if leb debounce_ms (now - l'.raw_since) then l'.raw_pressed else l'.debounced_pressed;
    }

abbrev pub policy_equal : ResetPolicy → ResetPolicy → Bool
policy_equal a b = same_bool a.enabled b.enabled && a.hold_seconds == b.hold_seconds

abbrev pub report_unarmed : Loop → Loop
report_unarmed l =
    if stale l
    then reported l.debounced_pressed (
        write_status (codes "waiting-release") 0 l.debounced_pressed false false false
          (if l.debounced_pressed then codes "pressed-before-arm" else codes "released-before-arm")
          l)
    else l

-- The button has to be released for a while before the daemon is armed.
unfoldable pub unarmed : ℕ → Loop → Loop
unarmed now l =
    let l' = report_unarmed l in
    if l.debounced_pressed
    then record l' { release_since = 0 }
    else let since = if l.release_since == 0 then now else l.release_since in
      let waiting = record l' { release_since = since } in
      if leb arm_release_ms (now - since)
      then reported false (
          write_status (codes "ready") 0 false true false false (codes "released-and-armed")
            (record waiting { armed = true }))
      else waiting

abbrev pub release_led : Loop → Loop
release_led l = record l {
  effects = if l.led_owned then l.effects ++ led (codes "release") ∷ [] else l.effects;
  led_owned = false;
}

abbrev pub drop_hold : Loop → Loop
drop_hold l =
    if l.held
    then release_led (record l { held = false; held_since = 0; last_progress = none })
    else l

-- While a firmware operation runs.
unfoldable pub inhibited : Loop → Loop
inhibited l =
    let l' = drop_hold l in
    if not l.inhibited_reported || stale l
    then reported l.debounced_pressed (
        write_status (codes "inhibited") 0 l.debounced_pressed true false false
          (if l.debounced_pressed
            then codes "pressed-while-inhibited"
            else codes "released-while-inhibited")
          (record l' { inhibited_reported = true }))
    else l'

unfoldable pub clear_inhibition : Loop → Loop
clear_inhibition l =
    if l.inhibited_reported
    then reported l.debounced_pressed (
        write_status (codes "ready") 0 l.debounced_pressed true false false
          (codes "firmware-interlock-cleared") (record l { inhibited_reported = false }))
    else l

abbrev pub led_effects : Bool → Bool → List Effect
led_effects false start_ok = led (codes "acquire") ∷ []
led_effects true true = led (codes "acquire") ∷ led (codes "reset-progress") ∷ []
led_effects true false =
    led (codes "acquire") ∷ led (codes "reset-progress") ∷ led (codes "release") ∷ []

-- The LED is taken and its animation started; it is given back if that fails.
unfoldable pub acquire_led : Turn → Loop → Loop
acquire_led t l = record l {
  led_owned = t.acquire_ok && t.start_ok;
  effects = l.effects ++ led_effects t.acquire_ok t.start_ok;
}

unfoldable pub begin_hold : Turn → Loop → Loop
unfolding acquire_led
begin_hold t l = acquire_led t (
    reported true (
      write_status (codes "countdown") 0 true true true false (codes "pressed") (record l {
        held = true;
        held_since = t.now;
        last_progress = none;
        last_led_attempt = t.now;
      })))

unfoldable pub retry_led : Turn → Loop → Loop
unfolding acquire_led
retry_led t l =
    if not l.led_owned && leb 500 (t.now - l.last_led_attempt)
    then acquire_led t (record l { last_led_attempt = t.now })
    else l

-- The percentage shown, in steps of 5.
abbrev pub display_progress : ResetPolicy → ℕ → ℕ
display_progress policy elapsed =
    let progress = elapsed * 100 / (policy.hold_seconds * 1000) in
    if leb 100 progress then 100 else progress / 5 * 5

abbrev pub progress_effects : Bool → Bool → ℕ → List Effect
progress_effects false ok progress = []
progress_effects true true progress = reset_progress progress ∷ []
progress_effects true false progress = reset_progress progress ∷ led (codes "release") ∷ []

-- The progress file is written while the LED is owned; the LED is given back if that fails.
abbrev pub write_progress : Bool → ℕ → Loop → Loop
write_progress ok progress l = record l {
  led_owned = l.led_owned && ok;
  effects = l.effects ++ progress_effects l.led_owned ok progress;
}

abbrev pub shows : Option ℕ → ℕ → Bool
shows none n = false
shows (some m) n = m == n

unfoldable pub show_progress : ResetPolicy → Turn → Loop → Loop
show_progress policy t l =
    let shown = display_progress policy (t.now - l.held_since) in
    if shows l.last_progress shown
    then l
    else let l' = write_progress t.progress_ok shown l in
      reported true
        (record (write_status (codes "countdown") shown true true true l'.led_owned
          (codes "pressed") l') { last_progress = some shown })

-- The hold is over: the lock is looked at again, and then the reset is requested.
unfoldable pub complete_hold : Turn → Loop → Next
complete_hold t l =
    if t.updating_again
    then goes_on (
        write_status (codes "inhibited") 0 true true false false (codes "firmware-interlock-race")
          (release_led (record l { held = false })))
    else let l' = write_progress t.final_ok 100 l in
      triggers (
        emit factory_reset (
          write_status (codes "triggered") 100 true true true l'.led_owned (codes "hold-complete")
            l'))

unfoldable pub hold : ResetPolicy → Turn → Loop → Next
unfolding retry_led show_progress complete_hold
hold policy t l =
    let shown = show_progress policy t (retry_led t l) in
    if leb (policy.hold_seconds * 1000) (t.now - l.held_since)
    then complete_hold t shown
    else goes_on shown

unfoldable pub cancel_hold : Loop → Loop
cancel_hold l = release_led (
    reported false (
      write_status (codes "ready") 0 false true false false (codes "released")
        (record l { held = false; held_since = 0; last_progress = none })))

-- An armed daemon, with no firmware operation.
unfoldable pub watch : ResetPolicy → Turn → Loop → Next
unfolding begin_hold hold cancel_hold
watch policy t l =
    if l.debounced_pressed
    then hold policy t (if l.held then l else begin_hold t l)
    else goes_on (if l.held then cancel_hold l else l)

unfoldable pub dispatch : ResetPolicy → Turn → Loop → Next
unfolding unarmed inhibited clear_inhibition watch
dispatch policy t l =
    if not l.armed
    then goes_on (unarmed t.now l)
    else if t.updating
    then goes_on (inhibited l)
    else watch policy t (clear_inhibition l)

unfoldable pub sampled : ResetPolicy → Turn → Loop → Next
unfolding dispatch
sampled policy t l =
    if leb policy_reload_ms (t.now - l.last_policy_check)
    then if not (policy_equal policy t.updated)
      then leaves l
      else dispatch policy t (record l { last_policy_check = t.now })
    else dispatch policy t l

unfoldable pub turn : ResetPolicy → Turn → Loop → Next
unfolding debounce sampled
turn policy t l = elim t.sample [
  | none ↦ leaves (
      write_status (codes "unavailable") 0 l.debounced_pressed l.armed l.held l.led_owned
        (codes "input-read-failed") l)
  | some sample ↦ sampled policy t (debounce sample t.now l)
]

-- Behind the inner loop the LED is given back.
unfoldable pub leave : Loop → Loop
leave l = release_led l
