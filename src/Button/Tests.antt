-- ===== src/Button/Tests.antt =====
-- Runs of the daemon's loop on small inputs.
use meraki_builder.Prelude.{ℕ, Bool, true, false, none, some, ◌≡◌, refl, codes, List}
use meraki_builder.Json.{JsonC}
use meraki_builder.Button.Policy.{ResetPolicy, load_policy}
use meraki_builder.Button.Loop.{Turn, Loop, Effect, goes_on, triggers, turn, start}
use meraki_builder.Button.Invariant.{turn-IsCoherent, start-IsCoherent, IsCoherent, after}
use meraki_builder.Button.Press.{Run, starts, turns, Deliberate}
use meraki_builder.Button.Bounds.{loaded-Deliberate}

-- A configuration that asks for a hold of 3 seconds: a number is its own JSON value, and every
-- member of an object is the number 3.
abbrev three_seconds : JsonC ℕ
three_seconds = record {
  is_object = λ j. true;
  is_string = λ j. false;
  is_int = λ j. true;
  is_boolean = λ j. false;
  object_get = λ j key. some 3;
  get_string = λ j. codes "";
  get_int = λ j. j;
  is_negative = λ j. false;
  get_boolean = λ j. false;
}

-- The policy that it gives.
abbrev policy : ResetPolicy
policy = record { enabled = false; hold_seconds = 3 }

abbrev at : ℕ → Bool → Turn
at now pressed = record {
  sample = some pressed;
  now = now;
  updated = record { enabled = false; hold_seconds = 3 };
  updating = false;
  updating_again = false;
  acquire_ok = true;
  start_ok = true;
  progress_ok = true;
  final_ok = true;
}

effects_of : Turn → Loop → List Effect
unfolding turn
effects_of t l = (after (turn policy t l)).effects

-- Released, waiting to be armed or not.
abbrev idle : Bool → Bool → ℕ → List Effect → Loop
idle armed raw raw_since effects = record {
  armed = armed;
  held = false;
  led_owned = false;
  inhibited_reported = false;
  raw_pressed = raw;
  debounced_pressed = false;
  have_sample = true;
  status_pressed = false;
  status_pressed_valid = true;
  raw_since = raw_since;
  release_since = 1150;
  held_since = 0;
  last_led_attempt = 0;
  last_policy_check = 1000;
  last_progress = none;
  effects = effects;
}

abbrev holding : List Effect → Loop
holding effects = record (idle true true 1700 effects) {
  held = true;
  led_owned = true;
  debounced_pressed = true;
  status_pressed = true;
  held_since = 1850;
  last_led_attempt = 1850;
  last_progress = some 0;
}

sees_release :
    turn policy (at 1150 false) (start 1000)
    ≡ goes_on (idle false false 1150 (effects_of (at 1150 false) (start 1000)))
unfolding turn start effects_of
sees_release = refl

arms :
    (e : List Effect)
    → turn policy (at 1650 false) (idle false false 1150 e)
      ≡ goes_on (idle true false 1150 (effects_of (at 1650 false) (idle false false 1150 e)))
unfolding turn effects_of
arms e = refl

sees_press :
    (e : List Effect)
    → turn policy (at 1700 true) (idle true false 1150 e) ≡ goes_on (idle true true 1700 e)
unfolding turn
sees_press e = refl

holds :
    (e : List Effect)
    → turn policy (at 1850 true) (idle true true 1700 e)
      ≡ goes_on (holding (effects_of (at 1850 true) (idle true true 1700 e)))
unfolding turn effects_of
holds e = refl

fires :
    (e : List Effect)
    → turn policy (at 4850 true) (holding e)
      ≡ triggers (after (turn policy (at 4850 true) (holding e)))
unfolding turn
fires e = refl

-- A run that ends in a hold: released, armed, pressed.
begun : (e : List Effect) × Run policy (holding e)
begun =
    let released = turns (at 1150 false) _ _ (starts 1000) sees_release in
    let ready = turns (at 1650 false) _ _ released (arms _) in
    let pressed = turns (at 1700 true) _ _ ready (sees_press _) in
    (_, turns (at 1850 true) _ _ pressed (holds _))

loaded-Deliberate_example :
    Deliberate policy
      (at 4850 true)
      (holding begun.0)
      (after (turn policy (at 4850 true) (holding begun.0)))
unfolding load_policy
loaded-Deliberate_example =
    loaded-Deliberate three_seconds (some 0) (at 4850 true) (holding begun.0)
      (after (turn policy (at 4850 true) (holding begun.0))) begun.1 (fires begun.0)

turn-IsCoherent_example : IsCoherent (after (turn policy (at 1150 false) (start 1000)))
turn-IsCoherent_example =
    turn-IsCoherent policy (at 1150 false) (start 1000) (start-IsCoherent 1000)
