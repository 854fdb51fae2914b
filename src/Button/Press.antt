-- ===== src/Button/Press.antt =====
-- What has happened before the factory reset is requested: the button was held all along.
use meraki_builder.Prelude.{ℕ, ◌+◌, ◌*◌, ◌≤◌, true, false, ◌≡◌, sym, if_both, subst}
use meraki_builder.Button.Policy.{ResetPolicy}
use meraki_builder.Button.Loop.{Loop, Turn, Next, goes_on, leaves, triggers, start, turn}
use meraki_builder.Button.Invariant.{IsCoherent, turn-IsCoherent, start-IsCoherent, after}
use meraki_builder.Button.Hold.{Kept, Fired, Outcome, keeps, ends, fires, turn-Outcome, apart_bools}

-- The loop as `main` runs it, turn by turn.
pub data Run (policy : ResetPolicy) : Loop → Type 0 where
  starts : (now : ℕ) → Run policy (start now)
  turns : (t : Turn) → (l m : Loop) → Run policy l → turn policy t l ≡ goes_on m → Run policy m

-- The button has been pressed since `since`, in every turn, while no firmware operation ran.
pub data Pressing (policy : ResetPolicy) : ℕ → Loop → Type 0 where
  begins :
      (t : Turn)
      → (l m : Loop) → l.armed ≡ true
      → turn policy t l ≡ goes_on m
      → t.updating ≡ false
      → m.debounced_pressed ≡ true
      → Pressing policy t.now m
  lasts :
      (since : ℕ)
      → (t : Turn) → (l m : Loop) → Pressing policy since l
      → turn policy t l ≡ goes_on m
      → t.updating ≡ false
      → m.debounced_pressed ≡ true
      → Pressing policy since m

Run-IsCoherent : (policy : ResetPolicy) (l : Loop) → Run policy l → IsCoherent l
Run-IsCoherent policy _ (starts now) = start-IsCoherent now
Run-IsCoherent policy _ (turns t l m r e) =
    subst (λ (n : Next). IsCoherent (after n)) e
      (turn-IsCoherent policy t l (Run-IsCoherent policy l r))

-- What an outcome says, read off the way the turn ended.
KeepsAt : ResetPolicy → Turn → Loop → Next → Type 0
KeepsAt policy t l (goes_on m) = m.held ≡ true → Kept t l m
KeepsAt policy t l (leaves m) = Unit
KeepsAt policy t l (triggers m) = Fired policy t l m

Outcome-at :
    (policy : ResetPolicy) (t : Turn) (l : Loop) (n : Next)
    → Outcome policy t l n
    → KeepsAt policy t l n
unfolding KeepsAt
Outcome-at policy t l _ (keeps m h) = h
Outcome-at policy t l _ (ends m) = tt
Outcome-at policy t l _ (fires m h) = h

turn_at :
    (policy : ResetPolicy) (t : Turn) (l : Loop) (n : Next)
    → 3 ≤ policy.hold_seconds
    → Run policy l
    → turn policy t l ≡ n
    → KeepsAt policy t l n
unfolding KeepsAt
turn_at policy t l n long r e = subst (KeepsAt policy t l) e (
    Outcome-at policy t l (turn policy t l)
      (turn-Outcome policy t l long (Run-IsCoherent policy l r)))

held-Pressing :
    (policy : ResetPolicy) (l : Loop)
    → 3 ≤ policy.hold_seconds
    → Run policy l
    → l.held ≡ true
    → Pressing policy l.held_since l
unfolding start KeepsAt
held-Pressing policy _ long (starts now) h = absurd (apart_bools (sym h))
held-Pressing policy _ long (turns t l m r e) h =
    let k = turn_at policy t l (goes_on m) long r e h in
    subst (λ n. Pressing policy n m) (sym k.since)
      (if_both (λ n. Pressing policy n m) l.held l.held_since t.now
        (λ b. lasts l.held_since t l m (held-Pressing policy l long r b) e k.calm k.pressed)
        (λ _. begins t l m k.armed e k.calm k.pressed))

-- What a deliberate press is: the button has been pressed since `held_since`, for at least the
-- time of the policy, and in the last turn neither look at the firmware lock found an operation.
pub record Deliberate (policy : ResetPolicy) (t : Turn) (l m : Loop) : Type 0 where
  pub pressing : Pressing policy l.held_since l
  pub long_enough : l.held_since + policy.hold_seconds * 1000 ≤ t.now
  pub pressed : m.debounced_pressed ≡ true
  pub calm : t.updating ≡ false
  pub calm_again : t.updating_again ≡ false

-- When a turn of the running loop requests the factory reset, with a policy of at least three
-- seconds, then the debounced button was pressed in every turn since the daemon, armed, first saw
-- it pressed; no firmware operation was seen in those turns, nor in the last one at either look;
-- and by the clock the policy's time has passed in between.
pub turn-Deliberate :
    (policy : ResetPolicy) (t : Turn) (l m : Loop)
    → 3 ≤ policy.hold_seconds
    → Run policy l
    → turn policy t l ≡ triggers m
    → Deliberate policy t l m
unfolding KeepsAt
turn-Deliberate policy t l m long r e =
    let f = turn_at policy t l (triggers m) long r e in
    record {
      pressing = held-Pressing policy l long r f.held;
      long_enough = f.long_enough;
      pressed = f.pressed;
      calm = f.calm;
      calm_again = f.calm_again;
    }
