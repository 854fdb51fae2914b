-- ===== src/Button/Bounds.antt =====
-- The policy that `load_policy` returns, and what it means for the loop that runs with it.
use meraki_builder.Prelude.{
  ℕ, ◌≤◌, ◌≡◌, not, Option, some, leb, ◌&&◌, Bytes, arith, if_both, option_both, codes,
}
use meraki_builder.Json.{JsonC}
use meraki_builder.Button.Policy.{ResetPolicy, member, hold_member, load_policy}
use meraki_builder.Button.Loop.{Turn, Loop, turn, triggers}
use meraki_builder.Button.Press.{Run, Deliberate, turn-Deliberate}

record Moderate (n : ℕ) : Type 0 where
  at_least : 3 ≤ n
  at_most : n ≤ 60

ten-Moderate : Moderate 10
ten-Moderate = record { at_least = ground arith; at_most = ground arith }

module _ {Json : Type 0} (c : JsonC Json) where
  hold_member-Moderate : (object : Option Json) (key : Bytes) → Moderate (hold_member c object key)
  unfolding hold_member
  hold_member-Moderate object key =
      option_both Moderate (member c object key) _ _ ten-Moderate (λ value _.
        if_both Moderate
          (c.is_int value
            && not (c.is_negative value)
            && leb 3 (c.get_int value)
            && leb (c.get_int value) 60)
          _ _ (λ e. record { at_least = ground arith; at_most = ground arith }) (λ _. ten-Moderate))

  load_policy-Moderate : (root : Option Json) → Moderate (load_policy c root).hold_seconds
  unfolding load_policy
  load_policy-Moderate root =
      let P = λ (p : ResetPolicy). Moderate p.hold_seconds in
      option_both P (member c root (codes "reset_button")) _ _ ten-Moderate (λ object _.
        if_both P (c.is_object object) _ _
          (λ _. hold_member-Moderate (some object) (codes "hold_seconds")) (λ _. ten-Moderate))

  -- Whatever the configuration holds, or when there is none, the policy that is loaded asks for a
  -- hold of at least 3 and at most 60 seconds.
  pub load_policy_bounds :
      (root : Option Json)
      → (3 ≤ (load_policy c root).hold_seconds) × ((load_policy c root).hold_seconds ≤ 60)
  load_policy_bounds root = let m = load_policy-Moderate root in (m.at_least, m.at_most)

  -- With the policy that is loaded from any configuration: when a turn of the running loop requests
  -- the factory reset, then the debounced button was pressed in every turn since the daemon, armed,
  -- first saw it pressed; no firmware operation was seen in those turns, nor in the last one at
  -- either look; and by the clock the policy's time has passed in between.
  pub loaded-Deliberate :
      (root : Option Json) (t : Turn) (l m : Loop)
      → Run (load_policy c root) l
      → turn (load_policy c root) t l ≡ triggers m
      → Deliberate (load_policy c root) t l m
  loaded-Deliberate root t l m =
      turn-Deliberate (load_policy c root) t l m (load_policy_bounds root).0
