-- ===== src/Button/Policy.antt =====
-- `load_policy` with its readers of JSON members.
use meraki_builder.Prelude.{
  [], ℕ, Bytes, Bool, false, not, Option, none, some, leb, ◌&&◌, if◌then◌else◌, bytes_eq, codes,
}
use meraki_builder.Json.{JsonC}

pub record ResetPolicy : Type 0 where
  pub enabled : Bool
  pub hold_seconds : ℕ

module _ {Json : Type 0} (c : JsonC Json) where
  unfoldable pub member : Option Json → Bytes → Option Json
  member none key = none
  member (some object) key = if c.is_object object then c.object_get object key else none

  unfoldable pub string_member : Option Json → Bytes → Bytes → Bytes
  unfolding member
  string_member object key fallback = elim (member object key) [
    | none ↦ fallback
    | some value ↦ if c.is_string value then c.get_string value else fallback
  ]

  unfoldable pub bool_member : Option Json → Bytes → Bool → Bool
  unfolding member
  bool_member object key fallback = elim (member object key) [
    | none ↦ fallback
    | some value ↦ if c.is_boolean value then c.get_boolean value else fallback
  ]

  -- `int_member` and the check of the range behind it: an integer from 3 to 60, or 10.
  unfoldable pub hold_member : Option Json → Bytes → ℕ
  unfolding member
  hold_member object key = elim (member object key) [
    | none ↦ 10
    | some value ↦
        if c.is_int value
          && not (c.is_negative value)
          && leb 3 (c.get_int value)
          && leb (c.get_int value) 60
        then c.get_int value
        else 10
  ]

  -- The policy of the file, which may be missing.
  unfoldable pub load_policy : Option Json → ResetPolicy
  unfolding string_member bool_member hold_member
  load_policy root =
      let button = member root (codes "reset_button") in
      elim button [
        | none ↦ record { enabled = false; hold_seconds = 10 }
        | some object ↦
            if c.is_object object
            then record {
              enabled =
                  bool_member (some object) (codes "enabled") false
                  && bytes_eq (string_member (some object) (codes "action") [])
                      (codes "factory-reset");
              hold_seconds = hold_member (some object) (codes "hold_seconds");
            }
            else record { enabled = false; hold_seconds = 10 }
      ]
