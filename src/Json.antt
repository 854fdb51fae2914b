-- ===== src/Json.antt =====
-- The json-c library, as the programs read documents with it. It is a parameter: the kinds of a
-- value, its members and its contents.
use meraki_builder.Prelude.{ℕ, Bytes, Bool, Option}

pub record JsonC (Json : Type 0) : Type 0 where
  pub is_object : Json → Bool
  pub is_string : Json → Bool
  pub is_int : Json → Bool
  pub is_boolean : Json → Bool
  pub object_get : Json → Bytes → Option Json
  pub get_string : Json → Bytes
  -- A negative value gives 0 and is told apart by `is_negative`.
  pub get_int : Json → ℕ
  pub is_negative : Json → Bool
  pub get_boolean : Json → Bool
