-- ===== src/Poe/Bus.antt =====
-- `i2c_write` and `i2c_read`. The kernel's bus is a parameter: one transfer of the bytes of a
-- write, and one that writes the bytes of a register's number and reads two bytes back.
use meraki_builder.Prelude.{
  ℕ, ◌+◌, ◌*◌, ◌/◌, ◌%◌, Bytes, Bool, true, false, [], ◌∷◌, Option, none, some,
}

pub record Bus (World : Type 0) : Type 0 where
  pub transfer_write : ℕ → ℕ → Bytes → World → Bool × World
  pub transfer_read : ℕ → ℕ → Bytes → World → Option (ℕ × ℕ) × World
  pub usleep : ℕ → World → World

-- The result of `i2c_read`, with what it stores in `*result`.
pub record Read (World : Type 0) : Type 0 where
  pub ok : Bool
  pub value : ℕ
  pub world : World

abbrev high_byte : ℕ → ℕ
high_byte n = n / 256 % 256

abbrev low_byte : ℕ → ℕ
low_byte n = n % 256

module _ {World : Type 0} (bus : Bus World) where
  -- A descriptor of -1 is refused by the kernel.
  unfoldable pub i2c_write : Option ℕ → ℕ → ℕ → ℕ → World → Bool × World
  i2c_write none addr reg content w = (false, w)
  i2c_write (some fd) addr reg content w =
      bus.transfer_write fd addr
        (high_byte reg ∷ low_byte reg ∷ high_byte content ∷ low_byte content ∷ []) w

  abbrev pub received : Option (ℕ × ℕ) × World → Read World
  received (none, w) = record { ok = false; value = 0; world = w }
  received (some (high, low), w) = record { ok = true; value = high * 256 + low; world = w }

  unfoldable pub i2c_read : Option ℕ → ℕ → ℕ → World → Read World
  i2c_read none addr reg w = record { ok = false; value = 0; world = w }
  i2c_read (some fd) addr reg w =
      received (bus.transfer_read fd addr (high_byte reg ∷ low_byte reg ∷ []) w)
