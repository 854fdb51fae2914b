-- ===== src/Poe/Registers.antt =====
-- A bus on which the controllers keep their ports' configuration registers: what is assumed of the
-- hardware.
use meraki_builder.Prelude.{
  ℕ, ◌+◌, ◌*◌, ◌%◌, ◌<◌, ◌/◌, Bytes, true, [], ◌∷◌, Option, none, some, ◌≡◌, ◌≢◌, refl, sym, ap,
  ◌∙◌, ◌⊎◌, inl, inr, arith, subst,
}
use meraki_builder.Poe.Bus.{Bus, i2c_read, i2c_write, received}
use meraki_builder.Poe.Chips.{port_config, port_base_addr}

-- The number of a port's configuration register.
pub record IsSetting (reg : ℕ) : Type 0 where
  pub port : ℕ
  pub number : reg ≡ port_base_addr port_config port

-- `register w fd addr reg` is what the register holds. Any transfer may fail, and a write that is
-- acknowledged may still be lost: the register then holds what it held before. Nothing is said of
-- the registers that hold measurements; of the configuration registers, a write changes none but
-- its own, and reads and the wait change none.
pub record Registers {World : Type 0} (bus : Bus World) : Type 0 where
  pub register : World → ℕ → ℕ → ℕ → ℕ
  pub register_word : (w : World) (fd addr reg : ℕ) → register w fd addr reg < 65536
  pub read_value :
      (fd addr hi lo : ℕ) (w : World) (a b : ℕ)
      → IsSetting (hi * 256 + lo)
      → (bus.transfer_read fd addr (hi ∷ lo ∷ []) w).0 ≡ some (a, b)
      → a * 256 + b ≡ register w fd addr (hi * 256 + lo)
  pub read_same :
      (fd addr : ℕ) (s : Bytes) (w : World) (fd' addr' reg' : ℕ)
      → IsSetting reg'
      → register (bus.transfer_read fd addr s w).1 fd' addr' reg' ≡ register w fd' addr' reg'
  pub write_value :
      (fd addr hi lo a b : ℕ) (w : World)
      → IsSetting (hi * 256 + lo)
      → a < 256
      → b < 256
      → (bus.transfer_write fd addr (hi ∷ lo ∷ a ∷ b ∷ []) w).0 ≡ true
      → (register (bus.transfer_write fd addr (hi ∷ lo ∷ a ∷ b ∷ []) w).1 fd addr (hi * 256 + lo)
          ≡ a * 256 + b)
        ⊎ (register (bus.transfer_write fd addr (hi ∷ lo ∷ a ∷ b ∷ []) w).1 fd addr (hi * 256 + lo)
            ≡ register w fd addr (hi * 256 + lo))
  pub write_other :
      (fd addr hi lo a b : ℕ) (w : World) (fd' addr' reg' : ℕ)
      → IsSetting (hi * 256 + lo)
      → IsSetting reg'
      → (addr' ≢ addr) ⊎ (reg' ≢ hi * 256 + lo)
      → register (bus.transfer_write fd addr (hi ∷ lo ∷ a ∷ b ∷ []) w).1 fd' addr' reg'
        ≡ register w fd' addr' reg'
  pub sleep_same :
      (n : ℕ) (w : World) (fd addr reg : ℕ)
      → IsSetting reg
      → register (bus.usleep n w) fd addr reg ≡ register w fd addr reg

-- The configuration registers hold the same in two states.
pub record Same {World : Type 0} {bus : Bus World} (law : Registers bus) (v w : World)
    : Type 0 where
  pub same :
      (fd addr reg : ℕ) → IsSetting reg → law.register v fd addr reg ≡ law.register w fd addr reg

bytes_word : (n : ℕ) → n < 65536 → n / 256 % 256 * 256 + n % 256 ≡ n
bytes_word n h = omega arith

module _ {World : Type 0} (bus : Bus World) (law : Registers bus) where
  pub Same-then : (u v w : World) → Same law u v → Same law v w → Same law u w
  Same-then u v w h k = record {
    same = λ fd addr reg s. h.same fd addr reg s ∙ k.same fd addr reg s;
  }

  pub sleep-Same : (n : ℕ) (w : World) → Same law (bus.usleep n w) w
  sleep-Same n w = record { same = law.sleep_same n w }

  -- A read that succeeds gives the register's value; no read changes a register.
  pub i2c_read_value :
      (fd addr reg : ℕ) (w : World)
      → IsSetting reg
      → reg < 65536
      → (i2c_read bus (some fd) addr reg w).ok ≡ true
      → (i2c_read bus (some fd) addr reg w).value ≡ law.register w fd addr reg
  unfolding i2c_read
  i2c_read_value fd addr reg w setting small h =
      read_result (bus.transfer_read fd addr (reg / 256 % 256 ∷ reg % 256 ∷ []) w) refl h
    where
      read_result :
          (r : Option (ℕ × ℕ) × World)
          → bus.transfer_read fd addr (reg / 256 % 256 ∷ reg % 256 ∷ []) w ≡ r
          → (received bus r).ok ≡ true
          → (received bus r).value ≡ law.register w fd addr reg
      read_result (none, w') e k = cc
      read_result (some (a, b), w') e k =
          law.read_value fd addr (reg / 256 % 256) (reg % 256) w a b
            (subst IsSetting (sym (bytes_word reg small)) setting) (ap (λ p. p.0) e)
          ∙ ap (law.register w fd addr) (bytes_word reg small)

  pub i2c_read-Same :
      (fd : Option ℕ) (addr reg : ℕ) (w : World) → Same law (i2c_read bus fd addr reg w).world w
  unfolding i2c_read
  i2c_read-Same none addr reg w = record { same = λ fd addr reg s. refl }
  i2c_read-Same (some fd) addr reg w =
      received-Same (bus.transfer_read fd addr (reg / 256 % 256 ∷ reg % 256 ∷ []) w)
        (record { same = law.read_same fd addr (reg / 256 % 256 ∷ reg % 256 ∷ []) w })
    where
      received-Same :
          (r : Option (ℕ × ℕ) × World) → Same law r.1 w → Same law (received bus r).world w
      received-Same (none, w') e = e
      received-Same (some (a, b), w') e = e

  pub i2c_write_value :
      (fd addr reg content : ℕ) (w : World)
      → IsSetting reg
      → reg < 65536
      → content < 65536
      → (i2c_write bus (some fd) addr reg content w).0 ≡ true
      → (law.register (i2c_write bus (some fd) addr reg content w).1 fd addr reg ≡ content)
        ⊎ (law.register (i2c_write bus (some fd) addr reg content w).1 fd addr reg
            ≡ law.register w fd addr reg)
  unfolding i2c_write
  i2c_write_value fd addr reg content w setting small fits h =
      let hi = reg / 256 % 256 in
      let lo = reg % 256 in
      let a = content / 256 % 256 in
      let b = content % 256 in
      let w' = (bus.transfer_write fd addr (hi ∷ lo ∷ a ∷ b ∷ []) w).1 in
      let back = bytes_word reg small in
      let there = sym (ap (law.register w' fd addr) back) in
      elim (law.write_value fd addr hi lo a b w (subst IsSetting (sym back) setting) (omega arith)
        (omega arith) h) [
          | inl e ↦ inl (there ∙ e ∙ bytes_word content fits)
          | inr e ↦ inr (there ∙ e ∙ ap (law.register w fd addr) back)
        ]

  pub i2c_write_other :
      (fd addr reg content : ℕ) (w : World) (fd' addr' reg' : ℕ)
      → IsSetting reg
      → IsSetting reg'
      → reg < 65536
      → (addr' ≢ addr) ⊎ (reg' ≢ reg)
      → law.register (i2c_write bus (some fd) addr reg content w).1 fd' addr' reg'
        ≡ law.register w fd' addr' reg'
  unfolding i2c_write
  i2c_write_other fd addr reg content w fd' addr' reg' setting setting' small h =
      let back = sym (bytes_word reg small) in
      law.write_other fd addr (reg / 256 % 256) (reg % 256) (content / 256 % 256) (content % 256) w
        fd' addr' reg' (subst IsSetting back setting) setting'
        (subst (λ n. (addr' ≢ addr) ⊎ (reg' ≢ n)) back h)
