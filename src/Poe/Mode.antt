-- ===== src/Poe/Mode.antt =====
-- `port_set_type`, and what `port_disable` and `port_priority_str` make of the register.
use meraki_builder.Prelude.{
  ℕ, ◌+◌, ◌-◌, ◌*◌, ◌^◌, ◌%◌, ◌<◌, ◌/◌, true, false, not, Option, none, some, ◌≡◌, ◌≢◌, refl, sym,
  ap, ◌∙◌, ◌⊎◌, arith, subst, ◌==◌, ◌&&◌, if_both, bit_and, bit_or, without_middle, or_mode,
  high_two, low_two, middle_two, some_inj, ==_iff, inl, inr, codes, [], ◌∷◌,
}
use meraki_builder.Poe.Bus.{Bus, i2c_read, i2c_write, received}
use meraki_builder.Poe.Chips.{Cfg, port_config, get_pd690xx_addr, pd690xx_fd, port_base_addr}
use meraki_builder.Poe.Port.{
  Result, ok, write_mode, port_type, port_set_type, type_reached, port_state, toggle, port_disable,
  port_priority, port_priority_str,
}
use meraki_builder.Poe.Registers.{
  Registers, Same, Same-then, sleep-Same, i2c_read_value, i2c_read-Same,
}
use meraki_builder.Poe.Able.{setting, Others, Sent, Sent-Same, write-Sent, port_base_addr_small}

updated_mode :
    (reg mode : ℕ)
    → reg < 65536
    → mode < 4
    → bit_or (bit_and reg (2 ^ 32 - 1 - 48)) (mode * 16) ≡ reg / 64 * 64 + mode * 16 + reg % 16
updated_mode reg mode h k =
    ap (λ n. bit_or n (mode * 16)) (without_middle reg h)
    ∙ or_mode (reg / 64) (reg % 16) mode (omega arith) k

-- A port's register after its mode was set: its value, and that no other setting has changed.
pub record ModeSet {World : Type 0} {bus : Bus World} (law : Registers bus) (fd addr reg mode : ℕ)
    (w w' : World) : Type 0 where
  pub now :
      law.register w' fd addr reg
      ≡ law.register w fd addr reg / 64 * 64 + mode * 16 + law.register w fd addr reg % 16
  pub rest : Others law addr reg w w'

-- A register with the mode that was wanted, whether the write reached it or not.
mode_value :
    (old new mode : ℕ)
    → old < 65536
    → mode < 2
    → (new ≡ bit_or (bit_and old (2 ^ 32 - 1 - 48)) (mode * 16)) ⊎ (new ≡ old)
    → new / 16 % 4 ≡ mode
    → new ≡ old / 64 * 64 + mode * 16 + old % 16
mode_value old new mode small le (inl e) m = e ∙ updated_mode old mode small (omega arith)
mode_value old new mode small le (inr e) m = omega arith

module _ {World : Type 0} (bus : Bus World) (law : Registers bus) where
  port_type-Same : (cfg : Cfg) (port : ℕ) (w : World) → Same law (port_type bus cfg port w).1 w
  unfolding port_type
  port_type-Same cfg port w =
      let read =
        i2c_read-Same bus law (pd690xx_fd cfg port) (get_pd690xx_addr cfg port)
          (port_base_addr port_config port) w in
      if_both (λ (r : Option ℕ × World). Same law r.1 w) (get_pd690xx_addr cfg port == 0) _ _
        (λ _. record { same = λ fd addr reg s. refl }) (λ _. read)

  -- The mode that is read back is in the register.
  port_type_digits :
      (cfg : Cfg) (fd port mode : ℕ) (w : World)
      → cfg.i2c_fd ≡ some fd
      → (port_type bus cfg port w).0 ≡ some mode
      → law.register w fd (get_pd690xx_addr cfg port) (port_base_addr port_config port) / 16 % 4
        ≡ mode
  unfolding port_type pd690xx_fd get_pd690xx_addr
  port_type_digits cfg fd port mode w f =
      let addr = get_pd690xx_addr cfg port in
      let at = port_base_addr port_config port in
      let r = i2c_read bus (some fd) addr at w in
      let Q = law.register w fd addr at / 16 % 4 ≡ mode in
      rw f (
        if_both (λ (q : Option ℕ × World). q.0 ≡ some mode → Q) (addr == 0) _ _ (λ _ h. cc)
          (λ _.
            if_both (λ (o : Option ℕ). o ≡ some mode → Q) r.ok _ _
              (λ e h.
                let read =
                  i2c_read_value bus law fd addr at w (setting port) (port_base_addr_small port)
                    e in
                ap (λ (n : ℕ). n / 16 % 4) (sym read) ∙ digits r.value (some_inj h))
              (λ _ h. cc)))
    where
      digits : (n : ℕ) → bit_and n 48 / 16 ≡ mode → n / 16 % 4 ≡ mode
      digits n e = omega (arith, middle_two n, e)

  reached : (mode : ℕ) (r : Option ℕ × World) → (type_reached bus mode r).0 ≡ ok → r.0 ≡ some mode
  reached mode (none, w) = λ h. cc
  reached mode (some t, w) =
      if_both (λ (x : Result). x ≡ ok → some t ≡ some mode) (t == mode) _ _
        (λ e _. ap some ((==_iff t mode).0 e)) (λ _ h. cc)

  write_mode-Sent :
      (cfg : Cfg) (fd port mode reg : ℕ) (w : World)
      → cfg.i2c_fd ≡ some fd
      → reg < 65536
      → mode < 2
      → (write_mode bus cfg (some fd) (get_pd690xx_addr cfg port) port mode reg w).0 ≡ ok
      → Sent law fd
          (get_pd690xx_addr cfg port)
          (port_base_addr port_config port)
          (bit_or (bit_and reg (2 ^ 32 - 1 - 48)) (mode * 16))
          w
          (write_mode bus cfg (some fd) (get_pd690xx_addr cfg port) port mode reg w).1
        × (law.register
                (write_mode bus cfg (some fd) (get_pd690xx_addr cfg port) port mode reg w).1
                fd
                (get_pd690xx_addr cfg port)
                (port_base_addr port_config port)
              / 16
              % 4
            ≡ mode)
  unfolding write_mode
  write_mode-Sent cfg fd port mode reg w f small le =
      let addr = get_pd690xx_addr cfg port in
      let at = port_base_addr port_config port in
      let updated = bit_or (bit_and reg (2 ^ 32 - 1 - 48)) (mode * 16) in
      let sent = i2c_write bus (some fd) addr at updated w in
      let asleep = bus.usleep 100000 sent.1 in
      let final = (port_type bus cfg port asleep).1 in
      let back = port_type-Same cfg port asleep in
      if_both
        (λ (r : Result × World).
          r.0 ≡ ok
          → Sent law fd addr at updated w r.1 × (law.register r.1 fd addr at / 16 % 4 ≡ mode))
        (not sent.0) _ _ (λ _ h. cc)
        (λ k h. (
          Sent-Same bus law fd addr at updated w w final sent.1 (setting port)
              (record { same = λ d a n s. refl })
              (Same-then bus law final asleep sent.1 back (sleep-Same bus law 100000 sent.1))
              (write-Sent bus law fd addr at updated w (setting port) (port_base_addr_small port)
                (omega (arith, updated_mode reg mode small (omega arith))) (ground arith)),
          ap (λ (n : ℕ). n / 16 % 4) (back.same fd addr at (setting port))
              ∙ port_type_digits cfg fd port mode asleep f
                  (reached mode (port_type bus cfg port asleep) h),
        ))

  -- The mode is written over what was read, with some descriptor.
  abbrev Sets : Cfg → ℕ → Option ℕ → ℕ → ℕ → World → Type 0
  Sets cfg fd o port mode w =
      let addr = get_pd690xx_addr cfg port in
      let at = port_base_addr port_config port in
      let r = i2c_read bus o addr at w in
      let result = write_mode bus cfg o addr port mode r.value r.world in
      r.ok ≡ true → result.0 ≡ ok → ModeSet law fd addr at mode w result.1

  read_then_written :
      (cfg : Cfg) (fd port mode : ℕ) (w : World)
      → cfg.i2c_fd ≡ some fd
      → mode < 2
      → Sets cfg fd (some fd) port mode w
  read_then_written cfg fd port mode w f le e h =
      let addr = get_pd690xx_addr cfg port in
      let at = port_base_addr port_config port in
      let old = law.register w fd addr at in
      let r = i2c_read bus (some fd) addr at w in
      let final = (write_mode bus cfg (some fd) addr port mode r.value r.world).1 in
      let updated = λ (n : ℕ). bit_or (bit_and n (2 ^ 32 - 1 - 48)) (mode * 16) in
      let read = i2c_read_value bus law fd addr at w (setting port) (port_base_addr_small port) e in
      let word = law.register_word w fd addr at in
      let (sent, digits) =
        write_mode-Sent cfg fd port mode r.value r.world f (omega (arith, read, word)) le h in
      let unread = i2c_read-Same bus law (some fd) addr at w in
      let all =
        Sent-Same bus law fd addr at (updated r.value) w r.world final final (setting port)
          (record { same = λ d a n s. sym (unread.same d a n s) })
          (record { same = λ d a n s. refl }) sent in
      record {
        now =
            mode_value old (law.register final fd addr at) mode word le
              (subst
                (λ (n : ℕ).
                  (law.register final fd addr at ≡ updated n)
                  ⊎ (law.register final fd addr at ≡ old))
                read all.now)
              digits;
        rest = all.rest;
      }

  -- On a bus on which the controllers keep their configuration registers, though it may lose a
  -- write that it acknowledges: when `port_set_type` succeeds, the two mode digits of the port's
  -- configuration register are the mode, its other fourteen digits are as they were, and no other
  -- port's configuration register has changed.
  pub port_set_type-ModeSet :
      (cfg : Cfg) (fd port mode : ℕ) (w : World)
      → cfg.i2c_fd ≡ some fd
      → (port_set_type bus cfg port mode w).0 ≡ ok
      → ModeSet law fd
          (get_pd690xx_addr cfg port)
          (port_base_addr port_config port)
          mode
          w
          (port_set_type bus cfg port mode w).1
  unfolding port_set_type pd690xx_fd get_pd690xx_addr
  port_set_type-ModeSet cfg fd port mode w f =
      let addr = get_pd690xx_addr cfg port in
      let at = port_base_addr port_config port in
      let r = i2c_read bus cfg.i2c_fd addr at w in
      let P = λ (q : Result × World). q.0 ≡ ok → ModeSet law fd addr at mode w q.1 in
      if_both P (not (mode == 0) && not (mode == 1)) _ _ (λ _ h. cc)
        (λ m.
          if_both P (addr == 0) _ _ (λ _ h. cc)
            (λ _.
              if_both P (not r.ok) _ _ (λ _ h. cc)
                (λ e.
                  subst (λ o. Sets cfg fd o port mode w) (sym f)
                    (read_then_written cfg fd port mode w f (ground arith)) (ground arith))))

module _ {World : Type 0} (bus : Bus World) where
  i2c_read_unread :
      (fd : Option ℕ) (addr reg : ℕ) (w : World)
      → (i2c_read bus fd addr reg w).ok ≡ false
      → (i2c_read bus fd addr reg w).value ≡ 0
  unfolding i2c_read
  i2c_read_unread none addr reg w e = refl
  i2c_read_unread (some fd) addr reg w e =
      unread (bus.transfer_read fd addr (reg / 256 % 256 ∷ reg % 256 ∷ []) w) e
    where
      unread :
          (r : Option (ℕ × ℕ) × World) → (received bus r).ok ≡ false → (received bus r).value ≡ 0
      unread (none, w') k = refl
      unread (some (a, b), w') k = cc

  -- The priority digits are read at 64 and 128 and compared with 0, 1 and 2: whatever the register
  -- holds, the text for the priority of a port is `Critical` or `Unknown`.
  pub port_priority_str_coarse :
      (cfg : Cfg) (port : ℕ) (w : World)
      → (port_priority_str bus cfg port w ≡ codes "Critical")
        ⊎ (port_priority_str bus cfg port w ≡ codes "Unknown")
  unfolding port_priority_str port_priority
  port_priority_str_coarse cfg port w =
      let r =
        i2c_read bus (pd690xx_fd cfg port) (get_pd690xx_addr cfg port)
          (port_base_addr port_config port) w in
      ground (arith, high_two r.value)

  -- When the register of a port whose controller is there cannot be read, `port_disable` returns
  -- success behind that read, and writes nothing.
  pub port_disable_unread :
      (cfg : Cfg) (port : ℕ) (w : World)
      → get_pd690xx_addr cfg port ≢ 0
      → (i2c_read bus
          (pd690xx_fd cfg port)
          (get_pd690xx_addr cfg port)
          (port_base_addr port_config port)
          w).ok
        ≡ false
      → port_disable bus cfg port w ≡ (
        ok,
        (i2c_read bus
            (pd690xx_fd cfg port)
            (get_pd690xx_addr cfg port)
            (port_base_addr port_config port)
            w).world,
      )
  unfolding port_disable port_state toggle
  port_disable_unread cfg port w h e =
      let at = port_base_addr port_config port in
      let zero = i2c_read_unread (pd690xx_fd cfg port) (get_pd690xx_addr cfg port) at w e in
      ground (
        arith,
        zero,
        low_two (i2c_read bus (pd690xx_fd cfg port) (get_pd690xx_addr cfg port) at w).value,
      )
