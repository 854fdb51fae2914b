-- ===== src/Poe/Able.antt =====
-- `port_able`: what it leaves in the port's register, and when it refuses.
use meraki_builder.Prelude.{
  ℕ, ◌+◌, ◌*◌, ◌%◌, ◌<◌, ◌≤◌, ◌/◌, true, not, Option, none, some, ◌≡◌, ◌≢◌, refl, sym, ap, ◌∙◌, ◌⊎◌,
  arith, subst, ◌==◌, ltb, ◌||◌, zero, suc, if_both, bit_or, without_two, or_low, bit_and, low_two,
  inl, inr, ==_iff,
}
use meraki_builder.Poe.Bus.{Bus, i2c_read, i2c_write}
use meraki_builder.Poe.Chips.{Cfg, port_config, get_pd690xx_addr, pd690xx_fd, port_base_addr}
use meraki_builder.Poe.Port.{
  Result, ok, einval, enodev, eio, desired_of, verify, write_verified, change, port_able,
}
use meraki_builder.Poe.Registers.{
  IsSetting, Registers, Same, Same-then, sleep-Same, i2c_read_value, i2c_read-Same, i2c_write_value,
  i2c_write_other,
}

-- The lowest two digits are the operation; of the others, those of the low byte are kept.
pub desired_of_lem : (op reg : ℕ) → op ≤ 2 → desired_of op reg ≡ reg % 256 / 4 * 4 + op
unfolding desired_of
desired_of_lem zero reg h = omega (arith, without_two reg)
desired_of_lem (suc zero) reg h =
    ap (λ n. bit_or n 1) (without_two reg) ∙ or_low (reg % 256 / 4) 1 (omega arith)
desired_of_lem (suc (suc zero)) reg h =
    ap (λ n. bit_or n 2) (without_two reg) ∙ or_low (reg % 256 / 4) 2 (omega arith)
desired_of_lem (suc (suc (suc op))) reg h = absurd (omega arith)

pub port_base_addr_small : (port : ℕ) → port_base_addr port_config port < 65536
unfolding port_base_addr
port_base_addr_small port = ground arith

pub setting : (port : ℕ) → IsSetting (port_base_addr port_config port)
setting port = record { port = port; number = refl }

-- No configuration register but this one has changed.
pub record Others {World : Type 0} {bus : Bus World} (law : Registers bus) (addr reg : ℕ)
    (w w' : World) : Type 0 where
  pub others :
      (fd' addr' reg' : ℕ)
      → IsSetting reg'
      → (addr' ≢ addr) ⊎ (reg' ≢ reg)
      → law.register w' fd' addr' reg' ≡ law.register w fd' addr' reg'

-- A write that was acknowledged: the register holds the content, or still what it held before.
pub record Sent {World : Type 0} {bus : Bus World} (law : Registers bus) (fd addr reg content : ℕ)
    (w w' : World) : Type 0 where
  pub now :
      (law.register w' fd addr reg ≡ content)
      ⊎ (law.register w' fd addr reg ≡ law.register w fd addr reg)
  pub rest : Others law addr reg w w'

-- A port's register after it was switched: the lowest two digits are the operation, the six above
-- them are as they were, and the high byte is 0 unless the whole register is as it was.
pub record Switched {World : Type 0} {bus : Bus World} (law : Registers bus) (fd addr reg op : ℕ)
    (w w' : World) : Type 0 where
  pub operation : law.register w' fd addr reg % 4 ≡ op
  pub settings : law.register w' fd addr reg % 256 / 4 ≡ law.register w fd addr reg % 256 / 4
  pub high :
      (law.register w' fd addr reg / 256 ≡ 0)
      ⊎ (law.register w' fd addr reg ≡ law.register w fd addr reg)
  pub rest : Others law addr reg w w'

-- What the register holds, given what was read, written and read back.
switched_value :
    (old new op : ℕ)
    → op ≤ 2
    → (new ≡ old % 256 / 4 * 4 + op) ⊎ (new ≡ old)
    → new % 4 ≡ (old % 256 / 4 * 4 + op) % 4
    → (new % 4 ≡ op) × (new % 256 / 4 ≡ old % 256 / 4) × ((new / 256 ≡ 0) ⊎ (new ≡ old))
switched_value old new op le (inl e) m = (omega arith, omega arith, inl (omega arith))
switched_value old new op le (inr e) m = (omega arith, ap (λ (n : ℕ). n % 256 / 4) e, inr e)

module _ {World : Type 0} (bus : Bus World) (law : Registers bus) where
  -- The configuration registers matter, not the rest of the world.
  pub Sent-Same :
      (fd addr reg content : ℕ) (v w v' w' : World)
      → IsSetting reg
      → Same law v w
      → Same law v' w'
      → Sent law fd addr reg content w w'
      → Sent law fd addr reg content v v'
  Sent-Same fd addr reg content v w v' w' s e e' c = record {
    now = elim c.now [
      | inl n ↦ inl (e'.same fd addr reg s ∙ n)
      | inr n ↦ inr (e'.same fd addr reg s ∙ n ∙ sym (e.same fd addr reg s))
    ];
    rest = record {
      others = λ fd' addr' reg' s' h.
          e'.same fd' addr' reg' s'
          ∙ c.rest.others fd' addr' reg' s' h
          ∙ sym (e.same fd' addr' reg' s');
    };
  }

  pub write-Sent :
      (fd addr reg content : ℕ) (w : World)
      → IsSetting reg
      → reg < 65536
      → content < 65536
      → (i2c_write bus (some fd) addr reg content w).0 ≡ true
      → Sent law fd addr reg content w (i2c_write bus (some fd) addr reg content w).1
  write-Sent fd addr reg content w s small fits sent = record {
    now = i2c_write_value bus law fd addr reg content w s small fits sent;
    rest = record {
      others = λ fd' addr' reg' s' h.
          i2c_write_other bus law fd addr reg content w fd' addr' reg' s s' small h;
    };
  }

  verify-Same :
      (fd : Option ℕ) (addr reg desired : ℕ) (w : World)
      → Same law (verify bus fd addr reg desired w).1 w
  unfolding verify
  verify-Same fd addr reg desired w =
      if_both (λ (r : Result × World). Same law r.1 w) (not (i2c_read bus fd addr reg w).ok) _ _
        (λ _. i2c_read-Same bus law fd addr reg w) (λ _. i2c_read-Same bus law fd addr reg w)

  -- What the reading back finds: the lowest two digits are those that were wanted.
  verify_digits :
      (fd addr reg desired : ℕ) (w : World)
      → IsSetting reg
      → reg < 65536
      → (verify bus (some fd) addr reg desired w).0 ≡ ok
      → law.register w fd addr reg % 4 ≡ desired % 4
  unfolding verify
  verify_digits fd addr reg desired w s small =
      let r = i2c_read bus (some fd) addr reg w in
      let Q = law.register w fd addr reg % 4 ≡ desired % 4 in
      if_both (λ (q : Result × World). q.0 ≡ ok → Q) (not r.ok) _ _ (λ _ h. cc)
        (λ e.
          if_both (λ (x : Result). x ≡ ok → Q) (bit_and r.value 3 == bit_and desired 3) _ _
            (λ same _.
              ap (λ (n : ℕ). n % 4)
                (sym (i2c_read_value bus law fd addr reg w s small (ground arith)))
              ∙ sym (low_two r.value)
              ∙ (==_iff (bit_and r.value 3) (bit_and desired 3)).0 same
              ∙ low_two desired)
            (λ _ h. cc))

  write_verified-Sent :
      (fd addr reg desired : ℕ) (w : World)
      → IsSetting reg
      → reg < 65536
      → desired < 65536
      → (write_verified bus (some fd) addr reg desired w).0 ≡ ok
      → Sent law fd addr reg desired w (write_verified bus (some fd) addr reg desired w).1
        × (law.register (write_verified bus (some fd) addr reg desired w).1 fd addr reg % 4
            ≡ desired % 4)
  unfolding write_verified
  write_verified-Sent fd addr reg desired w s small fits =
      let sent = i2c_write bus (some fd) addr reg desired w in
      let asleep = bus.usleep 100000 sent.1 in
      let final = (verify bus (some fd) addr reg desired asleep).1 in
      if_both
        (λ (r : Result × World).
          r.0 ≡ ok
          → Sent law fd addr reg desired w r.1 × (law.register r.1 fd addr reg % 4 ≡ desired % 4))
        (not sent.0) _ _ (λ _ h. cc)
        (λ e h.
          let back = verify-Same (some fd) addr reg desired asleep in
          (
            Sent-Same fd addr reg desired w w final sent.1 s (record { same = λ f a r t. refl })
                (Same-then bus law final asleep sent.1 back (sleep-Same bus law 100000 sent.1))
                (write-Sent fd addr reg desired w s small fits (ground arith)),
            ap (λ (n : ℕ). n % 4) (back.same fd addr reg s)
                ∙ verify_digits fd addr reg desired asleep s small h,
          ))

  change-Switched :
      (fd addr reg op : ℕ) (w : World)
      → IsSetting reg
      → reg < 65536
      → op ≤ 2
      → (change bus (some fd) addr reg op w).0 ≡ ok
      → Switched law fd addr reg op w (change bus (some fd) addr reg op w).1
  unfolding change
  change-Switched fd addr reg op w s small le =
      let r = i2c_read bus (some fd) addr reg w in
      if_both (λ (q : Result × World). q.0 ≡ ok → Switched law fd addr reg op w q.1) (not r.ok) _ _
        (λ _ h. cc)
        (λ e h.
          let old = law.register w fd addr reg in
          let desired = desired_of op r.value in
          let final = (write_verified bus (some fd) addr reg desired r.world).1 in
          let read = i2c_read_value bus law fd addr reg w s small (ground arith) in
          let wanted : desired ≡ old % 256 / 4 * 4 + op =
            desired_of_lem op r.value le ∙ ap (λ n. n % 256 / 4 * 4 + op) read in
          let (sent, digits) =
            write_verified-Sent fd addr reg desired r.world s small (omega (arith, wanted)) h in
          let all =
            Sent-Same fd addr reg desired w r.world final final s
              (record {
                same = λ f a n t. sym ((i2c_read-Same bus law (some fd) addr reg w).same f a n t);
              })
              (record { same = λ f a n t. refl }) sent in
          let (operation, settings, high) =
            switched_value old (law.register final fd addr reg) op le
              (subst
                (λ (n : ℕ).
                  (law.register final fd addr reg ≡ n) ⊎ (law.register final fd addr reg ≡ old))
                wanted all.now)
              (digits ∙ ap (λ (n : ℕ). n % 4) wanted) in
          record { operation = operation; settings = settings; high = high; rest = all.rest })

  -- On a bus on which the controllers keep their configuration registers, though it may lose a
  -- write that it acknowledges: when `port_able` succeeds, the lowest two digits of the port's
  -- configuration register are the operation, the six digits above them are as they were, the high
  -- byte is 0 or the register is as it was, and no other port's configuration register has changed.
  pub port_able-Switched :
      (cfg : Cfg) (fd op port : ℕ) (w : World)
      → cfg.i2c_fd ≡ some fd
      → (port_able bus cfg op port w).0 ≡ ok
      → Switched law fd
          (get_pd690xx_addr cfg port)
          (port_base_addr port_config port)
          op
          w
          (port_able bus cfg op port w).1
  unfolding port_able pd690xx_fd get_pd690xx_addr
  port_able-Switched cfg fd op port w f =
      let addr = get_pd690xx_addr cfg port in
      let reg = port_base_addr port_config port in
      let P = λ (q : Result × World). q.0 ≡ ok → Switched law fd addr reg op w q.1 in
      if_both P (ltb 2 op || ltb port 1 || ltb 48 port) _ _ (λ _ h. cc)
        (λ e.
          if_both P (addr == 0) _ _ (λ _ h. cc)
            (λ _. rw f (
              change-Switched fd addr reg op w (setting port) (port_base_addr_small port)
                (ground arith))))

-- How a call of `port_able` ends: -EINVAL exactly for an operation or a port that does not exist,
-- -ENODEV exactly for a port whose controller is not there or a bus that is not open, both with
-- nothing transferred; otherwise with success or -EIO.
pub data Answered {World : Type 0} (cfg : Cfg) (op port : ℕ) (w : World)
    : Result × World → Type 0 where
  unknown : (2 < op) ⊎ (port < 1) ⊎ (48 < port) → Answered cfg op port w (einval, w)
  absent :
      op ≤ 2
      → 1 ≤ port
      → port ≤ 48
      → (get_pd690xx_addr cfg port ≡ 0) ⊎ (cfg.i2c_fd ≡ none)
      → Answered cfg op port w (enodev, w)
  tried :
      (r : Result × World) (fd : ℕ)
      → op ≤ 2
      → 1 ≤ port
      → port ≤ 48
      → get_pd690xx_addr cfg port ≢ 0
      → cfg.i2c_fd ≡ some fd
      → (r.0 ≡ ok) ⊎ (r.0 ≡ eio)
      → Answered cfg op port w r

module _ {World : Type 0} (bus : Bus World) where
  change_result :
      (fd : Option ℕ) (addr reg op : ℕ) (w : World)
      → ((change bus fd addr reg op w).0 ≡ ok) ⊎ ((change bus fd addr reg op w).0 ≡ eio)
  unfolding change write_verified verify
  change_result fd addr reg op w =
      let r = i2c_read bus fd addr reg w in
      let P = λ (q : Result × World). (q.0 ≡ ok) ⊎ (q.0 ≡ eio) in
      if_both P (not r.ok) _ _ (λ _. inr refl)
        (λ _.
          let sent = i2c_write bus fd addr reg (desired_of op r.value) r.world in
          let back = i2c_read bus fd addr reg (bus.usleep 100000 sent.1) in
          if_both P (not sent.0) _ _ (λ _. inr refl)
            (λ _.
              if_both P (not back.ok) _ _ (λ _. inr refl)
                (λ _.
                  if_both (λ (x : Result). (x ≡ ok) ⊎ (x ≡ eio))
                    (bit_and back.value 3 == bit_and (desired_of op r.value) 3) _ _ (λ _. inl refl)
                    (λ _. inr refl))))

  bus_open :
      (cfg : Cfg) (op port : ℕ) (w : World) (o : Option ℕ)
      → cfg.i2c_fd ≡ o
      → op ≤ 2
      → 1 ≤ port
      → port ≤ 48
      → get_pd690xx_addr cfg port ≢ 0
      → Answered cfg op port w (elim o [
        | none ↦ (enodev, w)
        | some fd ↦
            change bus (some fd) (get_pd690xx_addr cfg port) (port_base_addr port_config port) op w
      ])
  bus_open cfg op port w none f le low high there = absent le low high (inr f)
  bus_open cfg op port w (some fd) f le low high there =
      let addr = get_pd690xx_addr cfg port in
      let reg = port_base_addr port_config port in
      tried (change bus (some fd) addr reg op w) fd le low high there f
        (change_result (some fd) addr reg op w)

  -- Every call of `port_able` ends in one of three ways: with -EINVAL when the operation is above 2
  -- or the port is not one of the 48; with -ENODEV when they exist but the port's controller is not
  -- there or the bus is not open; with success or -EIO when all of this is there. In the first two
  -- the bus is as it was.
  pub port_able-Answered :
      (cfg : Cfg) (op port : ℕ) (w : World) → Answered cfg op port w (port_able bus cfg op port w)
  unfolding port_able pd690xx_fd
  port_able-Answered cfg op port w =
      let addr = get_pd690xx_addr cfg port in
      let reg = port_base_addr port_config port in
      let P = λ (q : Result × World). Answered cfg op port w q in
      if_both P (ltb 2 op || ltb port 1 || ltb 48 port) _ _ (λ e. unknown (ground arith))
        (λ e.
          let le : op ≤ 2 = ground arith in
          let low : 1 ≤ port = ground arith in
          let high : port ≤ 48 = ground arith in
          if_both P (addr == 0) _ _ (λ h. absent le low high (inl ((==_iff addr 0).0 h)))
            (λ h. bus_open cfg op port w cfg.i2c_fd refl le low high (λ z. ground arith)))
