-- ===== src/Poe/Port.antt =====
-- The operations on a port's configuration register. What a function prints is left out.
use meraki_builder.Prelude.{
  ℕ, ◌-◌, ◌*◌, ◌/◌, ◌^◌, Bytes, Bool, false, not, Option, none, some, ◌==◌, ltb, ◌&&◌, ◌||◌,
  if◌then◌else◌, codes, bit_and, bit_or,
}
use meraki_builder.Poe.Bus.{Bus, i2c_read, i2c_write}
use meraki_builder.Poe.Chips.{Cfg, port_config, get_pd690xx_addr, pd690xx_fd, port_base_addr}

pub data Result : Type 0 where
  ok einval enodev eio failed : Result

abbrev pub port_disabled : ℕ
port_disabled = 0

abbrev pub port_enabled : ℕ
port_enabled = 1

abbrev pub port_forced : ℕ
port_forced = 2

-- What is written for each operation.
unfoldable pub desired_of : ℕ → ℕ → ℕ
desired_of op reg =
    if op == port_disabled
    then bit_and reg 0xFC
    else if op == port_enabled
    then bit_or (bit_and reg 0xFC) 1
    else bit_or (bit_and reg 0xFC) 2

-- `port_state(...) != state`; none is -1.
abbrev is_state : Option ℕ → ℕ → Bool
is_state none state = false
is_state (some s) state = s == state

module _ {World : Type 0} (bus : Bus World) where
  unfoldable pub verify : Option ℕ → ℕ → ℕ → ℕ → World → Result × World
  verify fd addr reg desired w =
      let r = i2c_read bus fd addr reg w in
      if not r.ok
      then (eio, r.world)
      else (if bit_and r.value 3 == bit_and desired 3 then ok else eio, r.world)

  unfoldable pub write_verified : Option ℕ → ℕ → ℕ → ℕ → World → Result × World
  unfolding verify
  write_verified fd addr reg desired w =
      let (sent, w') = i2c_write bus fd addr reg desired w in
      if not sent then (eio, w') else verify fd addr reg desired (bus.usleep 100000 w')

  unfoldable pub change : Option ℕ → ℕ → ℕ → ℕ → World → Result × World
  unfolding desired_of write_verified
  change fd addr reg op w =
      let r = i2c_read bus fd addr reg w in
      if not r.ok
      then (eio, r.world)
      else write_verified fd addr reg (desired_of op r.value) r.world

  -- A negative operation is refused as one above `port_forced` is.
  unfoldable pub port_able : Cfg → ℕ → ℕ → World → Result × World
  unfolding change
  port_able cfg op port w =
      if ltb port_forced op || ltb port 1 || ltb 48 port
      then (einval, w)
      else let addr = get_pd690xx_addr cfg port in
        if addr == 0 then (enodev, w) else elim (pd690xx_fd cfg port) [
          | none ↦ (enodev, w)
          | some fd ↦ change (some fd) addr (port_base_addr port_config port) op w
        ]

  -- A failed read leaves 0 in the register's place.
  unfoldable pub port_state : Cfg → ℕ → World → Option ℕ × World
  port_state cfg port w =
      let addr = get_pd690xx_addr cfg port in
      let r = i2c_read bus (pd690xx_fd cfg port) addr (port_base_addr port_config port) w in
      if addr == 0 then (none, w) else (some (bit_and r.value 3), r.world)

  -- Only a port that is not in the state is changed.
  unfoldable pub toggle : Cfg → ℕ → ℕ → World → Result × World
  unfolding port_able port_state
  toggle cfg op port w =
      let (s, w') = port_state cfg port w in
      if is_state s op then (ok, w') else port_able cfg op port w'

  unfoldable pub port_disable : Cfg → ℕ → World → Result × World
  unfolding toggle
  port_disable cfg = toggle cfg port_disabled

  unfoldable pub port_enable : Cfg → ℕ → World → Result × World
  unfolding toggle
  port_enable cfg = toggle cfg port_enabled

  unfoldable pub port_force : Cfg → ℕ → World → Result × World
  unfolding toggle
  port_force cfg = toggle cfg port_forced

  unfoldable pub port_reset : Cfg → ℕ → World → Result × World
  unfolding port_disable port_enable
  port_reset cfg port w =
      let (_, w1) = port_disable cfg port w in
      let (_, w2) = port_enable cfg port (bus.usleep 2000000 w1) in (ok, w2)

  -- The mode, none for -1. With a descriptor of -1 no transfer takes place.
  unfoldable pub port_type : Cfg → ℕ → World → Option ℕ × World
  port_type cfg port w =
      let addr = get_pd690xx_addr cfg port in
      let r = i2c_read bus (pd690xx_fd cfg port) addr (port_base_addr port_config port) w in
      if addr == 0
      then (none, w)
      else (if r.ok then some (bit_and r.value 0x30 / 16) else none, r.world)

  abbrev pub type_reached : ℕ → Option ℕ × World → Result × World
  type_reached mode (t, w) = (if is_state t mode then ok else failed, w)

  unfoldable pub write_mode : Cfg → Option ℕ → ℕ → ℕ → ℕ → ℕ → World → Result × World
  unfolding port_type
  write_mode cfg fd addr port mode reg w =
      let updated = bit_or (bit_and reg (2 ^ 32 - 1 - 0x30)) (mode * 16) in
      let (sent, w') = i2c_write bus fd addr (port_base_addr port_config port) updated w in
      if not sent
      then (failed, w')
      else type_reached mode (port_type cfg port (bus.usleep 100000 w'))

  unfoldable pub port_set_type : Cfg → ℕ → ℕ → World → Result × World
  unfolding write_mode
  port_set_type cfg port mode w =
      let addr = get_pd690xx_addr cfg port in
      let fd = pd690xx_fd cfg port in
      let r = i2c_read bus fd addr (port_base_addr port_config port) w in
      if not (mode == 0) && not (mode == 1)
      then (failed, w)
      else if addr == 0
      then (failed, w)
      else if not r.ok
      then (failed, r.world)
      else write_mode cfg fd addr port mode r.value r.world

  unfoldable pub port_priority : Cfg → ℕ → World → Option ℕ × World
  port_priority cfg port w =
      let addr = get_pd690xx_addr cfg port in
      let r = i2c_read bus (pd690xx_fd cfg port) addr (port_base_addr port_config port) w in
      if addr == 0 then (none, w) else (some (bit_and r.value 0xC0), r.world)

  unfoldable pub port_state_str : Cfg → ℕ → World → Bytes
  unfolding port_state
  port_state_str cfg port w =
      let (s, _) = port_state cfg port w in
      if is_state s port_disabled
      then codes "Disabled"
      else if is_state s port_enabled
      then codes "Enabled"
      else if is_state s port_forced
      then codes "Forced"
      else codes "Unknown"

  unfoldable pub port_type_str : Cfg → ℕ → World → Bytes
  unfolding port_type
  port_type_str cfg port w =
      let (t, _) = port_type cfg port w in
      if is_state t 0 then codes "af" else if is_state t 1 then codes "at" else codes "unknown"

  unfoldable pub port_priority_str : Cfg → ℕ → World → Bytes
  unfolding port_priority
  port_priority_str cfg port w =
      let (p, _) = port_priority cfg port w in
      if is_state p 0
      then codes "Critical"
      else if is_state p 1
      then codes "High"
      else if is_state p 2
      then codes "Low"
      else codes "Unknown"
