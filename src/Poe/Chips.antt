-- ===== src/Poe/Chips.antt =====
-- Which controller a port belongs to, and the address of a port's register there.
use meraki_builder.Prelude.{
  ℕ, ◌+◌, ◌-◌, ◌*◌, ◌/◌, ◌%◌, List, [], ◌∷◌, Option, none, some, ◌==◌, ltb, leb, ◌&&◌, ◌||◌,
  if◌then◌else◌, get_or, set,
}
use meraki_builder.Poe.Bus.{Bus, i2c_read}

-- `i2c_fd` is the first descriptor, none for -1; there are four controllers.
pub record Cfg : Type 0 where
  pub i2c_fd : Option ℕ
  pub addrs : List ℕ
  pub pres : List ℕ

abbrev pub max_pd690xx_count : ℕ
max_pd690xx_count = 4

-- The address of the port's controller, 0 for none. A negative port is refused as 0 is.
unfoldable pub get_pd690xx_addr : Cfg → ℕ → ℕ
get_pd690xx_addr cfg port =
    if ltb port 1 || ltb (max_pd690xx_count * 12) port
    then 0
    else let select = (port - 1) / 12 in
      if leb max_pd690xx_count select
      then 0
      else if get_or cfg.pres select 0 == 1
      then get_or cfg.addrs select 0
      else 0

unfoldable pub pd690xx_fd : Cfg → ℕ → Option ℕ
pd690xx_fd cfg port = cfg.i2c_fd

pub data Kind : Type 0 where
  port_config port_power : Kind

abbrev port_base : Kind → ℕ
port_base port_config = 0x131A
port_base port_power = 0x12B4

unfoldable pub port_base_addr : Kind → ℕ → ℕ
port_base_addr kind port =
    let port' = if ltb port 1 then 1 else port in port_base kind + (port' - 1) % 12 * 2

abbrev cfgc_icver : ℕ
cfgc_icver = 0x031A

module _ {World : Type 0} (bus : Bus World) where
  -- A controller that answers with a version is present.
  unfoldable pub probe : ℕ → ℕ → Cfg × World → Cfg × World
  probe fd i (cfg, w) =
      let r = i2c_read bus (some fd) (get_or cfg.addrs i 0) cfgc_icver w in
      (
        if r.ok && ltb 0 (r.value / 1024) then record cfg { pres = set cfg.pres i 1 } else cfg,
        r.world,
      )

  -- `opened` is what opening the first bus gives.
  unfoldable pub i2c_init : Option ℕ → Cfg → World → Cfg × World
  unfolding probe
  i2c_init none cfg w = (record cfg { i2c_fd = none }, w)
  i2c_init (some fd) cfg w =
      probe fd 3 (probe fd 2 (probe fd 1 (probe fd 0 (record cfg { i2c_fd = some fd }, w))))

abbrev count_ones : List ℕ → ℕ
count_ones [] = 0
count_ones (n ∷ ns) = (if n == 1 then 1 else 0) + count_ones ns

-- `pd690xx_pres_count`.
unfoldable pub pd690xx_pres_count : Cfg → ℕ
pd690xx_pres_count cfg = count_ones cfg.pres
