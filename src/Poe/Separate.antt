-- ===== src/Poe/Separate.antt =====
-- The ports do not share registers.
use meraki_builder.Prelude.{
  ℕ, ◌-◌, ◌/◌, ◌<◌, ◌≤◌, some, ◌≡◌, ◌≢◌, sym, ◌∙◌, ◌⊎◌, inl, inr, arith, get_or, ◌==◌, Bool-cases,
  ==_iff, List,
}
use meraki_builder.Poe.Bus.{Bus}
use meraki_builder.Poe.Chips.{Cfg, port_config, get_pd690xx_addr, port_base_addr}
use meraki_builder.Poe.Port.{ok, port_able}
use meraki_builder.Poe.Registers.{Registers}
use meraki_builder.Poe.Able.{setting, port_able-Switched}

-- The controllers have addresses of their own.
pub record IsDistinct (addrs : List ℕ) : Type 0 where
  pub apart : (i j : ℕ) → i < 4 → j < 4 → get_or addrs i 0 ≡ get_or addrs j 0 → i ≡ j

-- A port that has an address is one of the 48, and the address is its controller's.
addr_of :
    (cfg : Cfg) (port : ℕ)
    → get_pd690xx_addr cfg port ≢ 0
    → (1 ≤ port) × (port ≤ 48) × (get_pd690xx_addr cfg port ≡ get_or cfg.addrs ((port - 1) / 12) 0)
unfolding get_pd690xx_addr
addr_of cfg port h = ground arith

base_apart :
    (p q : ℕ)
    → 1 ≤ p
    → 1 ≤ q
    → (p - 1) / 12 ≡ (q - 1) / 12
    → port_base_addr port_config q ≡ port_base_addr port_config p
    → p ≡ q
unfolding port_base_addr
base_apart p q a b c e = ground arith

registers_apart :
    (cfg : Cfg) (p q : ℕ)
    → IsDistinct cfg.addrs
    → get_pd690xx_addr cfg p ≢ 0
    → get_pd690xx_addr cfg q ≢ 0
    → p ≢ q
    → (get_pd690xx_addr cfg q ≢ get_pd690xx_addr cfg p)
      ⊎ (port_base_addr port_config q ≢ port_base_addr port_config p)
registers_apart cfg p q v hp hq ne =
    let (p1, p2, pe) = addr_of cfg p hp in
    let (q1, q2, qe) = addr_of cfg q hq in
    elim (Bool-cases ((p - 1) / 12 == (q - 1) / 12)) [
      | inl e ↦ inr (λ r. ne (base_apart p q p1 q1 ((==_iff ((p - 1) / 12) ((q - 1) / 12)).0 e) r))
      | inr e ↦ inl (λ r.
          let same =
            v.apart ((q - 1) / 12) ((p - 1) / 12) (omega arith) (omega arith) (sym qe ∙ r ∙ pe) in
          ground arith)
    ]

module _ {World : Type 0} (bus : Bus World) (law : Registers bus) where
  -- On a bus on which the controllers, each at an address of its own, keep their configuration
  -- registers: switching one port with success leaves the configuration register of every other port
  -- as it was.
  pub port_able-others :
      (cfg : Cfg) (fd op p q : ℕ) (w : World)
      → IsDistinct cfg.addrs
      → cfg.i2c_fd ≡ some fd
      → get_pd690xx_addr cfg p ≢ 0
      → get_pd690xx_addr cfg q ≢ 0
      → p ≢ q
      → (port_able bus cfg op p w).0 ≡ ok
      → law.register
          (port_able bus cfg op p w).1
          fd
          (get_pd690xx_addr cfg q)
          (port_base_addr port_config q)
        ≡ law.register w fd (get_pd690xx_addr cfg q) (port_base_addr port_config q)
  port_able-others cfg fd op p q w v f hp hq ne h =
      (port_able-Switched bus law cfg fd op p w f h).rest.others fd (get_pd690xx_addr cfg q)
        (port_base_addr port_config q) (setting q) (registers_apart cfg p q v hp hq ne)
