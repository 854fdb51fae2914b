-- ===== src/Poe/Tests.antt =====
-- A bus with one controller, whose registers are a function of their numbers.
use meraki_builder.Prelude.{
  ℕ, zero, suc, get_or, ◌+◌, ◌*◌, ◌%◌, ◌<◌, ◌/◌, ◌&&◌, Bytes, Bool, true, false, [], ◌∷◌, Option,
  none, some, ◌≡◌, ◌≢◌, refl, ◌⊎◌, inl, arith, ◌==◌, if◌then◌else◌, ap, some_inj, codes,
}
use meraki_builder.Poe.Bus.{Bus, i2c_read, i2c_write}
use meraki_builder.Poe.Chips.{Cfg, get_pd690xx_addr, port_base_addr, pd690xx_fd}
use meraki_builder.Poe.Port.{ok, enodev, port_able, port_set_type, port_disable, port_priority_str}
use meraki_builder.Poe.Registers.{Registers}
use meraki_builder.Poe.Able.{Switched, port_able-Switched, Answered, port_able-Answered}
use meraki_builder.Poe.Mode.{
  ModeSet, port_set_type-ModeSet, port_priority_str_coarse, port_disable_unread,
}
use meraki_builder.Poe.Separate.{IsDistinct, port_able-others}

-- A register by its controller and number.
abbrev Cells : Type 0
Cells = ℕ → ℕ → ℕ

put : ℕ → ℕ → ℕ → Cells → Cells
put addr reg value w a r = if a == addr && r == reg then value % 65536 else w a r

abbrev sent : ℕ → Bytes → Cells → Bool × Cells
sent addr (hi ∷ lo ∷ a ∷ b ∷ []) w = (true, put addr (hi * 256 + lo) (a * 256 + b) w)
sent addr s w = (false, w)

abbrev fetched : ℕ → Bytes → Cells → Option (ℕ × ℕ) × Cells
fetched addr (hi ∷ lo ∷ []) w =
    (some (w addr (hi * 256 + lo) % 65536 / 256, w addr (hi * 256 + lo) % 256), w)
fetched addr s w = (none, w)

abbrev board : Bus Cells
board = record { transfer_write = λ fd. sent; transfer_read = λ fd. fetched; usleep = λ n w. w }

fetched_same : (addr : ℕ) (s : Bytes) (w : Cells) → (fetched addr s w).1 ≡ w
fetched_same addr [] w = refl
fetched_same addr (x ∷ []) w = refl
fetched_same addr (x ∷ y ∷ []) w = refl
fetched_same addr (x ∷ y ∷ z ∷ s) w = refl

put_self : (addr reg value : ℕ) (w : Cells) → value < 65536 → put addr reg value w addr reg ≡ value
unfolding put
put_self addr reg value w h = ground arith

put_other :
    (addr reg value : ℕ) (w : Cells) (a r : ℕ)
    → (a ≢ addr) ⊎ (r ≢ reg)
    → put addr reg value w a r ≡ w a r
unfolding put
put_other addr reg value w a r h = ground arith

some_pair : {a b c d : ℕ} → ◌≡◌ {A = Option (ℕ × ℕ)} (some (a, b)) (some (c, d)) → (a ≡ c) × (b ≡ d)
some_pair e = let p = some_inj e in (ap (λ q. q.0) p, ap (λ q. q.1) p)

fetched_value :
    (w a b : ℕ)
    → ◌≡◌ {A = Option (ℕ × ℕ)} (some (w % 65536 / 256, w % 256)) (some (a, b))
    → a * 256 + b ≡ w % 65536
fetched_value w a b e = let p = some_pair e in omega (arith, p.0, p.1)

word : (n : ℕ) → n % 65536 < 65536
word n = omega arith

abbrev registers : Cells → ℕ → ℕ → ℕ → ℕ
registers w fd addr reg = w addr reg % 65536

abbrev board_law : Registers board
board_law = record {
  register = registers;
  register_word = λ w fd addr reg. word (w addr reg);
  read_value = λ fd addr hi lo w a b s e. fetched_value (w addr (hi * 256 + lo)) a b e;
  read_same =
      λ fd addr s w fd' addr' reg' n. ap (λ v. registers v fd' addr' reg') (fetched_same addr s w);
  write_value = λ fd addr hi lo a b w s ha hb e.
      inl (omega (arith, put_self addr (hi * 256 + lo) (a * 256 + b) w (omega arith)));
  write_other = λ fd addr hi lo a b w fd' addr' reg' s s' h.
      ap (λ n. n % 65536) (put_other addr (hi * 256 + lo) (a * 256 + b) w addr' reg' h);
  sleep_same = λ n w fd addr reg s. refl;
}

-- Controllers at four addresses, the first two present; every register is 0x1F3.
abbrev cfg : Cfg
cfg = record { i2c_fd = some 3; addrs = 48 ∷ 49 ∷ 50 ∷ 51 ∷ []; pres = 1 ∷ 1 ∷ 0 ∷ 0 ∷ [] }

abbrev cells : Cells
cells a r = 0x1F3

able_ok : (port_able board cfg 1 2 cells).0 ≡ ok
unfolding port_able put get_pd690xx_addr pd690xx_fd i2c_read i2c_write port_base_addr
able_ok = refl

distinct : IsDistinct cfg.addrs
distinct = record { apart = four }
  where
    four : (i j : ℕ) → i < 4 → j < 4 → get_or cfg.addrs i 0 ≡ get_or cfg.addrs j 0 → i ≡ j
    four zero zero h k e = refl
    four zero (suc zero) h k e = absurd (omega arith)
    four zero (suc (suc zero)) h k e = absurd (omega arith)
    four zero (suc (suc (suc zero))) h k e = absurd (omega arith)
    four (suc zero) zero h k e = absurd (omega arith)
    four (suc zero) (suc zero) h k e = refl
    four (suc zero) (suc (suc zero)) h k e = absurd (omega arith)
    four (suc zero) (suc (suc (suc zero))) h k e = absurd (omega arith)
    four (suc (suc zero)) zero h k e = absurd (omega arith)
    four (suc (suc zero)) (suc zero) h k e = absurd (omega arith)
    four (suc (suc zero)) (suc (suc zero)) h k e = refl
    four (suc (suc zero)) (suc (suc (suc zero))) h k e = absurd (omega arith)
    four (suc (suc (suc zero))) zero h k e = absurd (omega arith)
    four (suc (suc (suc zero))) (suc zero) h k e = absurd (omega arith)
    four (suc (suc (suc zero))) (suc (suc zero)) h k e = absurd (omega arith)
    four (suc (suc (suc zero))) (suc (suc (suc zero))) h k e = refl
    four (suc (suc (suc (suc i)))) j h k e = absurd (omega arith)
    four i (suc (suc (suc (suc j)))) h k e = absurd (omega arith)

port_able-Switched_example :
    Switched board_law 3 48 0x131C 1 cells (port_able board cfg 1 2 cells).1
unfolding get_pd690xx_addr port_base_addr
port_able-Switched_example = port_able-Switched board board_law cfg 3 1 2 cells refl able_ok

port_able-Answered_example : Answered cfg 1 30 cells (enodev, cells)
unfolding port_able get_pd690xx_addr
port_able-Answered_example = port_able-Answered board cfg 1 30 cells

nonzero : (n : ℕ) → 0 < n → n ≢ 0
nonzero n h e = omega arith

port_able-others_example : (port_able board cfg 1 2 cells).1 49 0x1320 % 65536 ≡ 0x1F3
unfolding get_pd690xx_addr port_base_addr
port_able-others_example =
    port_able-others board board_law cfg 3 1 2 16 cells distinct refl
      (nonzero (get_pd690xx_addr cfg 2) (omega arith))
      (nonzero (get_pd690xx_addr cfg 16) (omega arith)) (λ e. cc) able_ok

set_ok : (port_set_type board cfg 2 1 cells).0 ≡ ok
unfolding port_set_type put get_pd690xx_addr pd690xx_fd i2c_read i2c_write port_base_addr
set_ok = refl

port_set_type-ModeSet_example :
    ModeSet board_law 3 48 0x131C 1 cells (port_set_type board cfg 2 1 cells).1
unfolding get_pd690xx_addr port_base_addr
port_set_type-ModeSet_example = port_set_type-ModeSet board board_law cfg 3 2 1 cells refl set_ok

port_priority_str_coarse_example :
    (port_priority_str board cfg 2 cells ≡ codes "Critical")
    ⊎ (port_priority_str board cfg 2 cells ≡ codes "Unknown")
port_priority_str_coarse_example = port_priority_str_coarse board cfg 2 cells

-- A bus that is not open: no register can be read.
abbrev closed : Cfg
closed = record cfg { i2c_fd = none }

port_disable_unread_example : port_disable board closed 2 cells ≡ (ok, cells)
unfolding get_pd690xx_addr pd690xx_fd i2c_read
port_disable_unread_example =
    port_disable_unread board closed 2 cells (nonzero (get_pd690xx_addr closed 2) (omega arith))
      refl
