-- ===== src/Flash/System.antt =====
-- The kernel as fwflash.c sees it: image files, the contents of MTD partitions by device path, and
-- the calls on them. It is a parameter, with its documented behaviour as laws.
use meraki_builder.Prelude.{ℕ, Bytes, Bool, Option, some, ◌≡◌, ◌≢◌, length, take, drop}

pub record MtdInfo : Type 0 where
  pub is_nor : Bool
  pub size : ℕ
  pub erasesize : ℕ

-- A read that fails gives no bytes, and a write that fails a count of 0.
pub record System (World : Type 0) : Type 0 where
  pub file : World → Bytes → Option Bytes
  pub contents : World → Bytes → Bytes
  pub opens : World → Bytes → Bool
  pub seeks : World → Bytes → Bool
  pub mtd_info : World → Bytes → Option MtdInfo
  pub mem_erase : Bytes → ℕ → ℕ → World → World × Bool
  pub read_file : World → Bytes → ℕ → ℕ → Bytes
  pub read_device : World → Bytes → ℕ → ℕ → Bytes
  pub write_device : Bytes → ℕ → Bytes → World → World × ℕ
  pub sync_device : Bytes → World → World × Bool

-- From one state of the world to the next only the partition at `path` may change.
pub record Only {World : Type 0} (sys : System World) (path : Bytes) (w v : World) : Type 0 where
  pub others : (q : Bytes) → path ≢ q → sys.contents v q ≡ sys.contents w q
  pub images : (q : Bytes) → sys.file v q ≡ sys.file w q

-- A read gives a prefix of what lies at the offset, at most as much as was asked for. The calls on
-- a device leave the other partitions and the image files alone. Nothing is said of what an
-- erasure or a write does to the partition itself.
pub record Laws {World : Type 0} (sys : System World) : Type 0 where
  pub reads_file :
      (w : World) (p content : Bytes) (offset n : ℕ)
      → sys.file w p ≡ some content
      → sys.read_file w p offset n
        ≡ take (length (sys.read_file w p offset n)) (drop offset content)
  pub reads_device :
      (w : World) (p : Bytes) (offset n : ℕ)
      → sys.read_device w p offset n
        ≡ take (length (sys.read_device w p offset n)) (drop offset (sys.contents w p))
  pub erases : (p : Bytes) (start n : ℕ) (w : World) → Only sys p w (sys.mem_erase p start n w).0
  pub writes :
      (p : Bytes) (offset : ℕ) (s : Bytes) (w : World)
      → Only sys p w (sys.write_device p offset s w).0
  pub syncs : (p : Bytes) (w : World) → Only sys p w (sys.sync_device p w).0
