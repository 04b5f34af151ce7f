-- ===== src/Storage/Disk.antt =====
-- What the saved games need of the disk: `ata::find_ata_disk`, and `ata::read_sectors` and
-- `write_sectors` for one sector of 512 bytes. The laws are those of a working disk.
use gb_os.Base.{ℕ, ◌≡◌, Bool, true, Option, some, List, ◌==◌, if◌then◌else◌}

pub record Disk : Type 1 where
  pub State : Type 0
  pub present : State → Bool
  -- `none` is an error of the read.
  pub read : State → ℕ → Option (List ℕ)
  -- `true` is success; an error may leave anything on the disk.
  pub write : State → ℕ → List ℕ → Bool × State

-- A write that succeeds stores its sector and touches no other, and leaves the disk attached.
pub record IsDisk (d : Disk) : Type 0 where
  pub read-write :
      (s : d.State) (lba other : ℕ) (sector : List ℕ)
      → (d.write s lba sector).0 ≡ true
      → d.read (d.write s lba sector).1 other
        ≡ (if lba == other then some sector else d.read s other)
  pub present-write :
      (s : d.State) (lba : ℕ) (sector : List ℕ) → d.present (d.write s lba sector).1 ≡ d.present s
