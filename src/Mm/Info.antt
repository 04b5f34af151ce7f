-- ===== src/Mm/Info.antt =====
-- The start of memory management, kernel/src/mm/mod.rs.
use gb_os.Base.{ℕ, ◌+◌, ◌/◌, List, [], ◌∷◌}
use gb_os.Base.{ltb, if◌then◌else◌, length}
use gb_os.Mm.BootInfo.{E820Entry, end_of, memory_type, u64}
use gb_os.Mm.Pmm as Pmm
use gb_os.Mm.Pmm.{Pmm, is_usable}

pub record MemoryInfo : Type 0 where
  pub total_kb : ℕ
  pub usable_kb : ℕ
  pub e820_entries : ℕ

-- The loop that sums the entries up.
unfoldable pub totals : List E820Entry → ℕ → ℕ → ℕ × ℕ
totals [] total usable = (total, usable)
totals (e ∷ es) total usable =
    totals es (if ltb total (end_of e) then end_of e else total)
      (if is_usable (memory_type e) then u64 (usable + e.length) else usable)

unfoldable pub init : Pmm → List E820Entry → MemoryInfo × Pmm
unfolding totals
init p map =
    let (total, usable) = totals map 0 0 in
    (
      record { total_kb = total / 1024; usable_kb = usable / 1024; e820_entries = length map },
      Pmm.init p map,
    )
