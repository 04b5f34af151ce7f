-- ===== src/Mm/BootInfo.antt =====
-- The memory map that the boot loader hands over, kernel/src/boot_info.rs. The map is the list of
-- the entries that its iterator gives.
use gb_os.Base.{ℕ, ◌+◌, ◌%◌, ◌^◌}
use gb_os.Base.{◌==◌, if◌then◌else◌}

pub data E820Type : Type 0 where
  usable : E820Type
  reserved : E820Type
  acpi_reclaimable : E820Type
  acpi_nvs : E820Type
  bad_memory : E820Type

pub record E820Entry : Type 0 where
  pub base : ℕ
  pub length : ℕ
  pub region_type : ℕ
  pub acpi_extended : ℕ

unfoldable pub entry_type : E820Entry → E820Type
entry_type e =
    if e.region_type == 1
    then E820Type.usable
    else if e.region_type == 2
    then E820Type.reserved
    else if e.region_type == 3
    then E820Type.acpi_reclaimable
    else if e.region_type == 4
    then E820Type.acpi_nvs
    else if e.region_type == 5
    then E820Type.bad_memory
    else E820Type.reserved

unfoldable pub memory_type : E820Entry → E820Type
unfolding entry_type
memory_type e = entry_type e

abbrev pub u64 : ℕ → ℕ
u64 n = n % 2 ^ 64

-- `start` and `end`.
unfoldable pub start : E820Entry → ℕ
start e = e.base

unfoldable pub end_of : E820Entry → ℕ
end_of e = u64 (e.base + e.length)
