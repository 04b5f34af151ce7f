-- ===== src/Mm/Heap.antt =====
-- The kernel's heap, kernel/src/mm/heap.rs: an allocator that only moves forward. A `usize` has 32
-- bits, and `none` is the null pointer.
pub mod Regions
use gb_os.Base.{ℕ, ◌+◌, ◌-◌, ◌%◌, ◌^◌, Option, none, some, bit_and}
use gb_os.Base.{ltb, if◌then◌else◌}

abbrev pub heap_start : ℕ
heap_start = 0x01000000

abbrev pub heap_size : ℕ
heap_size = 0x00400000

abbrev pub heap_end : ℕ
heap_end = 0x01400000

pub record Layout : Type 0 where
  pub size : ℕ
  pub align : ℕ

pub record SimpleBumpAllocator : Type 0 where
  pub next : ℕ

unfoldable pub new : SimpleBumpAllocator
new = record { next = heap_start }

unfoldable pub init : SimpleBumpAllocator → SimpleBumpAllocator
init h = record { next = heap_start }

unfoldable pub align_up : ℕ → ℕ → ℕ
align_up addr align = bit_and ((addr + align + 2 ^ 32 - 1) % 2 ^ 32) (2 ^ 32 - 1 - (align - 1))

unfoldable pub alloc : SimpleBumpAllocator → Layout → Option ℕ × SimpleBumpAllocator
unfolding align_up
alloc h layout =
    let alloc_start = align_up h.next layout.align in
    let alloc_end = (alloc_start + layout.size) % 2 ^ 32 in
    if ltb heap_end alloc_end then (none, h) else (some alloc_start, record { next = alloc_end })

unfoldable pub dealloc : SimpleBumpAllocator → ℕ → Layout → SimpleBumpAllocator
dealloc h ptr layout = h

pub record HeapStats : Type 0 where
  pub used : ℕ
  pub free : ℕ

unfoldable pub stats : SimpleBumpAllocator → HeapStats
stats h = let used = h.next - heap_start in record { used = used; free = heap_size - used }
