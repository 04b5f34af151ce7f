-- ===== src/Mm/Pmm.antt =====
-- The allocator of physical pages, kernel/src/mm/pmm.rs. A frame stands for its index in
-- `PAGE_FRAMES`, so the free list links indices, and `frame_index` is the identity.
pub mod Flags
pub mod Pool
pub mod Ledger
pub mod Init
pub mod Safety
use gb_os.Base.{
  ℕ, zero, suc, ◌+◌, ◌-◌, ◌*◌, ◌/◌, ◌%◌, ◌^◌, Bool, true, false, Option, none, some, List, [], ◌∷◌,
  bit_and, bit_or,
}
use gb_os.Base.{◌==◌, ltb, leb, if◌then◌else◌}
use gb_os.Mm.Intrusive as Intrusive
use gb_os.Mm.Intrusive.{Nodes, IntrusiveList, push_front, pop_front}
use gb_os.Mm.BootInfo.{E820Entry, E820Type, memory_type, end_of, u64}

abbrev pub page_size : ℕ
page_size = 4096

abbrev pub max_page_frames : ℕ
max_page_frames = 65536

abbrev pub free_flag : ℕ
free_flag = 1

abbrev pub reserved_flag : ℕ
reserved_flag = 2

abbrev pub kernel_flag : ℕ
kernel_flag = 4

-- `PageFlags::contains`, `insert` and `remove`, on sixteen bits.
unfoldable pub contains : ℕ → ℕ → Bool
contains flags other = bit_and flags other == other

unfoldable pub insert : ℕ → ℕ → ℕ
insert flags other = bit_or flags other

unfoldable pub remove : ℕ → ℕ → ℕ
remove flags other = bit_and flags (0xFFFF - other)

pub record PageFrame : Type 0 where
  pub flags : ℕ
  pub ref_count : ℕ

unfoldable pub is_free : PageFrame → Bool
unfolding contains
is_free f = contains f.flags free_flag

unfoldable pub allocate : PageFrame → PageFrame
unfolding remove
allocate f = record { flags = remove f.flags free_flag; ref_count = 1 }

unfoldable pub free : PageFrame → PageFrame
unfolding insert
free f = record { flags = insert f.flags free_flag; ref_count = 0 }

pub record PmmStats : Type 0 where
  pub total_pages : ℕ
  pub free_pages : ℕ
  pub reserved_pages : ℕ
  pub kernel_pages : ℕ

-- The four statics: the frames, the nodes that are embedded in them, the free list and the counts.
pub record Pmm : Type 0 where
  pub frames : ℕ → PageFrame
  pub nodes : Nodes
  pub free_list : Option IntrusiveList
  pub stats : PmmStats

abbrev pub set_frame : (ℕ → PageFrame) → ℕ → PageFrame → ℕ → PageFrame
set_frame frames i f j = if j == i then f else frames j

-- `list.push` where there is a list.
unfoldable pub push_free : Pmm → ℕ → Pmm
push_free p i = elim p.free_list [
  | none ↦ p
  | some l ↦
      let (l', nodes') = push_front l p.nodes i in record p { free_list = some l'; nodes = nodes' }
]

abbrev pub add_free : PmmStats → PmmStats
add_free s = record s { free_pages = s.free_pages + 1 }

abbrev pub add_kernel : PmmStats → PmmStats
add_kernel s = record s { kernel_pages = s.kernel_pages + 1 }

-- A page of a usable entry that is neither low memory nor the kernel's.
unfoldable pub add_page : Pmm → ℕ → Pmm
unfolding push_free
add_page p i =
    let flagged : Pmm = record p {
      frames = set_frame p.frames i (record (p.frames i) { flags = free_flag });
    } in
    let pushed = push_free flagged i in record pushed { stats = add_free pushed.stats }

unfoldable pub init_page : Pmm → ℕ → Pmm
unfolding add_page
init_page p i =
    if ltb i 256
    then p
    else if ltb i 512
    then record p {
      frames = set_frame p.frames i (record (p.frames i) { flags = kernel_flag });
      stats = add_kernel p.stats;
    }
    else add_page p i

-- The pages from `i` on, with the number of them left.
unfoldable pub init_pages : ℕ → ℕ → Pmm → Pmm
unfolding init_page
init_pages zero i p = p
init_pages (suc n) i p = elim (leb max_page_frames i) [
  | true ↦ p
  | false ↦ init_pages n (suc i) (init_page p i)
]

abbrev pub is_usable : E820Type → Bool
is_usable E820Type.usable = true
is_usable E820Type.reserved = false
is_usable E820Type.acpi_reclaimable = false
is_usable E820Type.acpi_nvs = false
is_usable E820Type.bad_memory = false

unfoldable pub start_addr : E820Entry → ℕ
start_addr e = u64 (u64 (e.base + page_size) + 2 ^ 64 - 1) / page_size * page_size

unfoldable pub end_addr : E820Entry → ℕ
unfolding end_of
end_addr e = end_of e / page_size * page_size

-- The pages of an entry, from the first to the one behind the last; an index has 32 bits.
unfoldable pub start_page : E820Entry → ℕ
unfolding start_addr
start_page e = start_addr e / page_size % 2 ^ 32

unfoldable pub end_page : E820Entry → ℕ
unfolding end_addr
end_page e = end_addr e / page_size % 2 ^ 32

unfoldable pub init_entry : Pmm → E820Entry → Pmm
unfolding memory_type start_addr end_addr start_page end_page init_pages
init_entry p e =
    if is_usable (memory_type e)
    then (if leb (end_addr e) (start_addr e)
        then p
        else init_pages (end_page e - start_page e) (start_page e) p)
    else p

unfoldable pub init_entries : Pmm → List E820Entry → Pmm
unfolding init_entry
init_entries p [] = p
init_entries p (e ∷ es) = init_entries (init_entry p e) es

-- The first pass, with an empty free list.
unfoldable pub all_reserved : Pmm → Pmm
unfolding Intrusive.new
all_reserved p = record p {
  frames = λ i. record (p.frames i) { flags = reserved_flag };
  free_list = some Intrusive.new;
}

unfoldable pub counted : Pmm → Pmm
counted p =
    let s = p.stats in
    record p { stats = record s { total_pages = s.free_pages + s.kernel_pages + s.reserved_pages } }

unfoldable pub init : Pmm → List E820Entry → Pmm
unfolding all_reserved init_entries counted
init p map = counted (init_entries (all_reserved p) map)

abbrev pub take_free : PmmStats → PmmStats
take_free s = record s { free_pages = s.free_pages - 1 }

unfoldable pub alloc_page : Pmm → Option ℕ × Pmm
alloc_page p = elim p.free_list [
  | none ↦ (none, p)
  | some l ↦
      let (popped, l', nodes') = pop_front l p.nodes in
      let q : Pmm = record p { free_list = some l'; nodes = nodes' } in
      elim popped [
        | none ↦ (none, q)
        | some i ↦ (
          some (i * page_size),
          record q {
            frames = set_frame q.frames i (allocate (q.frames i));
            stats = take_free q.stats;
          },
        )
      ]
]

unfoldable pub free_page : Pmm → ℕ → Pmm
unfolding push_free
free_page p phys_addr =
    let i = phys_addr / page_size in
    if leb max_page_frames i
    then p
    else if is_free (p.frames i)
    then p
    else (let freed : Pmm = record p { frames = set_frame p.frames i (free (p.frames i)) } in
        let pushed = push_free freed i in record pushed { stats = add_free pushed.stats })

unfoldable pub free_page_count : Pmm → ℕ
free_page_count p = p.stats.free_pages

-- `total_memory` and `free_memory`, in bytes.
unfoldable pub total_memory : Pmm → ℕ
total_memory p = p.stats.total_pages * page_size

unfoldable pub free_memory : Pmm → ℕ
free_memory p = p.stats.free_pages * page_size
