-- ===== src/Mm/Pmm/Safety.antt =====
-- The allocator from the start of the kernel on, and its pages against the kernel's heap.
use gb_os.Base.{ℕ, ◌/◌, ◌<◌, ◌≤◌, ◌≡◌, true, List, [], arith}
use gb_os.Mm.BootInfo.{E820Entry}
use gb_os.Mm.Heap.{heap_start, heap_end}
use gb_os.Mm.Pmm.{Pmm, init, is_free, page_size}
use gb_os.Mm.Pmm.Ledger.{Calls, IsSafe, Calls-IsSafe}
use gb_os.Mm.Pmm.Init.{AreApart, covered, init-Holds}

-- Where no page lies in two usable entries of the map: from `init` on, after any sequence of
-- allocations and frees, of any addresses, no page is held twice, and no page that is held is in
-- the free list, which stands for the frames that are flagged free.
pub init-Calls-IsSafe :
    (p : Pmm) (map : List E820Entry) {s : Pmm × List ℕ}
    → p.stats.free_pages ≡ 0
    → AreApart map
    → Calls (init p map, []) s
    → IsSafe s
init-Calls-IsSafe p map none_free apart calls =
    Calls-IsSafe (init-Holds p map none_free apart).pool calls

-- Every page of the kernel's heap that lies in a usable entry is free after `init`, for the
-- allocator to hand out.
pub heap_pages_free :
    (p : Pmm) (map : List E820Entry) (addr : ℕ)
    → p.stats.free_pages ≡ 0
    → AreApart map
    → heap_start ≤ addr
    → addr < heap_end
    → covered map (addr / page_size) ≡ true
    → is_free ((init p map).frames (addr / page_size)) ≡ true
heap_pages_free p map addr none_free apart low high usable =
    let h = init-Holds p map none_free apart in
    ground (arith, h.pool.flagged (addr / page_size), h.members (addr / page_size))
