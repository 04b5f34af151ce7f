-- ===== src/Mm/Tests.antt =====
-- Tests of memory management, and its theorems at concrete inputs.
use gb_os.Base.{◌*◌, ◌/◌, ◌≡◌, refl, true, none, some, List, [], ◌∷◌, ◌++◌, arith}
use gb_os.Mm.Intrusive.{
  Nodes, IntrusiveList, unlinked, new, push_front, pop_front, push_back, remove,
}
use gb_os.Mm.Intrusive.Effects.{IsList, SameOutside, Is}
use gb_os.Mm.Intrusive.Effects as Effects
use gb_os.Mm.Intrusive.Refines.{push_back-IsList, remove-IsList}
use gb_os.Mm.BootInfo.{E820Entry, memory_type}
use gb_os.Mm.Pmm.{Pmm, init, alloc_page, free_page, is_free, page_size, start_page, end_page}
use gb_os.Mm.Pmm.Ledger.{here, next, handed_out, freed, IsSafe, give_back}
use gb_os.Mm.Pmm.Init.{covers, covered, Holds, lies_in_any, init_exact}
use gb_os.Mm.Pmm.Safety.{init-Calls-IsSafe, heap_pages_free}
use gb_os.Mm.Heap.{Layout, heap_start}
use gb_os.Mm.Heap as Heap
use gb_os.Mm.Heap.Regions.{IsLayout, Fits, serve, serve-Fits}

abbrev blank : Nodes
blank a = unlinked

-- Three elements, pushed to the back one after the other.
abbrev one : IntrusiveList × Nodes
one = push_back new blank 1

abbrev two : IntrusiveList × Nodes
two = push_back one.0 one.1 2

abbrev three : IntrusiveList × Nodes
three = push_back two.0 two.1 3

three-IsList : IsList three.1 three.0 (1 ∷ 2 ∷ 3 ∷ [])
three-IsList =
    let first = (push_back-IsList 1 [] refl (Effects.new-IsList blank)).0 in
    let second = (push_back-IsList 2 (1 ∷ []) refl first).0 in
    (push_back-IsList 3 (1 ∷ 2 ∷ []) refl second).0

remove-IsList_example :
    Is ((1 ∷ []) ++ (3 ∷ [])) (remove three.0 three.1 2)
    × SameOutside ((1 ∷ []) ++ 2 ∷ 3 ∷ []) three.1 (remove three.0 three.1 2).1
    × ((remove three.0 three.1 2).1 2 ≡ unlinked)
remove-IsList_example = remove-IsList 2 (1 ∷ []) (3 ∷ []) three-IsList

abbrev untouched : Pmm
untouched = record {
  frames = λ i. record { flags = 0; ref_count = 0 };
  nodes = blank;
  free_list = none;
  stats = record { total_pages = 0; free_pages = 0; reserved_pages = 0; kernel_pages = 0 };
}

-- Two pages behind the kernel's, and a map with the heap.
abbrev two_pages : E820Entry
two_pages = record { base = 0x200000; length = 0x2000; region_type = 1; acpi_extended = 0 }

abbrev with_heap : E820Entry
with_heap = record { base = 0x1000001; length = 0x3FFFFF; region_type = 1; acpi_extended = 0 }

abbrev booted : Pmm
booted = init untouched (two_pages ∷ [])

last_page_first : (alloc_page booted).0 ≡ some (513 * 4096)
unfolding alloc_page init pop_front push_front
last_page_first = refl

-- One whole page above the kernel's, between a start and an end inside of pages, and memory that is
-- not usable.
abbrev odd_map : List E820Entry
odd_map =
    record { base = 0x200001; length = 0x2FFE; region_type = 1; acpi_extended = 0 }
    ∷ record { base = 0x300000; length = 0x1000; region_type = 2; acpi_extended = 0 }
    ∷ []

init_exact_example : Holds (init untouched odd_map) (lies_in_any odd_map)
unfolding lies_in_any
init_exact_example =
    init_exact untouched odd_map refl (omega arith, λ i c. refl, (omega arith, λ i c. refl, tt))

init-Calls-IsSafe_example :
    IsSafe (free_page (alloc_page booted).1 (513 * 4096), give_back 513 (513 ∷ []))
unfolding covered alloc_page init pop_front push_front
init-Calls-IsSafe_example =
    init-Calls-IsSafe untouched (two_pages ∷ []) refl (λ i c. refl, tt)
      (next (next here (handed_out booted (alloc_page booted).1 [] 513 refl))
        (freed (alloc_page booted).1 (513 ∷ []) (513 * 4096)))

heap_pages_free_example :
    is_free ((init untouched (with_heap ∷ [])).frames (0x1001000 / page_size)) ≡ true
unfolding covered covers start_page end_page memory_type
heap_pages_free_example =
    heap_pages_free untouched (with_heap ∷ []) 0x1001000 refl (λ i c. refl, tt) (omega arith)
      (omega arith) refl

abbrev word : Layout
word = record { size = 4; align = 4 }

abbrev page : Layout
page = record { size = 100; align = 4096 }

serve-Fits_example : Fits heap_start (serve Heap.new (word ∷ page ∷ word ∷ []))
serve-Fits_example =
    serve-Fits (word ∷ page ∷ word ∷ []) (word-IsLayout, (page-IsLayout, (word-IsLayout, tt)))
  where
    word-IsLayout : IsLayout word
    word-IsLayout = record { shift = 2; power = refl; word = omega arith; size = omega arith }

    page-IsLayout : IsLayout page
    page-IsLayout = record { shift = 12; power = refl; word = omega arith; size = omega arith }
