-- ===== src/Mm/Pmm/Init.antt =====
-- The free list that the memory map of the boot loader leads to.
use gb_os.Base.{
  ℕ, zero, suc, ◌+◌, ◌-◌, ◌*◌, ◌/◌, ◌^◌, ◌<◌, ◌≤◌, ◌≡◌, refl, sym, ◌∙◌, Bool, true, false, ◌&&◌,
  ◌||◌, List, [], ◌∷◌, inl, inr, arith,
}
use gb_os.Base.{◌==◌, ltb, leb, in_range, if◌then◌else◌, Bool-cases, if_cases}
use gb_os.Mm.Intrusive as Intrusive
use gb_os.Mm.Intrusive.Links.{mem}
use gb_os.Mm.Intrusive.Effects.{new-IsList}
use gb_os.Mm.BootInfo.{E820Entry, memory_type, entry_type, end_of}
use gb_os.Mm.Pmm.{
  Pmm, set_frame, is_free, free_flag, kernel_flag, is_usable, start_addr, end_addr, start_page,
  end_page, add_page, add_kernel, init_page, init_pages, init_entry, init_entries, all_reserved,
  counted, init,
}
use gb_os.Mm.Pmm.Pool.{IsPool, push_free-IsPool}

-- The page lies whole in a usable entry, as far as the allocator's arithmetic goes.
unfoldable pub covers : E820Entry → ℕ → Bool
covers e i =
    if is_usable (memory_type e)
    then (if leb (end_addr e) (start_addr e)
        then false
        else if leb (start_page e) i
        then ltb i (end_page e)
        else false)
    else false

unfoldable pub covered : List E820Entry → ℕ → Bool
covered [] i = false
covered (e ∷ es) i = if covers e i then true else covered es i

-- No page lies in two usable entries.
abbrev pub AreApart : List E820Entry → Type 0
AreApart [] = Unit {0}
AreApart (e ∷ es) = ((i : ℕ) → covers e i ≡ true → covered es i ≡ false) × AreApart es

-- The free list stands for the pages that were seen, less low memory, the kernel's, and those
-- that have no frame.
pub record Holds (p : Pmm) (seen : ℕ → Bool) : Type 0 where
  pub pages : List ℕ
  pub pool : IsPool p pages
  pub members : (i : ℕ) → mem i pages ≡ (if in_range 512 65535 i then seen i else false)

Holds-same :
    {p : Pmm} {seen : ℕ → Bool} (seen' : ℕ → Bool)
    → ((i : ℕ) → in_range 512 65535 i ≡ true → seen i ≡ seen' i)
    → Holds p seen
    → Holds p seen'
Holds-same seen' same h = record {
  pages = h.pages;
  pool = h.pool;
  members = λ i. ground (arith, h.members i, same i);
}

abbrev also : ℕ → (ℕ → Bool) → ℕ → Bool
also i seen j = if j == i then true else seen j

kernel-IsPool :
    (p : Pmm) (xs : List ℕ) (i : ℕ)
    → IsPool p xs
    → mem i xs ≡ false
    → IsPool
        (record p {
          frames = set_frame p.frames i (record (p.frames i) { flags = kernel_flag });
          stats = add_kernel p.stats;
        })
        xs
unfolding is_free
kernel-IsPool p xs i h out = record {
  list = h.list;
  listed = h.listed;
  linked = h.linked;
  flagged = λ j. ground (arith, h.flagged j);
  counted = h.counted;
  bounded = h.bounded;
}

also-members :
    (xs : List ℕ) (seen : ℕ → Bool) (i j : ℕ)
    → 512 ≤ i
    → i < 65536
    → mem j xs ≡ (if in_range 512 65535 j then seen j else false)
    → mem j (i ∷ xs) ≡ (if in_range 512 65535 j then also i seen j else false)
also-members xs seen i j high small h = elim (Bool-cases (i == j)) [
  | inl here ↦ ground arith
  | inr there ↦ ground arith
]

init_page-Holds :
    (p : Pmm) (seen : ℕ → Bool) (i : ℕ)
    → i < 65536
    → seen i ≡ false
    → Holds p seen
    → Holds (init_page p i) (also i seen)
unfolding init_page
init_page-Holds p seen i small fresh h =
    if_cases (λ q. Holds q (also i seen)) (ltb i 256) p _
      (λ low. Holds-same (also i seen) (λ j r. ground arith) h)
      λ high.
        if_cases (λ q. Holds q (also i seen)) (ltb i 512) _ (add_page p i)
          (λ kernel. record {
            pages = h.pages;
            pool = kernel-IsPool p h.pages i h.pool (ground (arith, h.members i));
            members = λ j. ground (arith, h.members j);
          })
          (λ usable. added (ground arith))
  where
    added : 512 ≤ i → Holds (add_page p i) (also i seen)
    added usable =
        unfold add_page is_free in
        record {
          pages = i ∷ h.pages;
          pool =
              push_free-IsPool p h.pages i (record (p.frames i) { flags = free_flag }) h.pool small
                (ground (arith, h.members i)) refl;
          members = λ j. also-members h.pages seen i j usable small (h.members j);
        }

abbrev within : ℕ → ℕ → (ℕ → Bool) → ℕ → Bool
within i n seen j = if leb i j then if ltb j (i + n) then true else seen j else seen j

init_pages-Holds :
    (n i : ℕ) (p : Pmm) (seen : ℕ → Bool)
    → ((j : ℕ) → i ≤ j → j < i + n → seen j ≡ false)
    → Holds p seen
    → Holds (init_pages n i p) (within i n seen)
unfolding init_pages
init_pages-Holds zero i p seen fresh h = Holds-same (within i 0 seen) (λ j r. ground arith) h
init_pages-Holds (suc n) i p seen fresh h = elim (Bool-cases (leb 65536 i)) [
  | inl over ↦ rw (over, init_pages) (Holds-same (within i (suc n) seen) (λ j r. ground arith) h)
  | inr more ↦
      rw (more, init_pages)
        (Holds-same (within i (suc n) seen) (λ j r. ground arith)
          (init_pages-Holds n (suc i) (init_page p i) (also i seen)
            (λ j le lt. ground (arith, fresh j))
            (init_page-Holds p seen i (ground arith) (fresh i (omega arith) (omega arith)) h)))
]

init_entry-Holds :
    (p : Pmm) (e : E820Entry) (seen : ℕ → Bool)
    → ((j : ℕ) → covers e j ≡ true → seen j ≡ false)
    → Holds p seen
    → Holds (init_entry p e) (λ j. if covers e j then true else seen j)
unfolding init_entry covers
init_entry-Holds p e seen fresh h =
    if_cases (λ q. Holds q seen') (is_usable (memory_type e)) _ p
      (λ usable.
        if_cases (λ q. Holds q seen') (leb (end_addr e) (start_addr e)) p _
          (λ nothing. Holds-same seen' (λ j r. ground arith) h)
          λ something.
            Holds-same seen' (λ j r. ground arith)
              (init_pages-Holds (end_page e - start_page e) (start_page e) p seen
                (λ j le lt. fresh j (ground arith)) h))
      (λ unusable. Holds-same seen' (λ j r. ground arith) h)
  where
    seen' : ℕ → Bool
    seen' j = if covers e j then true else seen j

init_entries-Holds :
    (p : Pmm) (es : List E820Entry) (seen : ℕ → Bool)
    → AreApart es
    → ((j : ℕ) → covered es j ≡ true → seen j ≡ false)
    → Holds p seen
    → Holds (init_entries p es) (λ j. if covered es j then true else seen j)
unfolding init_entries covered
init_entries-Holds p [] seen apart fresh h = h
init_entries-Holds p (e ∷ es) seen apart fresh h =
    Holds-same _ (λ j r. ground arith)
      (init_entries-Holds (init_entry p e) es (λ j. if covers e j then true else seen j) apart.1
        (λ j c. ground (arith, apart.0 j, fresh j))
        (init_entry-Holds p e seen (λ j c. ground (arith, fresh j)) h))

all_reserved-Holds : (p : Pmm) → p.stats.free_pages ≡ 0 → Holds (all_reserved p) (λ j. false)
unfolding all_reserved is_free
all_reserved-Holds p h = record {
  pages = [];
  pool = record {
    list = Intrusive.new;
    listed = refl;
    linked = new-IsList p.nodes;
    flagged = λ i. refl;
    counted = h;
    bounded = λ i m. ground arith;
  };
  members = λ i. ground arith;
}

counted-Holds : (p : Pmm) (seen : ℕ → Bool) → Holds p seen → Holds (counted p) seen
unfolding counted
counted-Holds p seen h = record {
  pages = h.pages;
  pool = record {
    list = h.pool.list;
    listed = h.pool.listed;
    linked = h.pool.linked;
    flagged = h.pool.flagged;
    counted = h.pool.counted;
    bounded = h.pool.bounded;
  };
  members = h.members;
}

-- The page lies whole between the first and the last byte of a usable entry.
unfoldable pub lies_in : E820Entry → ℕ → Bool
lies_in e i =
    e.region_type == 1 && leb e.base (i * 4096) && leb ((i + 1) * 4096) (e.base + e.length)

unfoldable pub lies_in_any : List E820Entry → ℕ → Bool
unfolding lies_in
lies_in_any [] i = false
lies_in_any (e ∷ es) i = lies_in e i || lies_in_any es i

-- No page lies in two usable entries, and every entry ends below 2^43.
abbrev pub IsMap : List E820Entry → Type 0
IsMap [] = Unit {0}
IsMap (e ∷ es) =
    (e.base + e.length < 2 ^ 43)
    × ((i : ℕ) → lies_in e i ≡ true → lies_in_any es i ≡ false)
    × IsMap es

start_page_lem :
    (e : E820Entry) → e.base + e.length < 2 ^ 43 → start_page e ≡ (e.base + 4095) / 4096
unfolding start_page start_addr
start_page_lem e h = omega arith

end_page_lem :
    (e : E820Entry) → e.base + e.length < 2 ^ 43 → end_page e ≡ (e.base + e.length) / 4096
unfolding end_page end_addr end_of
end_page_lem e h = omega arith

covers-lies_in : (e : E820Entry) (i : ℕ) → e.base + e.length < 2 ^ 43 → covers e i ≡ lies_in e i
unfolding covers lies_in memory_type entry_type start_addr end_addr end_of
covers-lies_in e i h = ground (arith, start_page_lem e h, end_page_lem e h, addresses)
  where
    addresses :
        (start_addr e ≡ (e.base + 4095) / 4096 * 4096)
        × (end_addr e ≡ (e.base + e.length) / 4096 * 4096)
    addresses = (omega arith, omega arith)

covered-lies_in_any : (es : List E820Entry) (i : ℕ) → IsMap es → covered es i ≡ lies_in_any es i
unfolding covered lies_in_any
covered-lies_in_any [] i h = refl
covered-lies_in_any (e ∷ es) i h =
    ground (arith, covers-lies_in e i h.0, covered-lies_in_any es i h.2)

IsMap-AreApart : (es : List E820Entry) → IsMap es → AreApart es
IsMap-AreApart [] h = tt
IsMap-AreApart (e ∷ es) h = (
  λ i c. covered-lies_in_any es i h.2 ∙ h.1 i (sym (covers-lies_in e i h.0) ∙ c),
  IsMap-AreApart es h.2,
)

-- The same, where a page is in an entry as far as the allocator's arithmetic goes.
pub init-Holds :
    (p : Pmm) (map : List E820Entry)
    → p.stats.free_pages ≡ 0
    → AreApart map
    → Holds (init p map) (covered map)
unfolding init
init-Holds p map none_free apart = counted-Holds (init_entries (all_reserved p) map) (covered map) (
    Holds-same (covered map) (λ j r. ground arith)
      (init_entries-Holds (all_reserved p) map (λ j. false) apart (λ j c. refl)
        (all_reserved-Holds p none_free)))

-- From the statics as they are at the start, with no page counted free, and for a map whose entries
-- end below 2^43 and of which no two usable ones share a whole page: the free list after `init`
-- stands for exactly the pages from 512 to 65535 all of whose 4096 bytes belong to a usable entry,
-- each once.
pub init_exact :
    (p : Pmm) (map : List E820Entry)
    → p.stats.free_pages ≡ 0
    → IsMap map
    → Holds (init p map) (lies_in_any map)
init_exact p map none_free h =
    Holds-same (lies_in_any map) (λ j r. covered-lies_in_any map j h)
      (init-Holds p map none_free (IsMap-AreApart map h))
