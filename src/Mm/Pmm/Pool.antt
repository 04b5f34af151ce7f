-- ===== src/Mm/Pmm/Pool.antt =====
-- The free list of the allocator as a list of pages, and what each operation does to it.
use mathlib.Core.Path.{subst}
use gb_os.Base.{
  ℕ, ◌*◌, ◌/◌, ◌<◌, ◌≡◌, refl, sym, true, false, Option, none, some, List, [], ◌∷◌, inl, inr, arith,
}
use gb_os.Base.{leb, if◌then◌else◌, length, Bool-cases}
use gb_os.Mm.Intrusive.{IntrusiveList, push_front, pop_front}
use gb_os.Mm.Intrusive.Links.{mem}
use gb_os.Mm.Intrusive.Effects.{IsList}
use gb_os.Mm.Intrusive.Refines.{push_front-IsList, pop_front-IsList, pop_front_nil}
use gb_os.Mm.Pmm.{
  Pmm, PageFrame, set_frame, is_free, allocate, free, push_free, add_free, take_free, alloc_page,
  free_page, page_size,
}
use gb_os.Mm.Pmm.Flags.{is_free-allocate, is_free-free}

-- The free list stands for the pages `xs`: these are the frames that are flagged free, their number
-- is the count of free pages, and each has a frame.
pub record IsPool (p : Pmm) (xs : List ℕ) : Type 0 where
  pub list : IntrusiveList
  pub listed : p.free_list ≡ some list
  pub linked : IsList p.nodes list xs
  pub flagged : (i : ℕ) → is_free (p.frames i) ≡ mem i xs
  pub counted : p.stats.free_pages ≡ length xs
  pub bounded : (i : ℕ) → mem i xs ≡ true → i < 65536

-- A page that is flagged free and pushed.
pub push_free-IsPool :
    (p : Pmm) (xs : List ℕ) (i : ℕ) (f : PageFrame)
    → IsPool p xs
    → i < 65536
    → mem i xs ≡ false
    → is_free f ≡ true
    → IsPool
        (let pushed = push_free (record p { frames = set_frame p.frames i f }) i in
          record pushed { stats = add_free pushed.stats })
        (i ∷ xs)
unfolding push_free
push_free-IsPool p xs i f h small out freed =
    let (is, same) = push_front-IsList i xs out h.linked in
    rw (h.listed) (record {
      list = (push_front h.list p.nodes i).0;
      listed = refl;
      linked = is;
      flagged = λ j. ground (arith, h.flagged j);
      counted = omega (arith, h.counted);
      bounded = λ j m. ground (arith, h.bounded j);
    })

alloc_page-some :
    (p : Pmm) (l : IntrusiveList) (i : ℕ)
    → p.free_list ≡ some l
    → (pop_front l p.nodes).0 ≡ some i
    → alloc_page p ≡ (
      some (i * page_size),
      record p {
        free_list = some (pop_front l p.nodes).1;
        nodes = (pop_front l p.nodes).2;
        frames = set_frame p.frames i (allocate (p.frames i));
        stats = take_free p.stats;
      },
    )
unfolding alloc_page
alloc_page-some p l i listed popped = ground arith

alloc_page_none :
    (p : Pmm) (l : IntrusiveList)
    → p.free_list ≡ some l
    → pop_front l p.nodes ≡ (none, l, p.nodes)
    → alloc_page p ≡ (none, p)
unfolding alloc_page
alloc_page_none p l listed popped = ground arith

-- Allocation from a pool that has pages gives the one that was freed last.
pub alloc_page-IsPool :
    (p : Pmm) (xs : List ℕ) (i : ℕ)
    → IsPool p (i ∷ xs)
    → ((alloc_page p).0 ≡ some (i * page_size)) × IsPool (alloc_page p).1 xs
alloc_page-IsPool p xs i h =
    let (popped, is, same, unlinked) = pop_front-IsList i xs h.linked in
    subst (λ (r : Option ℕ × Pmm). (r.0 ≡ some (i * page_size)) × IsPool r.1 xs)
      (sym (alloc_page-some p h.list i h.listed popped))
      (
        refl,
        record {
          list = (pop_front h.list p.nodes).1;
          listed = refl;
          linked = is;
          flagged =
              λ j. ground (arith, h.flagged j, is_free-allocate (p.frames i), h.linked.distinct.0);
          counted = omega (arith, h.counted);
          bounded = λ j m. ground (arith, h.bounded j);
        },
      )

pub alloc_page_empty :
    (p : Pmm) → IsPool p [] → ((alloc_page p).0 ≡ none) × IsPool (alloc_page p).1 []
alloc_page_empty p h =
    subst (λ (r : Option ℕ × Pmm). (r.0 ≡ none) × IsPool r.1 [])
      (sym (alloc_page_none p h.list h.listed (pop_front_nil p.nodes h.list h.linked))) (refl, h)

-- A page that is allocated goes to the front of the pool; another is left as it is.
pub free_page-IsPool :
    (p : Pmm) (xs : List ℕ) (addr : ℕ)
    → IsPool p xs
    → IsPool (free_page p addr) (
        if leb 65536 (addr / page_size)
        then xs
        else if mem (addr / page_size) xs
        then xs
        else (addr / page_size) ∷ xs)
unfolding free_page
free_page-IsPool p xs addr h =
    let i = addr / page_size in
    elim (Bool-cases (leb 65536 i)) [
      | inl outside ↦ rw outside h
      | inr inside ↦
          rw (inside, h.flagged i)
            (elim (Bool-cases (mem i xs)) [
              | inl already ↦ rw already h
              | inr allocated ↦ rw allocated (
                  push_free-IsPool p xs i (free (p.frames i)) h (ground arith) allocated
                    (is_free-free (p.frames i)))
            ])
    ]
