-- ===== src/Mm/Pmm/Ledger.antt =====
-- The allocator under any sequence of calls: the pages that its callers hold.
use mathlib.Core.Path.{subst}
use gb_os.Base.{ℕ, ◌*◌, ◌/◌, ◌≡◌, ap, Bool, true, false, none, some, List, [], ◌∷◌, inl, inr, arith}
use gb_os.Base.{◌==◌, leb, if◌then◌else◌, Bool-cases, if_both}
use gb_os.Mm.Intrusive.Links.{mem, Distinct}
use gb_os.Mm.Pmm.{Pmm, alloc_page, free_page, page_size}
use gb_os.Mm.Pmm.Pool.{IsPool, alloc_page-IsPool, alloc_page_empty, free_page-IsPool}

-- The held pages without one of them.
unfoldable pub give_back : ℕ → List ℕ → List ℕ
give_back i [] = []
give_back i (x ∷ xs) = if x == i then give_back i xs else x ∷ give_back i xs

-- A call of the allocator, with the pages that are held before and after it: one that it hands out
-- is held until it is given to `free_page`.
pub data Call : Pmm × List ℕ → Pmm × List ℕ → Type 0 where
  handed_out :
      (p p' : Pmm) (held : List ℕ) (i : ℕ)
      → alloc_page p ≡ (some (i * page_size), p')
      → Call (p, held) (p', i ∷ held)
  refused : (p p' : Pmm) (held : List ℕ) → alloc_page p ≡ (none, p') → Call (p, held) (p', held)
  freed :
      (p : Pmm) (held : List ℕ) (addr : ℕ)
      → Call (p, held) (free_page p addr, give_back (addr / page_size) held)

pub data Calls (s : Pmm × List ℕ) : Pmm × List ℕ → Type 0 where
  here : Calls s s
  next : {t u : Pmm × List ℕ} → Calls s t → Call t u → Calls s u

-- No page is held twice, and none that is held is free.
pub record IsSafe (s : Pmm × List ℕ) : Type 0 where
  pub free : List ℕ
  pub pool : IsPool s.0 free
  pub distinct : Distinct s.1
  pub apart : (i : ℕ) → mem i s.1 ≡ true → mem i free ≡ false

mem-give_back :
    (i j : ℕ) (xs : List ℕ) → mem j (give_back i xs) ≡ (if i == j then false else mem j xs)
unfolding give_back
mem-give_back i j [] = ground arith
mem-give_back i j (x ∷ xs) = ground (arith, mem-give_back i j xs)

give_back-Distinct : (i : ℕ) (xs : List ℕ) → Distinct xs → Distinct (give_back i xs)
unfolding give_back
give_back-Distinct i [] d = tt
give_back-Distinct i (x ∷ xs) d = elim (Bool-cases (x == i)) [
  | inl gone ↦ rw gone (give_back-Distinct i xs d.1)
  | inr kept ↦ rw kept (ground (arith, mem-give_back i x xs, d.0), give_back-Distinct i xs d.1)
]

handed_out-IsSafe :
    (p p' : Pmm) (held free : List ℕ) (i : ℕ)
    → alloc_page p ≡ (some (i * page_size), p')
    → IsPool p free
    → Distinct held
    → ((j : ℕ) → mem j held ≡ true → mem j free ≡ false)
    → IsSafe (p', i ∷ held)
handed_out-IsSafe p p' held [] i e pool d apart =
    let (none_left, _) = alloc_page_empty p pool in absurd (ground (arith, ap (λ r. r.0) e))
handed_out-IsSafe p p' held (x ∷ free) i e pool d apart =
    let (given, after) = alloc_page-IsPool p free x pool in
    let same : i ≡ x = ground (arith, ap (λ r. r.0) e) in
    let fresh = pool.linked.distinct.0 in
    record {
      free = free;
      pool = subst (λ q. IsPool q free) (ap (λ r. r.1) e) after;
      distinct = (ground (arith, apart i), d);
      apart = λ j m. ground (arith, apart j, ap (λ t. mem t free) same);
    }

refused-IsSafe :
    (p p' : Pmm) (held free : List ℕ)
    → alloc_page p ≡ (none, p')
    → IsPool p free
    → Distinct held
    → ((j : ℕ) → mem j held ≡ true → mem j free ≡ false)
    → IsSafe (p', held)
refused-IsSafe p p' held [] e pool d apart = record {
  free = [];
  pool = subst (λ q. IsPool q []) (ap (λ r. r.1) e) (alloc_page_empty p pool).1;
  distinct = d;
  apart = apart;
}
refused-IsSafe p p' held (x ∷ free) e pool d apart =
    let (given, after) = alloc_page-IsPool p free x pool in absurd (ground (arith, ap (λ r. r.0) e))

still_apart :
    (b : Bool) (i j : ℕ) (held free : List ℕ)
    → mem j (give_back i held) ≡ true
    → (mem j held ≡ true → mem j free ≡ false)
    → mem j (if b then free else if mem i free then free else i ∷ free) ≡ false
still_apart b i j held free m apart =
    let others : (i == j) ≡ false = ground (arith, mem-give_back i j held) in
    let out = apart (ground (arith, mem-give_back i j held)) in
    if_both (λ l. mem j l ≡ false) b free (if mem i free then free else i ∷ free) out
      (if_both (λ l. mem j l ≡ false) (mem i free) free (i ∷ free) out (ground arith))

Call-IsSafe : {s t : Pmm × List ℕ} → Call s t → IsSafe s → IsSafe t
Call-IsSafe (handed_out p p' held i e) h =
    handed_out-IsSafe p p' held h.free i e h.pool h.distinct h.apart
Call-IsSafe (refused p p' held e) h = refused-IsSafe p p' held h.free e h.pool h.distinct h.apart
Call-IsSafe (freed p held addr) h =
    let i = addr / page_size in
    record {
      free = if leb 65536 i then h.free else if mem i h.free then h.free else i ∷ h.free;
      pool = free_page-IsPool p h.free addr h.pool;
      distinct = give_back-Distinct i held h.distinct;
      apart = λ j m. still_apart (leb 65536 i) i j held h.free m (h.apart j);
    }

-- From an allocator whose free list stands for some pages, with no page held, after any sequence of
-- allocations and frees, of any addresses: no page is held twice, and no page that is held is in
-- the free list, which still stands for the frames that are flagged free.
pub Calls-IsSafe :
    {p : Pmm} {xs : List ℕ} {s : Pmm × List ℕ} → IsPool p xs → Calls (p, []) s → IsSafe s
Calls-IsSafe {p} {xs} h here = record {
  free = xs;
  pool = h;
  distinct = tt;
  apart = λ i m. ground arith;
}
Calls-IsSafe h (next calls call) = Call-IsSafe call (Calls-IsSafe h calls)
