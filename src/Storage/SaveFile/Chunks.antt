-- ===== src/Storage/SaveFile/Chunks.antt =====
-- Data written sector by sector is read back sector by sector.
use gb_os.Base.{
  ℕ, zero, suc, ◌+◌, ◌-◌, ◌*◌, ◌<◌, ◌≤◌, ◌≡◌, ◌⊎◌, inl, refl, ◌∙◌, ap, sym, min, true, false, some,
  [], ◌∷◌, ◌++◌, arith,
}
use gb_os.Base.{if◌then◌else◌, take, drop, drop_all}
use mathlib.Core.List.{append_assoc}
use mathlib.Core.Path.{subst, ap₂}
use gb_os.Storage.Disk.{Disk, IsDisk}
use gb_os.Storage.SaveHeader.{Bytes, sector_size}
use gb_os.Storage.SaveFile.{LoadResult, write_chunks, read_chunks}

-- The bytes of chunk `i`.
abbrev pub chunk : ℕ → Bytes → Bytes
chunk zero bytes = take sector_size bytes
chunk (suc i) bytes = chunk i (drop sector_size bytes)

take-nil : (n : ℕ) → take {A = ℕ} n [] ≡ []
take-nil zero = refl
take-nil (suc n) = refl

take-zero : (n : ℕ) (xs : Bytes) → n ≡ 0 → take n xs ≡ []
take-zero n xs e = rw e refl

-- Taking `left` bytes takes them from the first `k` and then from the rest.
pub take_split :
    (left k : ℕ) (xs : Bytes)
    → take left xs ≡ take (min left k) (take k xs) ++ take (left - min left k) (drop k xs)
take_split zero zero xs = refl
take_split zero (suc k) xs =
    let e = take-zero (min 0 (suc k)) (take (suc k) xs) (omega arith) in
    let e' = take-zero (0 - min 0 (suc k)) (drop (suc k) xs) (omega arith) in sym (ap₂ ◌++◌ e e')
take_split (suc left) zero xs =
    let e : min (suc left) 0 ≡ 0 = omega arith in
    let e' : suc left - 0 ≡ suc left = omega arith in rw (e, e') refl
take_split (suc left) (suc k) [] =
    sym
      (ap₂ ◌++◌ (take-nil (min (suc left) (suc k))) (take-nil (suc left - min (suc left) (suc k))))
take_split (suc left) (suc k) (x ∷ xs) =
    let e : min (suc left) (suc k) ≡ suc (min left k) = omega arith in
    let e' : suc left - suc (min left k) ≡ left - min left k = omega arith in
    rw (e, e') (ap (λ ys. x ∷ ys) (take_split left k xs))

drop-drop : (m n : ℕ) (xs : Bytes) → drop m (drop n xs) ≡ drop (n + m) xs
drop-drop m zero xs = let e : 0 + m ≡ m = omega arith in rw e refl
drop-drop m (suc n) [] =
    let e : suc n + m ≡ suc (n + m) = omega arith in rw e (drop_all m [] (omega arith))
drop-drop m (suc n) (x ∷ xs) =
    let e : suc n + m ≡ suc (n + m) = omega arith in rw e (drop-drop m n xs)

module _ (d : Disk) (laws : IsDisk d) where
  -- What a run of chunk writes leaves on the disk.
  pub record Wrote (s : d.State) (n lba : ℕ) (bytes : Bytes) (s' : d.State) : Type 0 where
    pub inside : (i : ℕ) → i < n → d.read s' (lba + i) ≡ some (chunk i bytes)
    pub outside : (other : ℕ) → (other < lba) ⊎ (lba + n ≤ other) → d.read s' other ≡ d.read s other
    pub attached : d.present s' ≡ d.present s

  -- One written sector, then a run that starts behind it.
  Wrote-suc :
      (n : ℕ) (s s' : d.State) (lba : ℕ) (bytes : Bytes)
      → (d.write s lba (take sector_size bytes)).0 ≡ true
      → Wrote (d.write s lba (take sector_size bytes)).1 n (lba + 1) (drop sector_size bytes) s'
      → Wrote s (suc n) lba bytes s'
  Wrote-suc n s s' lba bytes done w =
      let sector = take sector_size bytes in
      record {
        inside = at;
        outside =
            λ other o. ground (arith, w.outside other, laws.read-write s lba other sector done);
        attached = w.attached ∙ laws.present-write s lba sector;
      }
    where
      at : (i : ℕ) → i < suc n → d.read s' (lba + i) ≡ some (chunk i bytes)
      at zero lt = ground (
        arith,
        w.outside lba (inl (omega arith)),
        laws.read-write s lba lba (take sector_size bytes) done,
      )
      at (suc j) lt =
          let e : lba + 1 + j ≡ lba + suc j = omega arith in
          subst (λ k. d.read s' k ≡ some (chunk j (drop sector_size bytes))) e
            (w.inside j (omega arith))

  pub write_chunks-Wrote :
      (n : ℕ) (s : d.State) (lba : ℕ) (bytes : Bytes)
      → (write_chunks d n s lba bytes).0 ≡ true
      → Wrote s n lba bytes (write_chunks d n s lba bytes).1
  unfolding write_chunks
  write_chunks-Wrote zero s lba bytes h = record {
    inside = λ i lt. absurd (omega arith);
    outside = λ other o. refl;
    attached = refl;
  }
  write_chunks-Wrote (suc n) s lba bytes h =
      let sector = take sector_size bytes in
      let s1 = (d.write s lba sector).1 in
      let rest = write_chunks d n s1 (lba + 1) (drop sector_size bytes) in
      let b = (d.write s lba sector).0 in
      let done : b ≡ true = ground arith in
      let e : (if b then rest else (false, s1)) ≡ rest = ground arith in
      subst (λ z. Wrote s (suc n) lba bytes z.1) (sym e)
        (Wrote-suc n s rest.1 lba bytes done
          (write_chunks-Wrote n s1 (lba + 1) (drop sector_size bytes) (ground arith)))

  read_chunks_step :
      (n : ℕ) (s : d.State) (lba left : ℕ) (sector got tail : Bytes)
      → d.read s lba ≡ some sector
      → read_chunks d s (suc n) lba left got tail
        ≡ read_chunks d s n
            (lba + 1)
            (left - min left sector_size)
            (got ++ take (min left sector_size) sector)
            (drop (min left sector_size) tail)
  unfolding read_chunks
  read_chunks_step n s lba left sector got tail e = rw (e, read_chunks) refl

  -- Reading back `n` sectors that hold the chunks of `bytes`.
  pub read_chunks_lem :
      (n : ℕ) (s : d.State) (lba left : ℕ) (bytes got tail : Bytes)
      → ((i : ℕ) → i < n → d.read s (lba + i) ≡ some (chunk i bytes))
      → left ≤ n * sector_size
      → read_chunks d s n lba left got tail
        ≡ (LoadResult.success, got ++ (take left bytes ++ drop left tail))
  unfolding read_chunks
  read_chunks_lem zero s lba left bytes got tail h le = let e : left ≡ 0 = omega arith in rw e refl
  read_chunks_lem (suc n) s lba left bytes got tail h le =
      let k = min left sector_size in
      let e0 : lba + 0 ≡ lba = omega arith in
      let first : d.read s lba ≡ some (take sector_size bytes) =
        subst (λ z. d.read s z ≡ some (take sector_size bytes)) e0 (h 0 (omega arith)) in
      let later : (i : ℕ)
          → i < n
          → d.read s (lba + 1 + i) ≡ some (chunk i (drop sector_size bytes)) =
        λ i lt.
          let e : lba + suc i ≡ lba + 1 + i = omega arith in
          subst (λ z. d.read s z ≡ some (chunk i (drop sector_size bytes))) e
            (h (suc i) (omega arith)) in
      let ek : k + (left - k) ≡ left = omega arith in
      let go =
        read_chunks_lem n s (lba + 1) (left - k) (drop sector_size bytes)
          (got ++ take k (take sector_size bytes)) (drop k tail) later (omega arith) in
      read_chunks_step n s lba left (take sector_size bytes) got tail first
      ∙ go
      ∙ ap (λ z. (LoadResult.success, z))
          (append_assoc got (take k (take sector_size bytes)) _
            ∙ ap (λ z. got ++ z)
                (sym (
                    append_assoc (take k (take sector_size bytes))
                      (take (left - k) (drop sector_size bytes)) _)
                  ∙ ap₂ ◌++◌ (sym (take_split left sector_size bytes))
                      (drop-drop (left - k) k tail ∙ ap (λ z. drop z tail) ek)))
