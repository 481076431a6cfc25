-- ===== src/Libc/Mmap.antt =====
-- `mmap` and its companions (libc_emul.c), over the allocator. The numbers of the C library's
-- headers and the read from a file are parameters.
use rumpuser_baremetal.Base.{
  ℕ, ◌+◌, ◌%◌, ◌^◌, ◌<◌, ◌≡◌, refl, ◌≢◌, Bool, true, false, not, ◌&&◌, inl, inr, Option, none, some,
  List, [], ◌∷◌, ◌==◌, if◌then◌else◌, ◌>>=◌, bit_and, ℤ, pos, negsuc, arith, Bool-cases,
}
use rumpuser_baremetal.Memalloc.{Malloc, memalloc}
use rumpuser_baremetal.Memalloc.Blocks.Held.{are_clear}
use rumpuser_baremetal.Memalloc.Blocks.Steps.{Reach}
use rumpuser_baremetal.Memalloc.Blocks.Run.{Reach-memalloc, Reach-memfree}
use rumpuser_baremetal.Libc.{posix_memalign, free}

-- The address, or MAP_FAILED with the number in `errno`.
pub data Mapped : Type 0 where
  mapped : ℕ → Mapped
  map_failed : (errno : ℕ) → Mapped

abbrev pub is_failed : ℤ → Bool
is_failed (pos n) = false
is_failed (negsuc n) = n == 0

-- Where the allocator's clients got to: what is held by them and what `mmap` leaves.
abbrev pub MapsTo : (len : ℕ) (held : List (ℕ × ℕ)) → Mapped → Malloc → Type 0
MapsTo len held (mapped v) m' =
    (v % 0x1000 ≡ 0) × (are_clear v len held ≡ true) × Reach ((v, len) ∷ held) m'
MapsTo len held (map_failed errno) m' = Reach held m'

-- `pread fd v len off` is the result of the read and the `errno` that it leaves; it may allocate and
-- free.
module _ (enotsup prot_read map_anon : ℕ)
    (pread : (fd : ℤ) (v len off : ℕ) → Malloc → ℤ × ℕ × Malloc) where
  -- Behind the allocation of `v`.
  unfoldable pub fill : (len flags : ℕ) (fd : ℤ) (off v : ℕ) → Malloc → Option (Mapped × Malloc)
  unfolding free
  fill len flags fd off v m =
      if not (bit_and flags map_anon == 0)
      then some (mapped v, m)
      else (let (nn, errno, m₁) = pread fd v len off m in
          if is_failed nn
          then (free v m₁ >>= λ m'. some (map_failed errno, m'))
          else some (mapped v, m₁))

  unfoldable pub mmap : (len prot flags : ℕ) (fd : ℤ) (off : ℕ) → Malloc → Option (Mapped × Malloc)
  unfolding posix_memalign fill
  mmap len prot flags fd off m =
      if not (is_failed fd) && not (prot == prot_read)
      then some (map_failed enotsup, m)
      else (posix_memalign len 0x1000 m >>= λ (error, rv, m₁). elim rv [
        | none ↦ some (map_failed error, m₁)
        | some v ↦ fill len flags fd off v m₁
      ])

unfoldable pub munmap : (addr len : ℕ) → Malloc → Option Malloc
unfolding free
munmap addr len m = free addr m

module _ (enotsup prot_read map_anon : ℕ)
    (pread : (fd : ℤ) (v len off : ℕ) → Malloc → ℤ × ℕ × Malloc)
    (pread-Reach : (fd : ℤ) (v len off : ℕ) (held : List (ℕ × ℕ)) (m : Malloc)
      → Reach held m
      → Reach held (pread fd v len off m).2) where
  -- Behind the allocation: memory was got, and the read may fail.
  got-MapsTo :
      (v len flags : ℕ) (fd : ℤ) (off : ℕ) (held : List (ℕ × ℕ)) (m₁ : Malloc)
      → v % 0x1000 ≡ 0
      → are_clear v len held ≡ true
      → Reach ((v, len) ∷ held) m₁
      → (r : Mapped) × (m' : Malloc) × (fill enotsup prot_read map_anon pread len flags fd off v m₁
          ≡ some (r, m'))
        × MapsTo len held r m'
  unfolding fill free
  got-MapsTo v len flags fd off held m₁ aligned clear r =
      elim (Bool-cases (bit_and flags map_anon == 0)) [
        | inr anon ↦ (mapped v, m₁, rw anon refl, (aligned, clear, r))
        | inl file ↦
            let (nn, errno, m₃) = pread fd v len off m₁ in
            let r₁ = pread-Reach fd v len off ((v, len) ∷ held) m₁ r in
            elim (Bool-cases (is_failed nn)) [
              | inr read ↦ (mapped v, m₃, rw (file, read) refl, (aligned, clear, r₁))
              | inl broken ↦
                  let (m₂, _, _, e, _, _, _, _, _, _, _, r') = Reach-memfree [] held v len m₃ r₁ in
                  (map_failed errno, m₂, rw (file, broken, e) refl, r')
            ]
      ]

  -- Where a read from a file gives back what memory it takes: in every state that the allocator's
  -- clients reach, for a length that does not wrap and with
  -- fewer than 2 GB of pages handed out: `mmap` comes back. Either it returns memory that is
  -- aligned to a page and clear of all that is held, or it fails, and then what is held is what was
  -- held before: memory for a file that cannot be read is given back.
  pub mmap-MapsTo :
      (len prot flags : ℕ) (fd : ℤ) (off : ℕ) (held : List (ℕ × ℕ)) (m : Malloc)
      → Reach held m
      → len + 2 ^ 12 + 8 < 2 ^ 32
      → m.pages.current < 2 ^ 19
      → (r : Mapped) × (m' : Malloc) × (mmap enotsup prot_read map_anon pread len prot flags fd off
            m
          ≡ some (r, m'))
        × MapsTo len held r m'
  unfolding mmap posix_memalign
  mmap-MapsTo len prot flags fd off held m r fits few =
      elim (Bool-cases (not (is_failed fd) && not (prot == prot_read))) [
        | inl unsupported ↦ (map_failed enotsup, m, rw unsupported refl, r)
        | inr supported ↦
            let (v, m₁, e, answer) =
              Reach-memalloc held m len 12 r (omega arith) (omega arith) fits few in
            let e' : memalloc len 0x1000 m ≡ some (v, m₁) = e in
            elim answer [
              | inl (null, r') ↦
                  let none_got : (v == 0) ≡ true = ground (arith, null) in
                  (map_failed 10, m₁, rw (supported, e', none_got) refl, r')
              | inr (aligned, low, high, clear, r') ↦
                  let some_got : (v == 0) ≡ false = omega_not_zero v (omega (arith, low)) in
                  let (res, m', e'', maps) =
                    got-MapsTo v len flags fd off held m₁ aligned clear r' in
                  (res, m', rw (supported, e', some_got) e'', maps)
            ]
      ]
    where
      omega_not_zero : (v : ℕ) → v ≢ 0 → (v == 0) ≡ false
      omega_not_zero v n = ground (arith, n)
