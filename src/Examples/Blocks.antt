-- ===== src/Examples/Blocks.antt =====
-- A client of the memory allocator that takes memory twice from the first page and frees the first.
use rumpuser_baremetal.Base.{
  false, ◌-◌, ◌^◌, ◌≢◌, ◌<◌, Option, none, ℤ, pos, negsuc, ℕ, ◌+◌, ◌*◌, ◌%◌, ◌≤◌, ◌≡◌, refl, true,
  [], ◌∷◌, ◌⊎◌, arith, some,
}
use rumpuser_baremetal.Kernel.Page.{page_size, allocpg}
use rumpuser_baremetal.Libc.Mmap.{Mapped, MapsTo, mmap, mmap-MapsTo}
use rumpuser_baremetal.Memalloc.{
  room_of, memrealloc, Malloc, header, setup, memalloc, memfree, page_loop, bucket_of, alloc_bytes,
  align_up, minshift, bucket_loop, chain, morecore, place, take_block, from_bucket,
}
use rumpuser_baremetal.Memalloc.Blocks.Held.{are_clear, are_all_clear}
use rumpuser_baremetal.Memalloc.Blocks.Steps.{IsFresh, Reach, start, later, got}
use rumpuser_baremetal.Memalloc.Arena.{Arena}
use rumpuser_baremetal.Memalloc.Blocks.Run.{Reach-are_all_clear, Reach-memalloc, Reach-memfree}
use rumpuser_baremetal.Memalloc.Blocks.Move.{Reach-memrealloc}

-- 1 MB of memory from 0x200000 on, whose words are all 7.
abbrev fresh_malloc : Malloc
fresh_malloc = record {
  nextf = λ _. 0;
  pagesz = 0;
  pagebucket = 0;
  link = λ _. 7;
  magic = λ _. 7;
  index = λ _. 7;
  pages = record { membase = 0x200000; memsize = 0x100000; current = 0 };
}

fresh_malloc-IsFresh : IsFresh fresh_malloc
fresh_malloc-IsFresh = record {
  lists = λ b. refl;
  page = refl;
  sound = record { fits = omega arith; small = omega arith };
  whole = refl;
}

abbrev ready_malloc : Malloc
ready_malloc = record fresh_malloc { pagesz = 0x1000; pagebucket = 7 }

ready_malloc-Reach : Reach [] ready_malloc
unfolding setup page_loop
ready_malloc-Reach = start fresh_malloc-IsFresh refl

first_taken :
    (m : Malloc) × (memalloc 100 8 ready_malloc ≡ some (0x200008, m)) × (m.pages.current ≡ 1)
unfolding memalloc setup bucket_of alloc_bytes align_up bucket_loop from_bucket morecore allocpg
    chain take_block place
first_taken = (_, refl, refl)

one_held-Reach : Reach ((0x200008, 100) ∷ []) first_taken.0
one_held-Reach =
    later ready_malloc-Reach (
      got 100 3 (omega arith) (omega arith) (omega arith) (omega arith) first_taken.1 (omega arith))

second_taken :
    (m : Malloc) × (memalloc 60 64 first_taken.0 ≡ some (0x2000c0, m)) × (m.pages.current ≡ 1)
unfolding first_taken memalloc setup bucket_of alloc_bytes align_up bucket_loop from_bucket morecore
    allocpg chain take_block place
second_taken = (_, refl, refl)

two_held-Reach : Reach ((0x2000c0, 60) ∷ (0x200008, 100) ∷ []) second_taken.0
two_held-Reach = later one_held-Reach (
    got 60 6 (omega arith) (omega arith) (omega arith) (rw first_taken.2 (omega arith))
      second_taken.1 (omega arith))

Reach-are_all_clear_example : are_all_clear ((0x2000c0, 60) ∷ (0x200008, 100) ∷ []) ≡ true
Reach-are_all_clear_example =
    Reach-are_all_clear ((0x2000c0, 60) ∷ (0x200008, 100) ∷ []) second_taken.0 two_held-Reach

Reach-memalloc_example :
    (rv : ℕ) × (m' : Malloc) × (memalloc 3000 4 second_taken.0 ≡ some (rv, m'))
    × (((rv ≡ 0) × Reach ((0x2000c0, 60) ∷ (0x200008, 100) ∷ []) m')
        ⊎ ((rv % 4 ≡ 0)
            × (m'.pages.membase + header ≤ rv)
            × (rv + 3000 ≤ m'.pages.membase + m'.pages.current * page_size)
            × (are_clear rv 3000 ((0x2000c0, 60) ∷ (0x200008, 100) ∷ []) ≡ true)
            × Reach ((rv, 3000) ∷ (0x2000c0, 60) ∷ (0x200008, 100) ∷ []) m'))
Reach-memalloc_example =
    Reach-memalloc ((0x2000c0, 60) ∷ (0x200008, 100) ∷ []) second_taken.0 3000 2 two_held-Reach
      (omega arith) (omega arith) (omega arith) (rw second_taken.2 (omega arith))

Reach-memfree_example :
    (m' : Malloc) × (b : ℕ) × (x : ℕ) × (memfree 0x200008 second_taken.0 ≡ some m')
    × (m'.nextf b ≡ x)
    × (m'.link x ≡ second_taken.0.nextf b)
    × (x ≢ 0)
    × (b ≡ second_taken.0.index (0x200008 - header))
    × (x + second_taken.0.link (0x200008 - header) ≡ 0x200008)
    × (x + header ≤ 0x200008)
    × (0x200008 + 100 ≤ x + 2 ^ (b + minshift))
    × Reach ((0x2000c0, 60) ∷ []) m'
Reach-memfree_example =
    Reach-memfree ((0x2000c0, 60) ∷ []) [] 0x200008 100 second_taken.0 two_held-Reach

-- A read that fails with 5.
abbrev broken_pread : (fd : ℤ) (v len off : ℕ) → Malloc → ℤ × ℕ × Malloc
broken_pread fd v len off m = (negsuc 0, 5, m)

mmap-MapsTo_example :
    (r : Mapped) × (m' : Malloc) × (mmap 45 1 0x1000 broken_pread 5000 1 0 (pos 3) 0 second_taken.0
      ≡ some (r, m'))
    × MapsTo 5000 ((0x2000c0, 60) ∷ (0x200008, 100) ∷ []) r m'
mmap-MapsTo_example =
    mmap-MapsTo 45 1 0x1000 broken_pread (λ fd v len off held m r. r) 5000 1 0 (pos 3) 0
      ((0x2000c0, 60) ∷ (0x200008, 100) ∷ []) second_taken.0 two_held-Reach (omega arith)
      (rw second_taken.2 (omega arith))

Reach-memrealloc_example :
    (np : ℕ) × (copy : Option (ℕ × ℕ × ℕ)) × (m' : Malloc) × (memrealloc 0x200008 3000
        second_taken.0
      ≡ some (np, copy, m'))
    × (((np ≡ 0x200008) × (copy ≡ none) × Reach ((0x2000c0, 60) ∷ (0x200008, 3000) ∷ []) m')
        ⊎ ((np ≡ 0) × (copy ≡ none) × Reach ((0x2000c0, 60) ∷ (0x200008, 100) ∷ []) m')
        ⊎ ((np % 8 ≡ 0)
            × (copy ≡ some (np, 0x200008, room_of 0x200008 second_taken.0))
            × (room_of 0x200008 second_taken.0 < 3000)
            × (are_clear np 3000 ((0x2000c0, 60) ∷ (0x200008, 100) ∷ []) ≡ true)
            × Reach ((np, 3000) ∷ (0x2000c0, 60) ∷ []) m'))
Reach-memrealloc_example =
    Reach-memrealloc ((0x2000c0, 60) ∷ []) [] 0x200008 100 3000 second_taken.0 two_held-Reach
      (omega arith) (omega arith) (omega arith) (rw second_taken.2 (omega arith))

-- Memory of no bytes at a multiple of 64 ends its block, and `bmk_memrealloc` takes its room for 4
-- GB less 8.
zero_taken :
    (m : Malloc) × (memalloc 0 64 ready_malloc ≡ some (0x200040, m))
    × (room_of 0x200040 m ≡ 0xfffffff8)
unfolding memalloc setup bucket_of alloc_bytes align_up bucket_loop from_bucket morecore allocpg
    chain take_block place room_of
zero_taken = (_, refl, refl)

abbrev arena_example : Arena
arena_example = record {
  held = (0x2000c0, 60) ∷ (0x200008, 100) ∷ [];
  memory = second_taken.0;
  reached = two_held-Reach;
  static = λ p. false;
  low = λ p s. ground (arith, s);
}
