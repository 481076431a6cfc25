-- ===== src/Examples/Memory.antt =====
-- The allocator's theorems, and those on pages and the memory map, at concrete states.
use rumpuser_baremetal.Base.{◌≢◌, ℕ, ◌+◌, ◌≤◌, ◌≡◌, refl, some, [], ◌∷◌, ◌==◌, if◌then◌else◌, arith}
use rumpuser_baremetal.Kernel.Page.{
  Pages, allocpg, IsSound, allocpg_granted, granted, granted-Follow, Follow,
}
use rumpuser_baremetal.Kernel.Memmap.{Entry}
use rumpuser_baremetal.Memalloc.{
  Malloc, found as found_bucket, alloc_bytes, align_up, take_block, place, memalloc, memfree,
  bucket_of, bucket_loop,
}
use rumpuser_baremetal.Base.{◌⊎◌, false, []}
use rumpuser_baremetal.Memalloc.{room_of}
use rumpuser_baremetal.Memalloc.Request.{room_of-memalloc}
use rumpuser_baremetal.Machine.{Machine, fillgate, fillsegment, pic2_data, intr_init}
use rumpuser_baremetal.Machine.Masks.{IsOpened, intr_init_lem}
use rumpuser_baremetal.Memalloc.Bucket.{IsSearched, bucket_of-IsSearched}
use rumpuser_baremetal.Memalloc.Request.{IsServed}
use rumpuser_baremetal.Memalloc.Free.{memfree_twice}

-- 16 MB of memory behind the image, of which 5 pages are taken.
abbrev pages_example : Pages
pages_example = record { membase = 0x120000; memsize = 0x1000000; current = 5 }

pages_example-IsSound : IsSound pages_example
pages_example-IsSound = record { fits = omega arith; small = omega arith }

allocpg_granted_example :
    IsSound (allocpg 2 pages_example).1
    × ((allocpg 2 pages_example).1.current ≡ 7)
    × ((allocpg 2 pages_example).0 ≡ some 0x125000)
allocpg_granted_example = allocpg_granted 2 pages_example pages_example-IsSound (omega arith)

granted-Follow_example : Follow 0x125000 0x1120000 (granted (1 ∷ 0x2000 ∷ 3 ∷ []) pages_example)
granted-Follow_example =
    granted-Follow (1 ∷ 0x2000 ∷ 3 ∷ []) pages_example pages_example-IsSound (omega arith)

-- A map of two entries: 640 KB from 0 on, and 16 MB from 1 MB on.
abbrev pub low_memory : Entry
low_memory = record { size = 20; addr = 0; len = 0xa0000; kind = 1 }

abbrev pub high_memory : Entry
high_memory = record { size = 20; addr = 0x100000; len = 0x1000000; kind = 1 }

abbrev pub map_example : ℕ → Entry
map_example off = if off == 24 then high_memory else low_memory

abbrev ten : ℕ
ten = 10

abbrev eleven : ℕ
eleven = 11

-- Bucket 1, of 64 bytes, has the blocks 0x200000 and 0x200040.
abbrev malloc_example : Malloc
malloc_example = record {
  nextf = λ b. if b == 1 then 0x200000 else 0;
  pagesz = 0x1000;
  pagebucket = 7;
  link = λ a. if a == 0x200000 then 0x200040 else 0;
  magic = λ _. 0;
  index = λ _. 0;
  pages = pages_example;
}

bucket_runs : bucket_of (alloc_bytes 40 16) malloc_example ≡ found_bucket 1
unfolding bucket_of alloc_bytes align_up bucket_loop
bucket_runs = refl

place_runs : place 0x200000 16 ≡ 0x200010
unfolding place align_up
place_runs = refl

malloc_example-IsServed : IsServed 40 4 1 malloc_example
malloc_example-IsServed = record {
  page = refl;
  pagebucket = refl;
  aligned = (omega arith, omega arith);
  small = omega arith;
  bucket = bucket_runs;
  block = omega arith;
  eight = refl;
  top = omega arith;
}

bucket_of-IsSearched_example : IsSearched 0 5000 (bucket_of 5000 malloc_example)
bucket_of-IsSearched_example = bucket_of-IsSearched 5000 malloc_example refl refl

memfree_twice_example :
    let (rv, m₁) = take_block 1 16 malloc_example in
    (m₂ : Malloc) × (m₃ : Malloc) × (memfree rv m₁ ≡ some m₂)
    × (memfree rv m₂ ≡ some m₃)
    × (m₃.nextf 1 ≡ 0x200000)
    × (m₃.link 0x200000 ≡ 0x200000)
memfree_twice_example =
    memfree_twice 1 16 malloc_example (omega arith) (omega (arith, place_runs))
      (omega (arith, place_runs))

full_runs : bucket_of (alloc_bytes 56 8) malloc_example ≡ found_bucket 1
unfolding bucket_of alloc_bytes align_up bucket_loop
full_runs = refl

-- 56 bytes and the header fill a block of 64 bytes; `bmk_memrealloc` would copy 48 of them.
full_block-IsServed : IsServed 56 3 1 malloc_example
full_block-IsServed = record {
  page = refl;
  pagebucket = refl;
  aligned = (omega arith, omega arith);
  small = omega arith;
  bucket = full_runs;
  block = omega arith;
  eight = refl;
  top = omega arith;
}

room_of-memalloc_example :
    (rv : ℕ) × (m' : Malloc) × (memalloc 56 8 malloc_example ≡ some (rv, m'))
    × (rv + (room_of rv m' + 8) ≡ 0x200040)
    × (56 ≤ room_of rv m' + 8)
room_of-memalloc_example = room_of-memalloc 56 3 1 malloc_example full_block-IsServed (omega arith)

abbrev machine_example : Machine
machine_example = record {
  gdt = λ _. fillsegment 0;
  idt = λ _. fillgate 0;
  lgdt = (0, 0);
  lidt = (0, 0);
  outs = (pic2_data, 0xfb) ∷ [];
  spldepth = 1;
  enabled = false;
}

intr_init_lem_example :
    ((11 ≡ ten)
      × ((intr_init 0x5000 0x6000 11 machine_example).0 ≡ 0)
      × IsOpened 11 0x5000 (intr_init 0x5000 0x6000 11 machine_example).1)
    ⊎ (((11 ≡ eleven)
          × ((intr_init 0x5000 0x6000 11 machine_example).0 ≡ 0)
          × IsOpened 11 0x6000 (intr_init 0x5000 0x6000 11 machine_example).1)
        ⊎ ((11 ≢ ten)
            × (11 ≢ eleven)
            × (intr_init 0x5000 0x6000 11 machine_example ≡ (3, machine_example))))
intr_init_lem_example = intr_init_lem 0x5000 0x6000 11 machine_example
