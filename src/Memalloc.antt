-- ===== src/Memalloc.antt =====
-- memalloc.c, as it is built for the kernel (neither RCHECK, MSTATS nor MEMALLOC_TESTING).
-- Addresses and sizes are 32 bits; a header is 8 bytes.
pub mod Bucket
pub mod Place
pub mod Free
pub mod Request
pub mod Blocks
pub mod Arena
use rumpuser_baremetal.Base.{
  ℕ, zero, suc, ◌+◌, ◌-◌, ◌*◌, ◌/◌, ◌%◌, ◌^◌, ◌≡◌, Bool, true, false, not, Option, none, some, ◌==◌,
  ltb, leb, if◌then◌else◌, ◌>>=◌, bit_and,
}
use rumpuser_baremetal.Kernel.Page.{Pages, allocpg, page_size}

abbrev pub minshift : ℕ
minshift = 5

abbrev pub nbuckets : ℕ
nbuckets = 30

abbrev pub header : ℕ
header = 8

abbrev pub in_use : ℕ
in_use = 0xef

-- The statics, and the memory as far as `union overhead` writes it, by the header's address: `link` is
-- the word that is `ov_next` in a free block and `ov_alignpad` in one in use.
pub record Malloc : Type 0 where
  pub nextf : ℕ → ℕ
  pub pagesz : ℕ
  pub pagebucket : ℕ
  pub link : ℕ → ℕ
  pub magic : ℕ → ℕ
  pub index : ℕ → ℕ
  pub pages : Pages

-- A difference of 32 bits.
abbrev pub minus : ℕ → ℕ → ℕ
minus a b = (a + 2 ^ 32 - b) % 2 ^ 32

abbrev pub update : ℕ → ℕ → (ℕ → ℕ) → ℕ → ℕ
update a v f x = if x == a then v else f x

-- The loop that finds the page's bucket; `none` is its fuel.
unfoldable pub page_loop : ℕ → (pagesz amt bucket : ℕ) → Option ℕ
page_loop zero pagesz amt bucket = none
page_loop (suc fuel) pagesz amt bucket =
    let rest = page_loop fuel pagesz (amt * 2 % 2 ^ 32) (bucket + 1) in
    if ltb amt pagesz then rest else some bucket

-- The first call sets the page size and its bucket.
unfoldable pub setup : Malloc → Option Malloc
setup m = if not (m.pagesz == 0) then some m else elim (page_loop 28 page_size (2 ^ minshift) 0) [
  | none ↦ none
  | some b ↦ some (record m { pagesz = page_size; pagebucket = b })
]

-- `(x + (align - 1)) & ~(align - 1)`
unfoldable pub align_up : (x align : ℕ) → ℕ
align_up x align = bit_and ((x + (align - 1)) % 2 ^ 32) (2 ^ 32 - 1 - (align - 1))

unfoldable pub alloc_bytes : (nbytes align : ℕ) → ℕ
alloc_bytes nbytes align = (nbytes + align_up header align) % 2 ^ 32

-- How the search of a bucket ends: with one, with a size that no bucket has, or out of fuel.
pub data Search : Type 0 where
  found : ℕ → Search
  too_big out_of_fuel : Search

unfoldable pub bucket_loop : ℕ → (allocbytes amt bucket : ℕ) → Search
bucket_loop zero allocbytes amt bucket = out_of_fuel
bucket_loop (suc fuel) allocbytes amt bucket =
    let amt' = amt * 2 % 2 ^ 32 in
    let rest = bucket_loop fuel allocbytes amt' (bucket + 1) in
    if ltb amt allocbytes then (if amt' == 0 then too_big else rest) else found bucket

-- The shift that takes the smallest size to 0 is the 27th, so 28 rounds are enough.
unfoldable pub bucket_of : (allocbytes : ℕ) → Malloc → Search
bucket_of allocbytes m =
    if leb allocbytes m.pagesz
    then bucket_loop 28 allocbytes (2 ^ minshift) 0
    else bucket_loop 28 allocbytes m.pagesz m.pagebucket

-- The chain that `morecore` writes: `nblks` further blocks of `sz` behind `op`, the last one's link
-- NULL.
unfoldable pub chain : (nblks op sz : ℕ) → (ℕ → ℕ) → ℕ → ℕ
chain zero op sz link = update op 0 link
chain (suc nblks) op sz link =
    chain nblks ((op + sz) % 2 ^ 32) sz (update op ((op + sz) % 2 ^ 32) link)

unfoldable pub morecore : ℕ → Malloc → Malloc
morecore bucket m =
    let small = ltb bucket m.pagebucket in
    let amt = if small then 0 else bucket - m.pagebucket in
    let nblks = if small then m.pagesz / 2 ^ (bucket + minshift) else 1 in
    let sz = if small then m.pagesz / nblks else 0 in
    let (v, pages) = allocpg (2 ^ amt) m.pages in
    elim v [
      | none ↦ record m { pages = pages }
      | some op ↦ if op == 0 then record m { pages = pages } else record m {
        pages = pages;
        nextf = update bucket op m.nextf;
        link = chain (nblks - 1) op sz m.link;
      }
    ]

-- `align op before returned memory`
unfoldable pub place : (op align : ℕ) → ℕ
place op align = align_up (op + header) align

-- The block at the head of the list is taken off it, and the header goes before the returned memory.
unfoldable pub take_block : (bucket align : ℕ) → Malloc → ℕ × Malloc
take_block bucket align m =
    let op = m.nextf bucket in
    let rv = place op align in
    (
      rv,
      record m {
        nextf = update bucket (m.link op) m.nextf;
        link = update (minus rv header) (minus rv op) m.link;
        magic = update (minus rv header) in_use m.magic;
        index = update (minus rv header) bucket m.index;
      },
    )

unfoldable pub from_bucket : (bucket align : ℕ) → Malloc → ℕ × Malloc
from_bucket bucket align m =
    let m' = if m.nextf bucket == 0 then morecore bucket m else m in
    if m'.nextf bucket == 0 then (0, m') else take_block bucket align m'

-- `bmk_memalloc`; 0 is NULL, `none` the fuel of the loops.
unfoldable pub memalloc : (nbytes align : ℕ) → Malloc → Option (ℕ × Malloc)
memalloc nbytes align m₀ = elim (setup m₀) [
  | none ↦ none
  | some m ↦
      let align' = if ltb align 4 then 4 else align in
      if not (bit_and align (align - 1) == 0)
      then some (0, m)
      else elim (bucket_of (alloc_bytes nbytes align') m) [
        | out_of_fuel ↦ none
        | too_big ↦ some (0, m)
        | found bucket ↦ some (from_bucket bucket align' m)
      ]
]

-- `bmk_memfree`; `none` is a header whose bucket is out of range, for which `ASSERT` panics.
unfoldable pub memfree : ℕ → Malloc → Option Malloc
memfree cp m =
    let op = minus cp header in
    let origp = minus cp (m.link op) in
    let size = m.index op in
    if cp == 0
    then some m
    else if not (m.magic op == in_use)
    then some m
    else if ltb size nbuckets
    then some
        (record m { link = update origp (m.nextf size) m.link; nextf = update size origp m.nextf })
    else none

-- The bytes of a block behind the header that stands before `cp`.
unfoldable pub room_of : ℕ → Malloc → ℕ
room_of cp m =
    let op = minus cp header in
    minus (2 ^ (m.index op + minshift) % 2 ^ 32) ((m.link op + header) % 2 ^ 32)

-- `bmk_memrealloc`: the memory, the copy that was made, as destination, source and length, and the
-- state.
unfoldable pub memrealloc : (cp nbytes : ℕ) → Malloc → Option (ℕ × Option (ℕ × ℕ × ℕ) × Malloc)
memrealloc cp nbytes m =
    if cp == 0
    then (memalloc nbytes 8 m >>= λ (rv, m'). some (rv, none, m'))
    else if nbytes == 0
    then (memfree cp m >>= λ m'. some (0, none, m'))
    else if leb nbytes (room_of cp m)
    then some (cp, none, m)
    else (memalloc nbytes 8 m >>= λ (np, m').
        if np == 0
        then some (0, none, m')
        else (memfree cp m' >>= λ m''. some (np, some (np, cp, room_of cp m), m'')))
