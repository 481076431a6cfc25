-- ===== src/Memalloc/Request.antt =====
-- `bmk_memalloc` as a whole, where the bucket's list has a block, and `bmk_memfree` behind it.
use rumpuser_baremetal.Base.{
  ℕ, ◌+◌, ◌-◌, ◌%◌, ◌^◌, ◌≤◌, ◌<◌, ◌≡◌, refl, ◌≢◌, arith, ◌∙◌, ap, false, ◌==◌, some, ltb,
}
use mathlib.Core.Path.{subst}
use native.Mathlib.Nat.{pow-le-pow_right}
use rumpuser_baremetal.Bits.{and_pred_of_power}
use rumpuser_baremetal.Memalloc.{
  Malloc, Search, minus, room_of, found, alloc_bytes, place, header, minshift, setup, from_bucket,
  take_block, memalloc, memfree, bucket_of,
}
use rumpuser_baremetal.Memalloc.Place.{place_lem}
use rumpuser_baremetal.Memalloc.Bucket.{IsSearched, bucket_of-IsSearched}
use rumpuser_baremetal.Memalloc.Free.{memfree-take_block}

-- The allocator after its first call, with a block of the right size at the head of the list that a
-- request of `nbytes` at an alignment of `2 ^ k` is served from.
pub record IsServed (nbytes k b : ℕ) (m : Malloc) : Type 0 where
  pub page : m.pagesz ≡ 0x1000
  pub pagebucket : m.pagebucket ≡ 7
  pub aligned : (2 ≤ k) × (k < 32)
  pub small : nbytes + 2 ^ k + 8 < 2 ^ 32
  pub bucket : bucket_of (alloc_bytes nbytes (2 ^ k)) m ≡ found b
  pub block : m.nextf b ≢ 0
  pub eight : m.nextf b % 8 ≡ 0
  pub top : m.nextf b + 2 ^ (b + 5) + 8 ≤ 2 ^ 32

pub four_le : (k : ℕ) → 2 ≤ k → ltb (2 ^ k) 4 ≡ false
four_le k h = ground (arith, pow-le-pow_right {n = 2} (omega arith) {i = 2} {j = k} h)

pub setup_done : (m : Malloc) → m.pagesz ≡ 0x1000 → setup m ≡ some m
unfolding setup
setup_done m page = rw page refl

from_bucket_block :
    (b align : ℕ) (m : Malloc) → m.nextf b ≢ 0 → from_bucket b align m ≡ take_block b align m
unfolding from_bucket
from_bucket_block b align m h =
    let there : (m.nextf b == 0) ≡ false = ground (arith, h) in rw (there, there) refl

memalloc-take_block :
    (nbytes k b : ℕ) (m : Malloc)
    → IsServed nbytes k b m
    → memalloc nbytes (2 ^ k) m ≡ some (take_block b (2 ^ k) m)
unfolding memalloc
memalloc-take_block nbytes k b m s =
    rw
      (
        memalloc,
        setup_done m s.page,
        four_le k s.aligned.0,
        and_pred_of_power k,
        s.bucket,
        four_le k s.aligned.0,
      )
      (ap some (from_bucket_block b (2 ^ k) m s.block))

fits :
    (need b : ℕ) (r : Search) → r ≡ found b → IsSearched 0 need r → (b ≤ 26) × (need ≤ 2 ^ (b + 5))
unfolding IsSearched
fits need b r e h = let h' = subst (IsSearched 0 need) e h in (h'.1, h'.2)

size_fits :
    (nbytes k b : ℕ) (m : Malloc)
    → IsServed nbytes k b m
    → (b ≤ 26) × (alloc_bytes nbytes (2 ^ k) ≤ 2 ^ (b + 5))
size_fits nbytes k b m s =
    let need = alloc_bytes nbytes (2 ^ k) in
    fits need b (bucket_of need m) s.bucket (bucket_of-IsSearched need m s.page s.pagebucket)

-- A request that is served from a block at the head of a list (`IsServed`) gets memory at its
-- alignment, with the header before it and all of its bytes in the block. The block leaves its list,
-- and the pages do not change.
pub memalloc_lem :
    (nbytes k b : ℕ) (m : Malloc)
    → IsServed nbytes k b m
    → (rv : ℕ) × (m' : Malloc) × (memalloc nbytes (2 ^ k) m ≡ some (rv, m'))
      × (rv % 2 ^ k ≡ 0)
      × (m.nextf b + header ≤ rv)
      × (rv + nbytes ≤ m.nextf b + 2 ^ (b + minshift))
      × (m'.nextf b ≡ m.link (m.nextf b))
      × (m'.pages ≡ m.pages)
unfolding take_block
memalloc_lem nbytes k b m s =
    let (small, enough) = size_fits nbytes k b m s in
    let (aligned, low, high) =
      place_lem k (m.nextf b) nbytes (2 ^ (b + 5)) s.aligned.0 s.aligned.1 s.eight s.top s.small
        enough in
    (
      place (m.nextf b) (2 ^ k),
      (take_block b (2 ^ k) m).1,
      memalloc-take_block nbytes k b m s,
      aligned,
      low,
      high,
      ground arith,
      refl,
    )

-- Memory from a request that is served from a block at the head of a list (`IsServed`) can be freed;
-- every list then has its head again, the block its link, and the pages do not change.
pub memfree-memalloc :
    (nbytes k b : ℕ) (m : Malloc)
    → IsServed nbytes k b m
    → (rv : ℕ) × (m₁ : Malloc) × (m₂ : Malloc) × (memalloc nbytes (2 ^ k) m ≡ some (rv, m₁))
      × (memfree rv m₁ ≡ some m₂)
      × ((c : ℕ) → m₂.nextf c ≡ m.nextf c)
      × (m₂.link (m.nextf b) ≡ m.link (m.nextf b))
      × (m₂.pages ≡ m.pages)
unfolding take_block
memfree-memalloc nbytes k b m s =
    let (small, enough) = size_fits nbytes k b m s in
    let (aligned, low, high) =
      place_lem k (m.nextf b) nbytes (2 ^ (b + 5)) s.aligned.0 s.aligned.1 s.eight s.top s.small
        enough in
    let (m₂, freed, lists, links, pages) =
      memfree-take_block b (2 ^ k) m (omega (arith, small)) low (omega (arith, high, s.top)) in
    (
      place (m.nextf b) (2 ^ k),
      (take_block b (2 ^ k) m).1,
      m₂,
      memalloc-take_block nbytes k b m s,
      freed,
      lists,
      links (m.nextf b) ∙ ground arith,
      pages,
    )

-- For a request of 8 bytes or more that is served from a block at the head of a list (`IsServed`),
-- what `bmk_memrealloc` takes for the room of the memory ends 8 bytes before the block does, and is at
-- most 8 bytes less than the request.
pub room_of-memalloc :
    (nbytes k b : ℕ) (m : Malloc)
    → IsServed nbytes k b m
    → 8 ≤ nbytes
    → (rv : ℕ) × (m' : Malloc) × (memalloc nbytes (2 ^ k) m ≡ some (rv, m'))
      × (rv + (room_of rv m' + header) ≡ m.nextf b + 2 ^ (b + minshift))
      × (nbytes ≤ room_of rv m' + header)
unfolding take_block room_of
room_of-memalloc nbytes k b m s large =
    let (small, enough) = size_fits nbytes k b m s in
    let (aligned, low, high) =
      place_lem k (m.nextf b) nbytes (2 ^ (b + 5)) s.aligned.0 s.aligned.1 s.eight s.top s.small
        enough in
    let op = m.nextf b in
    let rv = place op (2 ^ k) in
    let m' = (take_block b (2 ^ k) m).1 in
    let top = pow-le-pow_right {n = 2} (omega arith) {i = b + 5} {j = 31} (omega arith) in
    let index : m'.index (minus rv header) ≡ b = ground arith in
    let link : m'.link (minus rv header) ≡ rv - op = ground (arith, low, high, s.top) in
    let room : room_of rv m' ≡ 2 ^ (b + 5) - (rv - op + 8) =
      rw (room_of, index, link) (omega (arith, low, high, s.top, top, large)) in
    (
      rv,
      m',
      memalloc-take_block nbytes k b m s,
      omega (arith, room, low, high, large),
      omega (arith, room, low, high, large),
    )
