-- ===== src/Memalloc/Free.antt =====
-- `bmk_memfree` against the block that `bmk_memalloc` took, and sizes near 4 GB.
use rumpuser_baremetal.Base.{
  ℕ, ◌+◌, ◌%◌, ◌^◌, ◌≤◌, ◌<◌, ◌≡◌, refl, ◌≢◌, arith, ◌∙◌, ap, true, false, ◌==◌, some,
  if◌then◌else◌, ltb, leb, not, ◌&&◌,
}
use rumpuser_baremetal.Memalloc.{
  Malloc, in_use, found, alloc_bytes, align_up, place, header, nbuckets, take_block, memfree,
  bucket_of, bucket_loop, update, minus,
}
use rumpuser_baremetal.Memalloc.Place.{align_up-eq}

pub memfree-eq :
    (cp op size : ℕ) (m : Malloc)
    → cp ≢ 0
    → m.magic (minus cp header) ≡ in_use
    → m.index (minus cp header) ≡ size
    → size < nbuckets
    → minus cp (m.link (minus cp header)) ≡ op
    → memfree cp m
      ≡ some (record m { link = update op (m.nextf size) m.link; nextf = update size op m.nextf })
unfolding memfree
memfree-eq cp op size m h magic index small pad =
    let there : (cp == 0) ≡ false = ground (arith, h) in
    let inside : ltb size nbuckets ≡ true = ground arith in
    rw (there, magic, index, pad, inside) refl

update_same : (a v : ℕ) (f : ℕ → ℕ) → update a v f a ≡ v
update_same a v f = ground arith

-- The memory that comes from a block is freed into the list that the block was taken from: every list
-- has its head again, and the block its link. Of the other links only the word before the memory has
-- changed; the header that stood there is left as it was in use.
pub memfree-take_block :
    (bucket align : ℕ) (m : Malloc)
    → bucket < nbuckets
    → m.nextf bucket + header ≤ place (m.nextf bucket) align
    → place (m.nextf bucket) align < 2 ^ 32
    → let op = m.nextf bucket in
      let (rv, m₁) = take_block bucket align m in
      (m₂ : Malloc) × (memfree rv m₁ ≡ some m₂)
      × ((b : ℕ) → m₂.nextf b ≡ m.nextf b)
      × ((a : ℕ)
          → m₂.link a ≡ (if a == minus rv header && not (a == op) then minus rv op else m.link a))
      × (m₂.pages ≡ m.pages)
unfolding take_block memfree
memfree-take_block bucket align m small low high =
    let op = m.nextf bucket in
    let rv = place op align in
    let m₁ = (take_block bucket align m).1 in
    let m₂ : Malloc = record m₁ {
      link = update op (m₁.nextf bucket) m₁.link;
      nextf = update bucket op m₁.nextf;
    } in
    let pad : minus rv (update (minus rv header) (minus rv op) m.link (minus rv header)) ≡ op =
      ap (minus rv) (update_same (minus rv header) (minus rv op) m.link)
      ∙ omega (arith, low, high) in
    let old : update bucket (m.link op) m.nextf bucket ≡ m.link op =
      update_same bucket (m.link op) m.nextf in
    let freed =
      memfree-eq rv op bucket m₁ (omega (arith, low)) (update_same (minus rv header) in_use m.magic)
        (update_same (minus rv header) bucket m.index) small pad in
    (m₂, freed, λ b. ground arith, λ a. ground (arith, old), refl)

-- Once the page size is set, a size below 4 GB that together with the header reaches 4 GB gets the
-- smallest bucket, whose blocks have 32 bytes.
pub bucket_of-wraps :
    (nbytes : ℕ) (m : Malloc)
    → nbytes < 2 ^ 32
    → 2 ^ 32 ≤ nbytes + header
    → m.pagesz ≡ 0x1000
    → bucket_of (alloc_bytes nbytes 8) m ≡ found 0
unfolding bucket_of alloc_bytes bucket_loop
bucket_of-wraps nbytes m h over page =
    let gap : align_up header 8 ≡ 8 = align_up-eq 8 3 (omega arith) (omega arith) in
    let small : leb ((nbytes + 8) % 2 ^ 32) 0x1000 ≡ true = ground arith in
    let fits : ltb 32 ((nbytes + 8) % 2 ^ 32) ≡ false = ground arith in
    rw (gap, page, small) (rw fits refl)

-- For memory from a block of a bucket in range, where the header stands apart from the block's start,
-- a second free goes through: the block is then at the head of its free list and its own successor
-- there.
pub memfree_twice :
    (bucket align : ℕ) (m : Malloc)
    → bucket < nbuckets
    → m.nextf bucket + header < place (m.nextf bucket) align
    → place (m.nextf bucket) align < 2 ^ 32
    → let op = m.nextf bucket in
      let (rv, m₁) = take_block bucket align m in
      (m₂ : Malloc) × (m₃ : Malloc) × (memfree rv m₁ ≡ some m₂)
      × (memfree rv m₂ ≡ some m₃)
      × (m₃.nextf bucket ≡ op)
      × (m₃.link op ≡ op)
unfolding take_block
memfree_twice bucket align m small low high =
    let op = m.nextf bucket in
    let rv = place op align in
    let m₁ = (take_block bucket align m).1 in
    let m₂ : Malloc = record m₁ {
      link = update op (m₁.nextf bucket) m₁.link;
      nextf = update bucket op m₁.nextf;
    } in
    let m₃ : Malloc = record m₂ {
      link = update op (m₂.nextf bucket) m₂.link;
      nextf = update bucket op m₂.nextf;
    } in
    let kept : update (minus rv header) (minus rv op) m.link (minus rv header) ≡ minus rv op =
      update_same (minus rv header) (minus rv op) m.link in
    let kept₂ : m₂.link (minus rv header) ≡ minus rv op = ground (arith, kept, low, high) in
    let magic = update_same (minus rv header) in_use m.magic in
    let index = update_same (minus rv header) bucket m.index in
    let there : rv ≢ 0 = omega (arith, low) in
    let freed =
      memfree-eq rv op bucket m₁ there magic index small
        (ap (minus rv) kept ∙ omega (arith, low, high)) in
    let again =
      memfree-eq rv op bucket m₂ there magic index small
        (ap (minus rv) kept₂ ∙ omega (arith, low, high)) in
    let head = update_same bucket op m₁.nextf in
    (
      m₂,
      m₃,
      freed,
      again,
      update_same bucket op m₂.nextf,
      update_same op (m₂.nextf bucket) m₂.link ∙ head,
    )
