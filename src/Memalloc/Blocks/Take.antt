-- ===== src/Memalloc/Blocks/Take.antt =====
-- Taking a block off its list keeps the blocks well formed.
use rumpuser_baremetal.Base.{
  ℕ, ◌+◌, ◌-◌, ◌%◌, ◌^◌, ◌≤◌, ◌<◌, ◌≡◌, refl, ◌≢◌, true, false, not, ◌&&◌, ◌||◌, List, ◌∷◌, ◌==◌,
  has, Distinct, arith, if◌then◌else◌, Bool-cases, inl, inr,
}
use rumpuser_baremetal.Memalloc.{
  Malloc, minshift, minus, header, in_use, update, take_block, place, alloc_bytes,
}
use rumpuser_baremetal.Memalloc.Place.{place_lem}
use rumpuser_baremetal.Memalloc.Blocks.{
  Blocks, ends, is_used, Chain, has_header, IsWf, Chain-update, inner,
}

-- Block `x` of bucket `b` is in use, `rv` being its memory, and `xs` are free behind it.
unfoldable pub taken : (b x rv : ℕ) (xs : List ℕ) → Blocks → Blocks
taken b x rv xs g = record g {
  free = λ c. if c == b then xs else g.free c;
  mem = update x rv g.mem;
}

pub first_block :
    (b x : ℕ) (xs : List ℕ) (g : Blocks) (m : Malloc)
    → IsWf g m
    → g.free b ≡ x ∷ xs
    → (has x g.blocks ≡ true) × (g.bucket x ≡ b)
first_block b x xs g m wf first = ground (arith, wf.listed b x, first)

module _ (b x rv : ℕ) (xs : List ℕ) (g : Blocks) (m : Malloc) (wf : IsWf g m)
    (first : g.free b ≡ x ∷ xs) (low : x + header ≤ rv) (high : rv ≤ ends g x) where
  abbrev g' : Blocks
  g' = taken b x rv xs g

  abbrev m' : Malloc
  m' = record m {
    nextf = update b (m.link x) m.nextf;
    link = update (rv - header) (rv - x) m.link;
    magic = update (rv - header) in_use m.magic;
    index = update (rv - header) b m.index;
  }

  head_lem : (m.nextf b ≡ x) × (x ≢ 0) × Chain m.link (m.link x) xs
  head_lem = rw first at (wf.lists b)

  mine : (has x g.blocks ≡ true) × (g.bucket x ≡ b)
  mine = first_block b x xs g m wf first

  alone : has x xs ≡ false
  alone = (rw first at (wf.distinct b)).0

  fits : rv < 2 ^ 32
  fits = ground (arith, wf.inside x, wf.room, mine, high)

  -- The header's address is no other block's.
  header_elsewhere : (y : ℕ) → has y g.blocks ≡ true → y ≢ x → ((rv - header) == y) ≡ false
  header_elsewhere y h n = ground (arith, inner g m x y wf mine.0 h, low, high)

  header_unlisted : (c : ℕ) → (c == b) ≡ false → has (rv - header) (g.free c) ≡ false
  header_unlisted c n =
      ground
        (arith, wf.listed c (rv - header), inner g m x (rv - header) wf mine.0, mine.1, low, high)

  header_behind : has (rv - header) xs ≡ false
  header_behind = ground (
    arith,
    wf.listed b (rv - header),
    inner g m x (rv - header) wf mine.0,
    first,
    alone,
    low,
    high,
  )

  taken_lists : (c : ℕ) → Chain m'.link (m'.nextf c) (g'.free c)
  unfolding taken
  taken_lists c = elim (Bool-cases (c == b)) [
    | inl same ↦
        rw same (Chain-update m.link (rv - header) (rv - x) (m.link x) xs header_behind head_lem.2)
    | inr other ↦ rw other (
        Chain-update m.link (rv - header) (rv - x) (m.nextf c) (g.free c) (header_unlisted c other)
          (wf.lists c))
  ]

  others_headers :
      (y : ℕ) → (y == x) ≡ false → is_used g y ≡ true → (g.mem y - header == rv - header) ≡ false
  others_headers y n u = ground (arith, wf.headers y, wf.apart x y, mine.0, low, high)

  still_used : (y : ℕ) → (y == x) ≡ false → is_used g' y ≡ is_used g y
  unfolding taken
  still_used y n = ground (arith, first)

  taken_headers : (y : ℕ) → (not (is_used g' y) || has_header g' m' y) ≡ true
  unfolding taken
  taken_headers y = elim (Bool-cases (y == x)) [
    | inl same ↦ ground (arith, mine.1, low, high)
    | inr other ↦ ground (arith, still_used y other, others_headers y other, wf.headers y)
  ]

  taken-Distinct : (c : ℕ) → Distinct (g'.free c)
  unfolding taken
  taken-Distinct c = elim (Bool-cases (c == b)) [
    | inl same ↦ rw same (rw first at (wf.distinct b)).1
    | inr other ↦ rw other (wf.distinct c)
  ]

  taken_listed : (c y : ℕ) → (not (has y (g'.free c)) || (has y g.blocks && g.bucket y == c)) ≡ true
  unfolding taken
  taken_listed c y = ground (arith, wf.listed c y, first)

  taken-IsWf : IsWf g' m'
  unfolding taken
  taken-IsWf = record {
    page = wf.page;
    pagebucket = wf.pagebucket;
    lists = taken_lists;
    distinct = taken-Distinct;
    listed = taken_listed;
    apart = wf.apart;
    inside = wf.inside;
    headers = taken_headers;
    below = wf.below;
    room = wf.room;
    sound = wf.sound;
    whole = wf.whole;
  }

-- `take_block` is this step.
pub take_block-IsWf :
    (b x k nbytes : ℕ) (xs : List ℕ) (g : Blocks) (m : Malloc)
    → IsWf g m
    → g.free b ≡ x ∷ xs
    → 2 ≤ k
    → k < 32
    → nbytes + 2 ^ k + 8 < 2 ^ 32
    → alloc_bytes nbytes (2 ^ k) ≤ 2 ^ (b + minshift)
    → (rv : ℕ) × (m₁ : Malloc) × (take_block b (2 ^ k) m ≡ (rv, m₁))
      × IsWf (taken b x rv xs g) m₁
      × (rv % 2 ^ k ≡ 0)
      × (x + header ≤ rv)
      × (rv + nbytes ≤ ends g x)
unfolding take_block
take_block-IsWf b x k nbytes xs g m wf first two k32 small enough =
    let mine = first_block b x xs g m wf first in
    let inside = wf.inside x in
    let top : ends g x + 8 ≤ 2 ^ 32 = ground (arith, inside, wf.room, mine.0) in
    let eight : x % 8 ≡ 0 = ground (arith, inside, mine.0) in
    let size : ends g x ≡ x + 2 ^ (b + minshift) = rw mine.1 refl in
    let (aligned, low, high) =
      place_lem k x nbytes (2 ^ (b + 5)) two k32 eight (omega (arith, top, size)) small enough in
    let rv = place x (2 ^ k) in
    let below : rv ≤ ends g x = omega (arith, high, size) in
    let head = wf.lists b in
    let op : m.nextf b ≡ x = (rw first at head).0 in
    let here : minus rv header ≡ rv - header = omega (arith, low, below, top) in
    let pad : minus rv x ≡ rv - x = omega (arith, low, below, top) in
    (
      rv,
      m' b x rv xs g m wf first low below,
      rw (op, here, pad) refl,
      taken-IsWf b x rv xs g m wf first low below,
      aligned,
      low,
      omega (arith, high, size),
    )
