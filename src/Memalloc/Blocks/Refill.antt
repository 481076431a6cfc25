-- ===== src/Memalloc/Blocks/Refill.antt =====
-- `morecore`: an empty list gets the blocks of new pages, or stays empty.
use rumpuser_baremetal.Base.{
  ℕ, zero, suc, ◌+◌, ◌-◌, ◌*◌, ◌/◌, ◌%◌, ◌^◌, ◌≤◌, ◌<◌, ◌≡◌, refl, ◌≢◌, true, false, [], ◌==◌, ltb,
  leb, arith, ap, ◌∙◌, if◌then◌else◌, Bool-cases, inl, inr, Option, some, none,
}
use native.Mathlib.Nat.{pow-le-pow_right}
use rumpuser_baremetal.Kernel.Page.{Pages, page_size, IsSound, allocpg, allocpg_granted}
use rumpuser_baremetal.Memalloc.{Malloc, minshift, update, chain, morecore}
use rumpuser_baremetal.Memalloc.Place.{pow_add}
use rumpuser_baremetal.Memalloc.Blocks.{Blocks, ends, is_used, IsWf}
use rumpuser_baremetal.Memalloc.Blocks.More.{cut, cut-IsWf, cut_used, ends_of_old, cut_mem}

-- The same blocks are in use, where they were.
pub record IsSame (g g' : Blocks) : Type 0 where
  pub used : (y : ℕ) → is_used g' y ≡ is_used g y
  pub size : (y : ℕ) → is_used g y ≡ true → ends g' y ≡ ends g y
  pub memory : (y : ℕ) → g'.mem y ≡ g.mem y

pub IsSame-trans : (g g' g'' : Blocks) → IsSame g g' → IsSame g' g'' → IsSame g g''
IsSame-trans g g' g'' s t = record {
  used = λ y. t.used y ∙ s.used y;
  size = λ y h. t.size y (s.used y ∙ h) ∙ s.size y h;
  memory = λ y. t.memory y ∙ s.memory y;
}

pub IsSame-refl : (g : Blocks) → IsSame g g
IsSame-refl g = record { used = λ y. refl; size = λ y h. refl; memory = λ y. refl }

-- `morecore` behind the sizes that it computes.
abbrev fill : (v : Option ℕ) (pages : Pages) (b nblks sz : ℕ) → Malloc → Malloc
fill v pages b nblks sz m = elim v [
  | none ↦ record m { pages = pages }
  | some op ↦ if op == 0 then record m { pages = pages } else record m {
    pages = pages;
    nextf = update b op m.nextf;
    link = chain (nblks - 1) op sz m.link;
  }
]

unfoldable grow : (b amt nblks sz : ℕ) → Malloc → Malloc
grow b amt nblks sz m =
    fill (allocpg (2 ^ amt) m.pages).0 (allocpg (2 ^ amt) m.pages).1 b nblks sz m

-- What the sizes come to: `suc k` blocks fill 2 ^ amt pages.
record IsCut (b amt k sz : ℕ) : Type 0 where
  whole : suc k * 2 ^ (b + minshift) ≡ 2 ^ amt * page_size
  pages : 2 ^ amt ≤ 2 ^ 19
  links : (a : ℕ) (link : ℕ → ℕ) → chain k a sz link ≡ chain k a (2 ^ (b + minshift)) link

pred_suc : (k : ℕ) → suc k - 1 ≡ k
pred_suc k = omega arith

only_pages :
    (pages : Pages) (g : Blocks) (m : Malloc)
    → IsWf g m
    → IsSound pages
    → pages.membase ≡ m.pages.membase
    → m.pages.current ≤ pages.current
    → IsWf g (record m { pages = pages })
only_pages pages g m wf sound base more = record {
  page = wf.page;
  pagebucket = wf.pagebucket;
  lists = wf.lists;
  distinct = wf.distinct;
  listed = wf.listed;
  apart = wf.apart;
  inside = λ x. ground (arith, wf.inside x, base);
  headers = wf.headers;
  below = omega (arith, wf.below, base, more);
  room = wf.room;
  sound = sound;
  whole = rw base wf.whole;
}

pub membase_stays : (n : ℕ) (p : Pages) → (allocpg n p).1.membase ≡ p.membase
unfolding allocpg
membase_stays n p = ground arith

memsize_stays : (n : ℕ) (p : Pages) → (allocpg n p).1.memsize ≡ p.memsize
unfolding allocpg
memsize_stays n p = ground arith

module _ (b amt k sz : ℕ) (c : IsCut b amt k sz) (g : Blocks) (m : Malloc) (wf : IsWf g m)
    (small : b ≤ 26) (few : m.pages.current < 2 ^ 19) (empty : g.free b ≡ []) where
  abbrev p' : Pages
  p' = (allocpg (2 ^ amt) m.pages).1

  abbrev a : ℕ
  a = m.pages.membase + m.pages.current * page_size

  granted_lem :
      IsSound p'
      × (p'.current ≡ m.pages.current + 2 ^ amt)
      × ((allocpg (2 ^ amt) m.pages).0 ≡ (
          if leb ((m.pages.current + 2 ^ amt) * page_size) m.pages.memsize then some a else none))
  granted_lem = allocpg_granted (2 ^ amt) m.pages wf.sound (omega (arith, few, c.pages))

  refused : IsWf g (record m { pages = p' })
  refused =
      only_pages p' g m wf granted_lem.0 (membase_stays (2 ^ amt) m.pages)
        (omega (arith, granted_lem.1))

  module _ (room : (m.pages.current + 2 ^ amt) * page_size ≤ m.pages.memsize) (there : a ≢ 0) where
    eight : a % 8 ≡ 0
    eight = omega (arith, wf.whole)

    fits : a + suc k * 2 ^ (b + minshift) + 8 ≤ 2 ^ 32
    fits = omega (arith, c.whole, room, wf.whole, wf.sound.fits)

    base : p'.membase ≡ m.pages.membase
    base = membase_stays (2 ^ amt) m.pages

    below : a + suc k * 2 ^ (b + minshift) ≤ p'.membase + p'.current * page_size
    below = omega (arith, c.whole, base, granted_lem.1)

    low : p'.membase ≤ a
    low = omega (arith, base)

    filled :
        (g' : Blocks) × IsSame g g'
        × IsWf g' (record m { pages = p'; nextf = update b a m.nextf; link = chain k a sz m.link })
    filled = (
      cut b (suc k) a g,
      record {
        used =
            cut_used b k a p' g m wf empty small there wf.below eight fits base low below
              granted_lem.0;
        size = λ y h.
            ends_of_old b k a p' g m wf empty small there wf.below eight fits base low below
              granted_lem.0 y (ground (arith, h));
        memory =
            cut_mem b k a p' g m wf empty small there wf.below eight fits base low below
              granted_lem.0;
      },
      rw (c.links a m.link) (
          cut-IsWf b k a p' g m wf empty small there wf.below eight fits base low below
            granted_lem.0),
    )

  grow-IsWf : (g' : Blocks) × IsSame g g' × IsWf g' (grow b amt (suc k) sz m)
  unfolding grow
  grow-IsWf = elim (Bool-cases (leb ((m.pages.current + 2 ^ amt) * page_size) m.pages.memsize)) [
    | inl room ↦
        let given : (allocpg (2 ^ amt) m.pages).0 ≡ some a = rw room at granted_lem.2 in
        elim (Bool-cases (a == 0)) [
          | inl null ↦ rw (given, null) (g, IsSame-refl g, refused)
          | inr there ↦ rw (given, there, pred_suc k) (filled (ground arith) (ground arith))
        ]
    | inr full ↦
        let given : (allocpg (2 ^ amt) m.pages).0 ≡ none = rw full at granted_lem.2 in
        rw given (g, IsSame-refl g, refused)
  ]

-- A bucket below the page's: as many blocks as a page has.
small-IsCut :
    (b : ℕ) → b < 7 → (k : ℕ) × (0x1000 / 2 ^ (b + minshift) ≡ suc k) × IsCut b 0 k (0x1000 / suc k)
small-IsCut zero h = (127, refl, record { whole = refl; pages = omega arith; links = λ a l. refl })
small-IsCut (suc zero) h =
    (63, refl, record { whole = refl; pages = omega arith; links = λ a l. refl })
small-IsCut (suc (suc zero)) h =
    (31, refl, record { whole = refl; pages = omega arith; links = λ a l. refl })
small-IsCut (suc (suc (suc zero))) h =
    (15, refl, record { whole = refl; pages = omega arith; links = λ a l. refl })
small-IsCut (suc (suc (suc (suc zero)))) h =
    (7, refl, record { whole = refl; pages = omega arith; links = λ a l. refl })
small-IsCut (suc (suc (suc (suc (suc zero))))) h =
    (3, refl, record { whole = refl; pages = omega arith; links = λ a l. refl })
small-IsCut (suc (suc (suc (suc (suc (suc zero)))))) h =
    (1, refl, record { whole = refl; pages = omega arith; links = λ a l. refl })
small-IsCut (suc (suc (suc (suc (suc (suc (suc b))))))) h = ground (arith, h)

-- Any other bucket: one block.
large-IsCut : (b : ℕ) → 7 ≤ b → b ≤ 26 → IsCut b (b - 7) 0 0
unfolding chain
large-IsCut b h small =
    let split : b + minshift ≡ b - 7 + 12 = omega arith in
    let size : 2 ^ (b + minshift) ≡ 2 ^ (b - 7) * page_size =
      ap (λ (t : ℕ). 2 ^ t) split ∙ pow_add (b - 7) 12 in
    record {
      whole = omega (arith, size);
      pages = pow-le-pow_right {n = 2} (omega arith) {i = b - 7} {j = 19} (omega arith);
      links = λ a l. refl;
    }

morecore-grow :
    (b : ℕ) (m : Malloc)
    → let small = ltb b m.pagebucket in
      let nblks = if small then m.pagesz / 2 ^ (b + minshift) else 1 in
      morecore b m
      ≡ grow b
          (if small then 0 else b - m.pagebucket)
          nblks
          (if small then m.pagesz / nblks else 0)
          m
unfolding morecore grow
morecore-grow b m = refl

pub morecore-IsWf :
    (b : ℕ) (g : Blocks) (m : Malloc)
    → IsWf g m
    → b ≤ 26
    → m.pages.current < 2 ^ 19
    → g.free b ≡ []
    → (g' : Blocks) × IsSame g g' × IsWf g' (morecore b m)
morecore-IsWf b g m wf small few empty = elim (Bool-cases (ltb b 7)) [
  | inl less ↦
      let (k, count, c) = small-IsCut b (ground arith) in
      let below : ltb b m.pagebucket ≡ true = rw wf.pagebucket less in
      let blocks : m.pagesz / 2 ^ (b + minshift) ≡ suc k = rw wf.page count in
      let size : m.pagesz / suc k ≡ 0x1000 / suc k = rw wf.page refl in
      rw (morecore-grow b m, below, blocks, size)
        (grow-IsWf b 0 k (0x1000 / suc k) c g m wf small few empty)
  | inr more ↦
      let c = large-IsCut b (ground arith) small in
      let above : ltb b m.pagebucket ≡ false = rw wf.pagebucket more in
      let amt : b - m.pagebucket ≡ b - 7 = rw wf.pagebucket refl in
      rw (morecore-grow b m, above, amt) (grow-IsWf b (b - 7) 0 0 c g m wf small few empty)
]
