-- ===== src/Memalloc/Blocks/More.antt =====
-- A row of new blocks behind the old ones keeps the blocks well formed.
use rumpuser_baremetal.Base.{
  ℕ, zero, suc, ◌+◌, ◌-◌, ◌*◌, ◌%◌, ◌^◌, ◌≤◌, ◌<◌, ◌≡◌, refl, ◌≢◌, Bool, true, false, not, ◌&&◌,
  ◌||◌, List, [], ◌∷◌, ◌++◌, ◌==◌, has, Distinct, arith, ap, ◌∙◌, if◌then◌else◌, Bool-cases, inl,
  inr,
}
use native.Mathlib.Nat.{suc-mul, pow-suc}
use rumpuser_baremetal.Kernel.Page.{Pages, page_size, IsSound}
use rumpuser_baremetal.Memalloc.{Malloc, minshift, header, update, chain}
use rumpuser_baremetal.Memalloc.Blocks.{
  Blocks, ends, is_used, Chain, are_apart, is_inside, has_header, IsWf,
}
use rumpuser_baremetal.Memalloc.Blocks.Row.{
  row, row_bounds, row_apart, row-Distinct, Chain-row, Chain-chain, chain_below,
}

-- `n` blocks from `a` on, all free and of bucket `b`.
unfoldable pub cut : (b n a : ℕ) → Blocks → Blocks
cut b n a g =
    let new = row n a (2 ^ (b + minshift)) in
    record g {
      blocks = new ++ g.blocks;
      bucket = λ y. if has y new then b else g.bucket y;
      free = λ c. if c == b then new else g.free c;
      top = a + n * 2 ^ (b + minshift);
    }

pub size_eight : (b : ℕ) → (2 ^ (b + minshift) % 8 ≡ 0) × (1 ≤ 2 ^ (b + minshift))
size_eight zero = (refl, omega arith)
size_eight (suc b) =
    let (eight, one) = size_eight b in
    let double : 2 ^ (suc b + minshift) ≡ 2 ^ (b + minshift) * 2 =
      ap (λ (t : ℕ). 2 ^ t) (shift b) ∙ pow-suc 2 (b + minshift) in
    (omega (arith, double, eight), omega (arith, double, one))
  where
    shift : (b : ℕ) → suc b + minshift ≡ suc (b + minshift)
    shift b = omega arith

has-append : (y : ℕ) (xs ys : List ℕ) → has y (xs ++ ys) ≡ (has y xs || has y ys)
has-append y [] ys = refl
has-append y (x ∷ xs) ys = ground (arith, has-append y xs ys)

ap-if :
    {A : Type 0} {B : Type 0} (f : A → B) (c : Bool) (x y : A)
    → f (if c then x else y) ≡ (if c then f x else f y)
ap-if f true x y = refl
ap-if f false x y = refl

module _ (b k a : ℕ) (pages : Pages) (g : Blocks) (m : Malloc) (wf : IsWf g m)
    (empty : g.free b ≡ []) (small : b ≤ 26) (some_place : a ≢ 0) (behind : g.top ≤ a)
    (eight : a % 8 ≡ 0) (fits : a + suc k * 2 ^ (b + minshift) + 8 ≤ 2 ^ 32)
    (base : pages.membase ≡ m.pages.membase) (low : pages.membase ≤ a)
    (below : a + suc k * 2 ^ (b + minshift) ≤ pages.membase + pages.current * page_size)
    (sound : IsSound pages) where
  abbrev sz : ℕ
  sz = 2 ^ (b + minshift)

  abbrev new : List ℕ
  new = row (suc k) a sz

  abbrev g' : Blocks
  g' = cut b (suc k) a g

  abbrev m' : Malloc
  m' = record m { pages = pages; nextf = update b a m.nextf; link = chain k a sz m.link }

  chain_fits : a + k * sz < 2 ^ 32
  chain_fits = omega (arith, fits, suc-mul k sz)

  bounds : (y : ℕ) → has y new ≡ true → (a ≤ y) × (y + sz ≤ a + suc k * sz) × (y % 8 ≡ 0)
  bounds y h = row_bounds (suc k) a sz y (size_eight b).0 eight h

  -- An old block ends before the row.
  old : (y : ℕ) → has y g.blocks ≡ true → (ends g y ≤ a) × (y < a) × (has y new ≡ false)
  old y h =
      let ended : ends g y ≤ a = ground (arith, wf.inside y, behind) in
      let before : y < a = omega (arith, ended, (size_eight (g.bucket y)).1) in
      (ended, before, ground (arith, bounds y))

  unlisted : (c y : ℕ) → a ≤ y → has y (g.free c) ≡ false
  unlisted c y h = ground (arith, wf.listed c y, old y)

  cut_lists : (c : ℕ) → Chain m'.link (m'.nextf c) (g'.free c)
  unfolding cut
  cut_lists c = elim (Bool-cases (c == b)) [
    | inl same ↦ rw same (Chain-row k a sz m.link some_place (size_eight b).1 chain_fits)
    | inr other ↦
        rw other
          (Chain-chain k a sz (m.nextf c) m.link (g.free c) (unlisted c) chain_fits (wf.lists c))
  ]

  cut-Distinct : (c : ℕ) → Distinct (g'.free c)
  unfolding cut
  cut-Distinct c = elim (Bool-cases (c == b)) [
    | inl same ↦ rw same (row-Distinct (suc k) a sz (size_eight b).0 eight (size_eight b).1)
    | inr other ↦ rw other (wf.distinct c)
  ]

  cut_has : (y : ℕ) → has y g'.blocks ≡ (has y new || has y g.blocks)
  unfolding cut
  cut_has y = has-append y new g.blocks

  -- The bucket of a new block, and that of an old one.
  cut_bucket : (y : ℕ) → g'.bucket y ≡ (if has y new then b else g.bucket y)
  unfolding cut
  cut_bucket y = refl

  cut_free : (c y : ℕ) → has y (g'.free c) ≡ (if c == b then has y new else has y (g.free c))
  unfolding cut
  cut_free c y = ap-if (has y) (c == b) new (g.free c)

  cut_top : g'.top ≡ a + suc k * sz
  unfolding cut
  cut_top = refl

  pub cut_mem : (y : ℕ) → g'.mem y ≡ g.mem y
  unfolding cut
  cut_mem y = refl

  none_free : (y : ℕ) → has y (g.free b) ≡ false
  none_free y = rw empty refl

  cut_listed : (c y : ℕ) → (not (has y (g'.free c)) || (has y g'.blocks && g'.bucket y == c)) ≡ true
  cut_listed c y = ground (arith, cut_free c y, cut_has y, cut_bucket y, wf.listed c y, old y)

  ends_of_new : (y : ℕ) → has y new ≡ true → ends g' y ≡ y + sz
  ends_of_new y h = rw (cut_bucket y, h) refl

  pub ends_of_old : (y : ℕ) → has y g.blocks ≡ true → ends g' y ≡ ends g y
  ends_of_old y h = rw (cut_bucket y, (old y h).2) refl

  cut_apart : (x y : ℕ) → (not (has x g'.blocks && has y g'.blocks) || are_apart g' x y) ≡ true
  cut_apart x y =
      rw (cut_has x, cut_has y)
        (ground (
          arith,
          ends_of_new x,
          ends_of_new y,
          ends_of_old x,
          ends_of_old y,
          old x,
          old y,
          bounds x,
          bounds y,
          wf.apart x y,
          row_apart (suc k) a sz x y (size_eight b).0 eight,
        ))

  cut_inside : (x : ℕ) → (not (has x g'.blocks) || is_inside g' m' x) ≡ true
  cut_inside x = rw (cut_has x) (
      ground (
        arith,
        ends_of_new x,
        ends_of_old x,
        bounds x,
        cut_bucket x,
        old x,
        wf.inside x,
        cut_top,
        base,
        low,
        behind,
        small,
        some_place,
      ))

  pub cut_used : (y : ℕ) → is_used g' y ≡ is_used g y
  cut_used y = ground (arith, cut_has y, cut_free (g'.bucket y) y, cut_bucket y, old y, none_free y)

  -- The header of a block in use is below the row.
  header_stays :
      (y : ℕ) → is_used g y ≡ true → m'.link (g.mem y - header) ≡ m.link (g.mem y - header)
  header_stays y used =
      chain_below k a sz (g.mem y - header) m.link
        (ground (arith, old y, wf.headers y, used, some_place)) chain_fits

  cut_headers : (y : ℕ) → (not (is_used g' y) || has_header g' m' y) ≡ true
  cut_headers y =
      rw (cut_used y) (
        ground (arith, header_stays y, wf.headers y, cut_mem y, ends_of_old y, cut_bucket y, old y))

  cut_room : g'.top + 8 ≤ 2 ^ 32
  unfolding cut
  cut_room = fits

  cut_below : g'.top ≤ pages.membase + pages.current * page_size
  unfolding cut
  cut_below = below

  pub cut-IsWf : IsWf g' m'
  cut-IsWf = record {
    page = wf.page;
    pagebucket = wf.pagebucket;
    lists = cut_lists;
    distinct = cut-Distinct;
    listed = cut_listed;
    apart = cut_apart;
    inside = cut_inside;
    headers = cut_headers;
    below = cut_below;
    room = cut_room;
    sound = sound;
    whole = rw base wf.whole;
  }
