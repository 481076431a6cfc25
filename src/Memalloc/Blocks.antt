-- ===== src/Memalloc/Blocks.antt =====
-- The blocks that memalloc.c has carved: which of them are in a free list and which in use.
pub mod Take
pub mod Row
pub mod More
pub mod Refill
pub mod Serve
pub mod Held
pub mod Steps
pub mod Run
pub mod Move
pub mod Free
use rumpuser_baremetal.Base.{
  ℕ, zero, suc, ◌+◌, ◌-◌, ◌*◌, ◌%◌, ◌^◌, ◌≤◌, ◌<◌, ◌≡◌, refl, ◌≢◌, Bool, true, false, not, ◌&&◌,
  ◌||◌, List, [], ◌∷◌, ◌==◌, ltb, leb, has, Distinct, arith, ap, ◌∙◌,
}
use native.Mathlib.Nat.{one-le-pow}
use rumpuser_baremetal.Kernel.Page.{Pages, page_size, IsSound}
use rumpuser_baremetal.Memalloc.{Malloc, minshift, header, in_use, update}

-- The blocks by their addresses, with the bucket of each, the free lists, the memory that was returned
-- from each block in use, and the address behind the last page.
pub record Blocks : Type 0 where
  pub blocks : List ℕ
  pub bucket : ℕ → ℕ
  pub free : ℕ → List ℕ
  pub mem : ℕ → ℕ
  pub top : ℕ

abbrev pub ends : Blocks → ℕ → ℕ
ends g x = x + 2 ^ (g.bucket x + minshift)

abbrev pub is_used : Blocks → ℕ → Bool
is_used g x = has x g.blocks && not (has x (g.free (g.bucket x)))

-- The list whose first element is `a` and whose links stand in `link`.
abbrev pub Chain : (ℕ → ℕ) → ℕ → List ℕ → Type 0
Chain link a [] = a ≡ 0
Chain link a (x ∷ xs) = (a ≡ x) × (x ≢ 0) × Chain link (link x) xs

-- Two different blocks do not overlap.
abbrev pub are_apart : Blocks → ℕ → ℕ → Bool
are_apart g x y = x == y || leb (ends g x) y || leb (ends g y) x

-- A block lies in the pages, at a multiple of 8.
abbrev pub is_inside : Blocks → Malloc → ℕ → Bool
is_inside g m x =
    ltb 0 x && leb m.pages.membase x && leb (ends g x) g.top && x % 8 == 0 && leb (g.bucket x) 26

-- The header before the memory of a block in use tells where the block starts and its bucket.
abbrev pub has_header : Blocks → Malloc → ℕ → Bool
has_header g m x =
    let rv = g.mem x in
    m.magic (rv - header) == in_use
    && m.index (rv - header) == g.bucket x
    && m.link (rv - header) == rv - x
    && leb (x + header) rv
    && leb rv (ends g x)

pub record IsWf (g : Blocks) (m : Malloc) : Type 0 where
  pub page : m.pagesz ≡ 0x1000
  pub pagebucket : m.pagebucket ≡ 7
  pub lists : (b : ℕ) → Chain m.link (m.nextf b) (g.free b)
  pub distinct : (b : ℕ) → Distinct (g.free b)
  pub listed : (b x : ℕ) → (not (has x (g.free b)) || (has x g.blocks && g.bucket x == b)) ≡ true
  pub apart : (x y : ℕ) → (not (has x g.blocks && has y g.blocks) || are_apart g x y) ≡ true
  pub inside : (x : ℕ) → (not (has x g.blocks) || is_inside g m x) ≡ true
  pub headers : (x : ℕ) → (not (is_used g x) || has_header g m x) ≡ true
  pub below : g.top ≤ m.pages.membase + m.pages.current * page_size
  pub room : g.top + 8 ≤ 2 ^ 32
  pub sound : IsSound m.pages
  pub whole : m.pages.membase % page_size ≡ 0

pub Chain-update :
    (link : ℕ → ℕ) (p v a : ℕ) (xs : List ℕ)
    → has p xs ≡ false
    → Chain link a xs
    → Chain (update p v link) a xs
Chain-update link p v a [] h c = c
Chain-update link p v a (x ∷ xs) h (e, n, c) =
    let same : update p v link x ≡ link x = ground arith in
    (e, n, rw same (Chain-update link p v (link x) xs (ground arith) c))

-- An address inside a block is no other block's.
pub inner :
    (g : Blocks) (m : Malloc) (x y : ℕ)
    → IsWf g m
    → has x g.blocks ≡ true
    → has y g.blocks ≡ true
    → x ≤ y
    → y < ends g x
    → y ≡ x
inner g m x y wf hx hy low high =
    ground (arith, wf.apart x y, one-le-pow (g.bucket y + minshift) 2 (omega arith))
