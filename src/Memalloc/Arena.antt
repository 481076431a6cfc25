-- ===== src/Memalloc/Arena.antt =====
-- memalloc.c as the allocator of the scheduler, the locks and the interrupts (the interface `Alloc`).
-- Where `Reach-memalloc` has a bound, at 2 GB of pages and at sizes that wrap, this allocator hands out
-- nothing; freeing what is not held does nothing but end its use.
pub mod Over
pub mod Give
use rumpuser_baremetal.Base.{
  ℕ, ◌+◌, ◌-◌, ◌^◌, ◌≤◌, ◌<◌, ◌≡◌, refl, ◌≢◌, Bool, true, false, not, ◌&&◌, ◌||◌, Option, none,
  some, List, [], ◌∷◌, ◌++◌, ◌==◌, ltb, bit_and, arith, ap, sym, ◌∙◌, ◌⊎◌, inl, inr, Bool-cases,
  ◌%◌, ◌*◌, if◌then◌else◌,
}
use mathlib.Core.Path.{subst}
use mathlib.Core.Option.{some-injective}
use rumpuser_baremetal.Heap.{Alloc}
use rumpuser_baremetal.Kernel.Page.{page_size}
use rumpuser_baremetal.Memalloc.{
  Malloc, header, memalloc, memfree, from_bucket, take_block, morecore, found, too_big, out_of_fuel,
  bucket_of, alloc_bytes, Search,
}
use rumpuser_baremetal.Memalloc.Request.{setup_done}
use rumpuser_baremetal.Memalloc.Blocks.{Blocks, IsWf}
use rumpuser_baremetal.Memalloc.Blocks.Refill.{membase_stays}
use rumpuser_baremetal.Memalloc.Blocks.Held.{is_held, held_split, are_clear, Owns}
use rumpuser_baremetal.Memalloc.Blocks.Steps.{Reach, Inv, Reach-Inv}
use rumpuser_baremetal.Memalloc.Blocks.Run.{Reach-memalloc, Reach-memfree}

morecore_membase : (b : ℕ) (m : Malloc) → (morecore b m).pages.membase ≡ m.pages.membase
unfolding morecore
morecore_membase b m =
    let small = ltb b m.pagebucket in
    ground (arith, membase_stays (2 ^ (if small then 0 else b - m.pagebucket)) m.pages)

from_bucket_membase :
    (b align : ℕ) (m : Malloc) → (from_bucket b align m).1.pages.membase ≡ m.pages.membase
unfolding from_bucket take_block
from_bucket_membase b align m = ground (arith, morecore_membase b m)

-- The pages of an answer start where they started.
Stays : ℕ → Option (ℕ × Malloc) → Type 0
Stays base none = Unit {0}
Stays base (some (rv, m')) = m'.pages.membase ≡ base

search-Stays :
    (align : ℕ) (m : Malloc) (r : Search)
    → Stays m.pages.membase (elim r [
      | out_of_fuel ↦ none
      | too_big ↦ some (0, m)
      | found bucket ↦ some (from_bucket bucket align m)
    ])
unfolding Stays
search-Stays align m out_of_fuel = tt
search-Stays align m too_big = refl
search-Stays align m (found b) = from_bucket_membase b align m

memalloc-Stays :
    (n align : ℕ) (m : Malloc) → m.pagesz ≡ 0x1000 → Stays m.pages.membase (memalloc n align m)
unfolding memalloc Stays
memalloc-Stays n align m page = elim (Bool-cases (bit_and align (align - 1) == 0)) [
  | inl power ↦
      rw (memalloc, setup_done m page, power) (search-Stays (if ltb align 4 then 4 else align) m _)
  | inr other ↦ rw (memalloc, setup_done m page, other) refl
]

memalloc_membase :
    (n align rv : ℕ) (m m' : Malloc)
    → m.pagesz ≡ 0x1000
    → memalloc n align m ≡ some (rv, m')
    → m'.pages.membase ≡ m.pages.membase
unfolding Stays
memalloc_membase n align rv m m' page e =
    subst (Stays m.pages.membase) e (memalloc-Stays n align m page)

-- `bmk_xmalloc` passes the alignment 0, which is taken as 4.
memalloc_zero : (n : ℕ) (m : Malloc) → memalloc n 0 m ≡ memalloc n (2 ^ 2) m
unfolding memalloc
memalloc_zero n m = refl

-- What the clients hold, the allocator's state, and the addresses in use that lie below its pages and
-- were never its to give.
pub record Arena : Type 0 where
  pub held : List (ℕ × ℕ)
  pub memory : Malloc
  pub reached : Reach held memory
  pub static : ℕ → Bool
  pub low : (p : ℕ) → static p ≡ true → p < memory.pages.membase

abbrev pub in_arena : Arena → ℕ → Bool
in_arena a p = a.static p || is_held p a.held

-- The bounds of `Reach-memalloc`, at the alignment of `bmk_xmalloc`.
abbrev pub in_bounds : ℕ → Arena → Bool
in_bounds n a = ltb (n + 2 ^ 2 + 8) (2 ^ 32) && ltb a.memory.pages.current (2 ^ 19)

low_stays :
    (n rv : ℕ) (a : Arena) (m' : Malloc)
    → memalloc n (2 ^ 2) a.memory ≡ some (rv, m')
    → m'.pages.membase ≡ a.memory.pages.membase
unfolding Inv
low_stays n rv a m' e =
    let (g, wf, _) = Reach-Inv a.held a.memory a.reached in
    memalloc_membase n (2 ^ 2) rv a.memory m' wf.page e

abbrev Answer : (n : ℕ) (a : Arena) (rv : ℕ) (m' : Malloc) → Type 0
Answer n a rv m' =
    ((rv ≡ 0) × Reach a.held m')
    ⊎ ((rv % 2 ^ 2 ≡ 0)
        × (m'.pages.membase + header ≤ rv)
        × (rv + n ≤ m'.pages.membase + m'.pages.current * page_size)
        × (are_clear rv n a.held ≡ true)
        × Reach ((rv, n) ∷ a.held) m')

served :
    (n : ℕ) (a : Arena) (rv : ℕ) (m' : Malloc)
    → m'.pages.membase ≡ a.memory.pages.membase
    → Answer n a rv m'
    → Option ℕ × Arena
served n a rv m' base (inl (null, r)) = (
  none,
  record {
    held = a.held;
    memory = m';
    reached = r;
    static = a.static;
    low = λ p h. subst (λ (x : ℕ). p < x) (sym base) (a.low p h);
  },
)
served n a rv m' base (inr (aligned, low, high, clear, r)) = (
  some rv,
  record {
    held = (rv, n) ∷ a.held;
    memory = m';
    reached = r;
    static = a.static;
    low = λ p h. subst (λ (x : ℕ). p < x) (sym base) (a.low p h);
  },
)

request : (n : ℕ) (a : Arena) (ok : Bool) → in_bounds n a ≡ ok → Option ℕ × Arena
request n a false h = (none, a)
request n a true h =
    let (rv, m', e, answer) =
      Reach-memalloc a.held a.memory n 2 a.reached (omega arith) (omega arith) (ground (arith, h))
        (ground (arith, h)) in
    served n a rv m' (low_stays n rv a m' e) answer

-- `bmk_xmalloc` up to its panic.
pub arena_alloc : ℕ → Arena → Option ℕ × Arena
arena_alloc n a = request n a (in_bounds n a) refl

clear_unheld :
    (rv n : ℕ) (held : List (ℕ × ℕ)) → are_clear rv n held ≡ true → is_held rv held ≡ false
clear_unheld rv n [] h = refl
clear_unheld rv n ((rv', n') ∷ held) h = ground (arith, h, clear_unheld rv n held)

Fresh : (a : Arena) → Option ℕ × Arena → Type 0
Fresh a (none, a') = Unit {0}
Fresh a (some p, a') =
    (p ≢ 0)
    × (in_arena a p ≡ false)
    × (in_arena a' p ≡ true)
    × ((q : ℕ) → q ≢ p → in_arena a' q ≡ in_arena a q)

not_static : (a : Arena) (rv : ℕ) → a.memory.pages.membase ≤ rv → a.static rv ≡ false
not_static a rv h = elim (Bool-cases (a.static rv)) [
  | inl s ↦ let below = a.low rv s in absurd (omega (arith, below, h))
  | inr n ↦ n
]

served-Fresh :
    (n : ℕ) (a : Arena) (rv : ℕ) (m' : Malloc) (base : m'.pages.membase ≡ a.memory.pages.membase)
    (answer : Answer n a rv m')
    → Fresh a (served n a rv m' base answer)
unfolding Fresh served
served-Fresh n a rv m' base (inl (null, r)) = tt
served-Fresh n a rv m' base (inr (aligned, low, high, clear, r)) = (
  omega (arith, low),
  ground (arith, not_static a rv (omega (arith, low, base)), clear_unheld rv n a.held clear),
  ground arith,
  λ q other. ground (arith, other),
)

request-Fresh :
    (n : ℕ) (a : Arena) (ok : Bool) (h : in_bounds n a ≡ ok) → Fresh a (request n a ok h)
unfolding Fresh request
request-Fresh n a false h = tt
request-Fresh n a true h =
    let (rv, m', e, answer) =
      Reach-memalloc a.held a.memory n 2 a.reached (omega arith) (omega arith) (ground (arith, h))
        (ground (arith, h)) in
    served-Fresh n a rv m' (low_stays n rv a m' e) answer

-- What is handed out was not in use, is in use then, and nothing else changes.
pub arena_fresh :
    (n p : ℕ) (a a' : Arena)
    → arena_alloc n a ≡ (some p, a')
    → (p ≢ 0)
      × (in_arena a p ≡ false)
      × (in_arena a' p ≡ true)
      × ((q : ℕ) → q ≢ p → in_arena a' q ≡ in_arena a q)
unfolding Fresh arena_alloc
arena_fresh n p a a' e = subst (Fresh a) e (request-Fresh n a (in_bounds n a) refl)

pub membase_freed :
    (p : ℕ) (m m' : Malloc) → memfree p m ≡ some m' → m'.pages.membase ≡ m.pages.membase
unfolding memfree
membase_freed p m m' e = ground (arith, e)

Serves : (n : ℕ) (a : Arena) → Option ℕ × Arena → Type 0
Serves n a (o, a') =
    (rv : ℕ) × (memalloc n 0 a.memory ≡ some (rv, a'.memory))
    × (o ≡ (if rv == 0 then none else some rv))

served-Serves :
    (n : ℕ) (a : Arena) (rv : ℕ) (m' : Malloc) (base : m'.pages.membase ≡ a.memory.pages.membase)
    (answer : Answer n a rv m')
    → memalloc n (2 ^ 2) a.memory ≡ some (rv, m')
    → Serves n a (served n a rv m' base answer)
unfolding Serves served
served-Serves n a rv m' base (inl (null, r)) e =
    (rv, memalloc_zero n a.memory ∙ e, ground (arith, null))
served-Serves n a rv m' base (inr (aligned, low, high, clear, r)) e =
    (rv, memalloc_zero n a.memory ∙ e, ground (arith, low))

request-Serves :
    (n : ℕ) (a : Arena) (ok : Bool) (h : in_bounds n a ≡ ok)
    → ok ≡ true
    → Serves n a (request n a ok h)
unfolding Serves request
request-Serves n a false h t = ground (arith, t)
request-Serves n a true h t =
    let (rv, m', e, answer) =
      Reach-memalloc a.held a.memory n 2 a.reached (omega arith) (omega arith) (ground (arith, h))
        (ground (arith, h)) in
    served-Serves n a rv m' (low_stays n rv a m' e) answer e

pub arena_alloc_lem :
    (n : ℕ) (a : Arena)
    → in_bounds n a ≡ true
    → (rv : ℕ) × (memalloc n 0 a.memory ≡ some (rv, (arena_alloc n a).1.memory))
      × ((arena_alloc n a).0 ≡ (if rv == 0 then none else some rv))
unfolding Serves arena_alloc
arena_alloc_lem n a h = request-Serves n a (in_bounds n a) refl h
