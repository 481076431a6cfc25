-- ===== src/Kernel/Page.antt =====
-- `bmk_allocpg` and `round_page` (kernel.c, include/bmk/kernel.h). Addresses and sizes are 32 bits.
use rumpuser_baremetal.Base.{
  ℕ, ◌+◌, ◌*◌, ◌%◌, ◌^◌, ◌≤◌, ◌<◌, ◌≡◌, ◌⊎◌, inl, inr, Option, none, some, List, [], ◌∷◌, arith,
  ltb, leb, if◌then◌else◌, Bool-cases, sym,
}
use mathlib.Core.Path.{subst}

abbrev pub page_size : ℕ
page_size = 0x1000

-- The static `current` of `bmk_allocpg`, with the globals that it reads.
pub record Pages : Type 0 where
  pub membase : ℕ
  pub memsize : ℕ
  pub current : ℕ

-- The counter moves before the test, so a request that is refused uses its pages up.
unfoldable pub allocpg : ℕ → Pages → Option ℕ × Pages
allocpg howmany p =
    let rv = (p.membase + page_size * p.current) % 2 ^ 32 in
    let current = (p.current + howmany) % 2 ^ 32 in
    let p' : Pages = record p { current = current } in
    if ltb p.memsize ((current * page_size) % 2 ^ 32) then (none, p') else (some rv, p')

-- The memory that `bmk_allocpg` hands out lies below 4 GB, and the counter has not wrapped.
pub record IsSound (p : Pages) : Type 0 where
  pub fits : p.membase + p.memsize < 2 ^ 32
  pub small : p.current < 2 ^ 20

-- A sound state and a request that the counter can take: a request is granted exactly if its pages
-- fit behind those taken so far. Granted pages start where those end. The counter moves either way.
pub allocpg_granted :
    (n : ℕ) (p : Pages)
    → IsSound p
    → p.current + n < 2 ^ 20
    → IsSound (allocpg n p).1
      × ((allocpg n p).1.current ≡ p.current + n)
      × ((allocpg n p).0 ≡ (
          if leb ((p.current + n) * page_size) p.memsize
          then some (p.membase + p.current * page_size)
          else none))
unfolding allocpg
allocpg_granted n p s h =
    (record { fits = ground arith; small = ground arith }, ground arith, ground arith)

-- From a sound state, a request that carries the counter to 2 ^ 20 pages is granted, however little
-- memory there is.
pub allocpg_wraps :
    (n : ℕ) (p : Pages)
    → IsSound p
    → p.current + n ≡ 2 ^ 20
    → (allocpg n p).0 ≡ some ((p.membase + p.current * page_size) % 2 ^ 32)
unfolding allocpg
allocpg_wraps n p s h = ground arith

-- The addresses and sizes in pages that a row of requests is granted.
pub granted : List ℕ → Pages → List (ℕ × ℕ)
granted [] p = []
granted (n ∷ ns) p =
    let (r, p') = allocpg n p in
    let rest = granted ns p' in elim r [ none ↦ rest | some a ↦ (a, n) ∷ rest ]

abbrev pub total : List ℕ → ℕ
total [] = 0
total (n ∷ ns) = n + total ns

-- Regions that follow one another between `lo` and `hi`, and so do not overlap.
abbrev pub Follow : ℕ → ℕ → List (ℕ × ℕ) → Type 0
Follow lo hi [] = Unit {0}
Follow lo hi ((a, n) ∷ rs) = (lo ≤ a) × (a + n * page_size ≤ hi) × Follow (a + n * page_size) hi rs

Follow-weaken : (lo lo' hi : ℕ) (rs : List (ℕ × ℕ)) → lo' ≤ lo → Follow lo hi rs → Follow lo' hi rs
Follow-weaken lo lo' hi [] h f = tt
Follow-weaken lo lo' hi ((a, n) ∷ rs) h f = (omega arith, f.1, f.2)

allocpg_cases :
    (n : ℕ) (p : Pages)
    → IsSound p
    → p.current + n < 2 ^ 20
    → (allocpg n p ≡ (none, record p { current = p.current + n }))
      ⊎ ((allocpg n p
            ≡ (some (p.membase + p.current * page_size), record p { current = p.current + n }))
          × ((p.current + n) * page_size ≤ p.memsize))
unfolding allocpg
allocpg_cases n p s h = elim (Bool-cases (ltb p.memsize ((p.current + n) * page_size))) [
  | inl full ↦ inl (ground arith)
  | inr room ↦ inr (ground arith)
]

granted-refused :
    (n : ℕ) (ns : List ℕ) (p p' : Pages)
    → allocpg n p ≡ (none, p')
    → granted (n ∷ ns) p ≡ granted ns p'
unfolding granted
granted-refused n ns p p' e = rw (e, granted, e)

granted-taken :
    (n a : ℕ) (ns : List ℕ) (p p' : Pages)
    → allocpg n p ≡ (some a, p')
    → granted (n ∷ ns) p ≡ (a, n) ∷ granted ns p'
unfolding granted
granted-taken n a ns p p' e = rw (e, granted, e)

-- From a sound state, while the counter can take them: however requests are mixed, the regions granted
-- lie in the memory that was found and behind the pages taken before, and no two overlap.
pub granted-Follow :
    (ns : List ℕ) (p : Pages)
    → IsSound p
    → p.current + total ns < 2 ^ 20
    → Follow (p.membase + p.current * page_size) (p.membase + p.memsize) (granted ns p)
unfolding granted
granted-Follow [] p s h = tt
granted-Follow (n ∷ ns) p s h =
    let p' : Pages = record p { current = p.current + n } in
    let s' : IsSound p' = record { fits = s.fits; small = omega arith } in
    let rest = granted-Follow ns p' s' (omega arith) in
    let Goal = λ (rs : List (ℕ × ℕ)).
      Follow (p.membase + p.current * page_size) (p.membase + p.memsize) rs in
    elim (allocpg_cases n p s (omega arith)) [
      | inl e ↦
          subst Goal (sym (granted-refused n ns p p' e))
            (Follow-weaken _ _ _ (granted ns p') (omega arith) rest)
      | inr (e, room) ↦
          subst Goal (sym (granted-taken n _ ns p p' e))
            (omega arith, omega arith, Follow-weaken _ _ _ (granted ns p') (omega arith) rest)
    ]
