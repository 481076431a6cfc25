-- ===== src/Heap.antt =====
-- What the scheduler and the locks use of the allocator (memalloc.c), as an interface.
use rumpuser_baremetal.Base.{
  ℕ, ◌+◌, ◌<◌, ◌≡◌, ◌≢◌, ◌&&◌, not, true, false, Bool, Option, some, List, [], ◌∷◌, has, ◌==◌,
  arith, if◌then◌else◌, Bool-cases, inl, inr,
}
use rumpuser_baremetal.Kernel.Page.{Pages}

-- `live h p` says that the memory at `p` is in use: it was handed out and not given back, or it was
-- never the allocator's to give.
pub record Alloc : Type 1 where
  pub State : Type 0
  pub alloc : ℕ → State → Option ℕ × State
  pub free : ℕ → State → State
  pub live : State → ℕ → Bool
  -- The allocator once `bmk_allocpg` has these pages.
  pub over : Pages → State → State
  pub alloc_fresh :
      (n p : ℕ) (h h' : State)
      → alloc n h ≡ (some p, h')
      → (p ≢ 0) × (live h p ≡ false) × (live h' p ≡ true)
  pub alloc_frame :
      (n p q : ℕ) (h h' : State) → alloc n h ≡ (some p, h') → q ≢ p → live h' q ≡ live h q
  pub free_frame : (p q : ℕ) (h : State) → q ≢ p → live (free p h) q ≡ live h q
  pub free_dead : (p : ℕ) (h : State) → live (free p h) p ≡ false

-- Addresses that grow without end are such an allocator: the state is the list of those in use.
abbrev pub bump : List ℕ → ℕ
bump [] = 0x10000
bump (x ∷ xs) = x + 0x10000 + bump xs

abbrev pub without : ℕ → List ℕ → List ℕ
without p [] = []
without p (x ∷ xs) = let rest = without p xs in if x == p then rest else x ∷ rest

has_le-bump : (x : ℕ) (xs : List ℕ) → has x xs ≡ true → x < bump xs
has_le-bump x [] h = ground arith
has_le-bump x (y ∷ xs) h = elim (Bool-cases (x == y)) [
  | inl e ↦ ground arith
  | inr e ↦ ground (arith, has_le-bump x xs (ground arith))
]

bump_fresh : (xs : List ℕ) → has (bump xs) xs ≡ false
bump_fresh xs = elim (Bool-cases (has (bump xs) xs)) [
  | inl h ↦ ground (arith, has_le-bump (bump xs) xs h)
  | inr h ↦ h
]

bump_pos : (xs : List ℕ) → bump xs ≢ 0
bump_pos [] = omega arith
bump_pos (x ∷ xs) = omega arith

has-without : (p q : ℕ) (xs : List ℕ) → has q (without p xs) ≡ (not (q == p) && has q xs)
has-without p q [] = ground arith
has-without p q (x ∷ xs) = ground (arith, has-without p q xs)

abbrev pub take_bump : ℕ → List ℕ → Option ℕ × List ℕ
take_bump n h = (some (bump h), bump h ∷ h)

pub take_bump_fresh :
    (n p : ℕ) (h h' : List ℕ)
    → take_bump n h ≡ (some p, h')
    → (p ≢ 0) × (has p h ≡ false) × (has p h' ≡ true)
take_bump_fresh n p h h' e = ground (arith, e, bump_fresh h, bump_pos h)

pub take_bump_frame :
    (n p q : ℕ) (h h' : List ℕ) → take_bump n h ≡ (some p, h') → q ≢ p → has q h' ≡ has q h
take_bump_frame n p q h h' e d = ground (arith, e)

pub without_frame : (p q : ℕ) (h : List ℕ) → q ≢ p → has q (without p h) ≡ has q h
without_frame p q h d = ground (arith, has-without p q h)

pub without_dead : (p : ℕ) (h : List ℕ) → has p (without p h) ≡ false
without_dead p h = ground (arith, has-without p p h)

abbrev pub list_alloc : Alloc
list_alloc = record {
  State = List ℕ;
  alloc = take_bump;
  free = without;
  live = λ h p. has p h;
  over = λ p h. h;
  alloc_fresh = take_bump_fresh;
  alloc_frame = take_bump_frame;
  free_frame = without_frame;
  free_dead = without_dead;
}
