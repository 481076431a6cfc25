-- ===== src/Queue/Lists.antt =====
-- Lists of distinct addresses: what `erase` and a move to the end do to membership and positions.
use rumpuser_baremetal.Base.{
  ℕ, suc, ◌≡◌, refl, ◌||◌, not, ◌&&◌, false, List, [], ◌∷◌, ◌++◌, has, erase, Distinct, arith, ◌==◌,
  if◌then◌else◌, Bool-cases, inl, inr,
}

pub has-append : (a : ℕ) (xs ys : List ℕ) → has a (xs ++ ys) ≡ (has a xs || has a ys)
has-append a [] ys = refl
has-append a (x ∷ xs) ys = ground (arith, has-append a xs ys)

-- In a list of distinct addresses an erased one is gone, and the others stay.
pub has-erase :
    (a b : ℕ) (xs : List ℕ) → Distinct xs → has a (erase b xs) ≡ (not (a == b) && has a xs)
has-erase a b [] d = ground arith
has-erase a b (x ∷ xs) d = ground (arith, has-erase a b xs d.1)

pub Distinct-erase : (a : ℕ) (xs : List ℕ) → Distinct xs → Distinct (erase a xs)
Distinct-erase a [] d = tt
Distinct-erase a (x ∷ xs) d = elim (Bool-cases (a == x)) [
  | inl e ↦ rw e d.1
  | inr n ↦ rw n (ground (arith, has-erase x a xs d.1), Distinct-erase a xs d.1)
]

pub Distinct-append_one :
    (a : ℕ) (xs : List ℕ) → Distinct xs → has a xs ≡ false → Distinct (xs ++ a ∷ [])
Distinct-append_one a [] d h = (refl, tt)
Distinct-append_one a (x ∷ xs) d h =
    (ground (arith, has-append x xs (a ∷ [])), Distinct-append_one a xs d.1 (ground arith))

-- How many addresses stand before `a`.
abbrev pub position : ℕ → List ℕ → ℕ
position a [] = 0
position a (x ∷ xs) = if a == x then 0 else suc (position a xs)

pub erase_out : (x : ℕ) (xs : List ℕ) → has x xs ≡ false → erase x xs ≡ xs
erase_out x [] h = refl
erase_out x (y ∷ ys) h = ground (arith, erase_out x ys)
