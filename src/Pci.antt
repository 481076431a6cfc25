-- ===== src/Pci.antt =====
-- rumppci.c: the hypercalls of the PCI bus. The 32-bit ports are the machine's and are parameters.
pub mod Irq
use rumpuser_baremetal.Base.{
  ℤ, ℕ, zero, suc, ◌+◌, ◌-◌, ◌*◌, ◌/◌, ◌%◌, ◌^◌, ◌≤◌, ◌<◌, ◌≡◌, refl, ◌⊎◌, false, Option, none,
  some, List, [], ◌∷◌, if◌then◌else◌, ◌>>=◌, ltb, leb, set?, get_elem?, length, bit_and, bit_or,
  arith, ap, ◌∙◌, Bool-cases, inl, inr,
}
use rumpuser_baremetal.Kernel.Page.{Pages, allocpg, page_size, IsSound, allocpg_granted}
use rumpuser_baremetal.Kernel.Memmap.{round_page, round_page-eq}

-- BMK_MAXINTR
abbrev pub maxintr : ℕ
maxintr = 32

unfoldable pub makeaddr : (bus dev fun reg : ℕ) → ℕ
makeaddr bus dev fun reg =
    bit_or
      (bit_or (bit_or (bit_or (2 ^ 31) (bus * 2 ^ 16 % 2 ^ 32)) (dev * 2 ^ 11 % 2 ^ 32))
        (fun * 2 ^ 8 % 2 ^ 32))
      (bit_and reg 0xfc)

module _ {S : Type 0} (outl : (port value : ℕ) → S → S) (inl : (port : ℕ) → S → ℕ × S) where
  unfoldable pub confread : (bus dev fun reg : ℕ) → S → ℕ × S
  unfolding makeaddr
  confread bus dev fun reg s = inl 0xcfc (outl 0xcf8 (makeaddr bus dev fun reg) s)

  unfoldable pub confwrite : (bus dev fun reg value : ℕ) → S → S
  unfolding makeaddr
  confwrite bus dev fun reg value s = outl 0xcfc value (outl 0xcf8 (makeaddr bus dev fun reg) s)

-- `rumpcomp_pci_irq_map`, with lines that are ints: its result, EGENERIC being 3, and the array `intrs`. `none` is a write
-- behind the array's end.
unfoldable pub irq_map : (intrline : ℤ) (cookie : ℕ) → List ℤ → Option (ℕ × List ℤ)
irq_map intrline cookie intrs =
    if ltb maxintr cookie
    then some (3, intrs)
    else (set? intrs cookie intrline >>= λ intrs'. some (0, intrs'))

-- `rumpcomp_pci_dmalloc`: the address of the memory, if there is some.
unfoldable pub dmalloc : (size : ℕ) → Pages → Option ℕ × Pages
dmalloc size p = allocpg (round_page size / page_size) p

-- `rumpcomp_pci_dmamem_map`: its result and the address of the first segment, if there is not a
-- second.
unfoldable pub dmamem_map : (ds_vacookie nseg : ℕ) → ℕ × Option ℕ
dmamem_map ds_vacookie nseg = if ltb 1 nseg then (1, none) else (0, some ds_vacookie)

set?-none : (xs : List ℤ) (i : ℕ) (v : ℤ) → length xs ≤ i → set? xs i v ≡ none
set?-none [] i v h = refl
set?-none (x ∷ xs) zero v h = absurd (omega arith)
set?-none (x ∷ xs) (suc i) v h = rw (set?-none xs i v (omega arith))

pub set?-some :
    (xs : List ℤ) (i : ℕ) (v : ℤ)
    → i < length xs
    → (ys : List ℤ) × (set? xs i v ≡ some ys) × (get_elem? ys i ≡ some v)
set?-some [] i v h = absurd (omega arith)
set?-some (x ∷ xs) zero v h = (v ∷ xs, refl, refl)
set?-some (x ∷ xs) (suc i) v h =
    let (ys, e, g) = set?-some xs i v (omega arith) in (x ∷ ys, rw e refl, g)

-- A line is stored where the cookie is below 32, and a cookie above 32 is refused. The cookie 32 is
-- not refused, and its write is behind the array's end.
pub irq_map_lem :
    (intrline : ℤ) (cookie : ℕ) (intrs : List ℤ)
    → length intrs ≡ maxintr
    → (cookie < maxintr)
        × ((intrs' : List ℤ) × (irq_map intrline cookie intrs ≡ some (0, intrs'))
            × (get_elem? intrs' cookie ≡ some intrline))
      ⊎ ((cookie ≡ maxintr) × (irq_map intrline cookie intrs ≡ none))
      ⊎ ((maxintr < cookie) × (irq_map intrline cookie intrs ≡ some (3, intrs)))
unfolding irq_map
irq_map_lem intrline cookie intrs h = elim (Bool-cases (ltb cookie 32)) [
  | inl low ↦
      let (ys, e, g) = set?-some intrs cookie intrline (ground arith) in
      let kept : ltb 32 cookie ≡ false = ground arith in
      inl (ground arith, (ys, rw (kept, e) refl, g))
  | inr high ↦ elim (Bool-cases (ltb 32 cookie)) [
    | inl refused ↦ inr (inr (ground arith, rw refused refl))
    | inr kept ↦
        inr (inl (ground arith, rw (kept, set?-none intrs cookie intrline (ground arith)) refl))
  ]
]

-- Memory for a device: in a sound state, and while the counter can take it, it is granted exactly if
-- its pages fit behind those taken so far; then it starts at a whole number of pages behind the first
-- and `size` bytes from there on lie within the memory.
pub dmalloc_lem :
    (size : ℕ) (p : Pages)
    → IsSound p
    → size + page_size ≤ 2 ^ 32
    → p.current + (size + (page_size - 1)) / page_size < 2 ^ 20
    → let n = (size + (page_size - 1)) / page_size in
      ((dmalloc size p).0 ≡ (
        if leb ((p.current + n) * page_size) p.memsize
        then some (p.membase + p.current * page_size)
        else none))
      × (size ≤ n * page_size)
      × ((dmalloc size p).1.current ≡ p.current + n)
unfolding dmalloc
dmalloc_lem size p s h room =
    let pages : round_page size / page_size ≡ (size + (page_size - 1)) / page_size =
      ap (λ (t : ℕ). t / page_size) (round_page-eq size h) ∙ omega arith in
    let (_, moved, granted) = allocpg_granted ((size + (page_size - 1)) / page_size) p s room in
    rw pages (granted, omega arith, moved)
