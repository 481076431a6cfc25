-- ===== src/Machine/Masks.antt =====
-- What the writes of machdep.c leave in the interrupt controllers' masks, and the gates' offsets.
use rumpuser_baremetal.Base.{
  ℕ, ◌+◌, ◌*◌, ◌/◌, ◌%◌, ◌^◌, ◌<◌, ◌≡◌, ◌≢◌, refl, ◌⊎◌, inl, inr, Bool, false, List, [], ◌∷◌, ◌++◌,
  ◌==◌, if◌then◌else◌, arith, Bool-cases, ltb,
}
use rumpuser_baremetal.Machine.{Machine, fillgate, outb, all_but, intr_init, pic2_data}

-- The value that was written last to a port.
abbrev pub last_out : ℕ → ℕ → List (ℕ × ℕ) → ℕ
last_out port v [] = v
last_out port v ((p, x) ∷ outs) = last_out port (if p == port then x else v) outs

last_out-append :
    (port v q x : ℕ) (outs : List (ℕ × ℕ))
    → last_out port v (outs ++ (q, x) ∷ []) ≡ (if q == port then x else last_out port v outs)
last_out-append port v q x [] = refl
last_out-append port v q x ((p, y) ∷ outs) =
    last_out-append port (if p == port then y else v) q x outs

-- Is the interrupt `8 + n` open in the second controller's mask?
abbrev pub is_open : ℕ → Machine → Bool
is_open n c = (last_out pic2_data 0xff c.outs / 2 ^ n) % 2 == 0

-- The gate of `intr` has its routine, and of the interrupts 10 and 11 it alone is open.
pub record IsOpened (intr routine : ℕ) (c : Machine) : Type 0 where
  pub gate : c.idt (32 + intr) ≡ fillgate routine
  pub ten : is_open 2 c ≡ (intr == 10)
  pub eleven : is_open 3 c ≡ (intr == 11)

ten_alone : (isr_10 isr_11 : ℕ) (c : Machine) → IsOpened 10 isr_10 (intr_init isr_10 isr_11 10 c).1
unfolding intr_init outb all_but
ten_alone isr_10 isr_11 c = record {
  gate = refl;
  ten = rw (last_out-append pic2_data 0xff pic2_data 251 c.outs) refl;
  eleven = rw (last_out-append pic2_data 0xff pic2_data 251 c.outs) refl;
}

eleven_alone :
    (isr_10 isr_11 : ℕ) (c : Machine) → IsOpened 11 isr_11 (intr_init isr_10 isr_11 11 c).1
unfolding intr_init outb all_but
eleven_alone isr_10 isr_11 c = record {
  gate = refl;
  ten = rw (last_out-append pic2_data 0xff pic2_data 247 c.outs) refl;
  eleven = rw (last_out-append pic2_data 0xff pic2_data 247 c.outs) refl;
}

pub result_ten : (isr_10 isr_11 : ℕ) (c : Machine) → (intr_init isr_10 isr_11 10 c).0 ≡ 0
unfolding intr_init
result_ten isr_10 isr_11 c = refl

pub result_eleven : (isr_10 isr_11 : ℕ) (c : Machine) → (intr_init isr_10 isr_11 11 c).0 ≡ 0
unfolding intr_init
result_eleven isr_10 isr_11 c = refl

pub result_other :
    (isr_10 isr_11 intr : ℕ) (c : Machine)
    → (intr == 10) ≡ false
    → (intr == 11) ≡ false
    → intr_init isr_10 isr_11 intr c ≡ (3, c)
unfolding intr_init
result_other isr_10 isr_11 intr c n m = elim (Bool-cases (ltb intr 8)) [
  | inl low ↦ rw low refl
  | inr high ↦ rw (high, n, m) refl
]

-- An interrupt is set up where it is 10 or 11: the gate behind the first 32 of that number gets its
-- routine, and of the two that interrupt alone is open in the second controller, whichever were open
-- before. For any other number the result is EGENERIC and nothing changes.
pub intr_init_lem :
    (isr_10 isr_11 intr : ℕ) (c : Machine)
    → ((intr ≡ 10)
        × ((intr_init isr_10 isr_11 intr c).0 ≡ 0)
        × IsOpened intr isr_10 (intr_init isr_10 isr_11 intr c).1)
      ⊎ (((intr ≡ 11)
            × ((intr_init isr_10 isr_11 intr c).0 ≡ 0)
            × IsOpened intr isr_11 (intr_init isr_10 isr_11 intr c).1)
          ⊎ ((intr ≢ 10) × (intr ≢ 11) × (intr_init isr_10 isr_11 intr c ≡ (3, c))))
intr_init_lem isr_10 isr_11 intr c = elim (Bool-cases (intr == 10)) [
  | inl e ↦
      let same : intr ≡ 10 = ground arith in
      inl (same, rw same (result_ten isr_10 isr_11 c), rw same (ten_alone isr_10 isr_11 c))
  | inr n ↦ elim (Bool-cases (intr == 11)) [
    | inl e ↦
        let same : intr ≡ 11 = ground arith in
        inr (
          inl
            (same, rw same (result_eleven isr_10 isr_11 c), rw same (eleven_alone isr_10 isr_11 c)))
    | inr m ↦ inr (inr (ground arith, ground arith, result_other isr_10 isr_11 intr c n m))
  ]
]

-- The two halves of a gate's offset are the routine's address.
pub fillgate-offset :
    (fun : ℕ) → fun < 2 ^ 32 → (fillgate fun).hioffset * 2 ^ 16 + (fillgate fun).looffset ≡ fun
unfolding fillgate
fillgate-offset fun h = omega arith
