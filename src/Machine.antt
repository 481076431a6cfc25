-- ===== src/Machine.antt =====
-- arch/i386/machdep.c, with the interrupt depth of include/arch/i386/md.h: the descriptors, the
-- interrupt controllers and the timer. The machine is the tables and the values that were written
-- to its ports; the addresses of the assembler's entry points are parameters.
pub mod Masks
use rumpuser_baremetal.Base.{
  ℕ, zero, suc, ◌+◌, ◌-◌, ◌*◌, ◌/◌, ◌%◌, ◌^◌, Bool, true, false, Option, none, some, List, [], ◌∷◌,
  ◌++◌, ◌==◌, if◌then◌else◌, ◌>>=◌, ltb, bit_and,
}

-- `struct gate_descriptor`
pub record Gate : Type 0 where
  pub looffset : ℕ
  pub selector : ℕ
  pub stkcpy : ℕ
  pub xx : ℕ
  pub kind : ℕ
  pub dpl : ℕ
  pub p : ℕ
  pub hioffset : ℕ

-- `struct segment_descriptor`
pub record Segment : Type 0 where
  pub lolimit : ℕ
  pub lobase : ℕ
  pub kind : ℕ
  pub dpl : ℕ
  pub p : ℕ
  pub hilimit : ℕ
  pub xx : ℕ
  pub def32 : ℕ
  pub gran : ℕ
  pub hibase : ℕ

-- The offset's two fields have 16 bits each.
unfoldable pub fillgate : ℕ → Gate
fillgate fun = record {
  hioffset = fun / 2 ^ 16 % 2 ^ 16;
  looffset = fun % 2 ^ 16;
  selector = 8;
  stkcpy = 0;
  xx = 0;
  kind = 14;
  dpl = 0;
  p = 1;
}

unfoldable pub fillsegment : ℕ → Segment
fillsegment kind = record {
  lobase = 0;
  hibase = 0;
  lolimit = 0xffff;
  hilimit = 0xf;
  kind = kind;
  dpl = 0;
  p = 1;
  xx = 0;
  def32 = 1;
  gran = 1;
}

-- The port and the value of each `outb`, in their order, behind those before; `enabled` is the
-- processor's interrupt flag.
pub record Machine : Type 0 where
  pub gdt : ℕ → Segment
  pub idt : ℕ → Gate
  pub lgdt : ℕ × ℕ
  pub lidt : ℕ × ℕ
  pub outs : List (ℕ × ℕ)
  pub spldepth : ℕ
  pub enabled : Bool

abbrev pub pic1_cmd : ℕ
pic1_cmd = 0x20

abbrev pub pic1_data : ℕ
pic1_data = 0x21

abbrev pub pic2_cmd : ℕ
pic2_cmd = 0xa0

abbrev pub pic2_data : ℕ
pic2_data = 0xa1

unfoldable pub outb : ℕ → ℕ → Machine → Machine
outb port value c = record c { outs = c.outs ++ (port, value) ∷ [] }

unfoldable pub splhigh : Machine → Machine
splhigh c = record c { spldepth = c.spldepth + 1; enabled = false }

-- `none` is the panic.
unfoldable pub spl0 : Machine → Option Machine
spl0 c =
    if c.spldepth == 0
    then none
    else some (record c {
      spldepth = c.spldepth - 1;
      enabled = if c.spldepth - 1 == 0 then true else c.enabled;
    })

-- `0xff & ~(1<<n)`, on the 8 bits that are written.
unfoldable pub all_but : ℕ → ℕ
all_but n = bit_and 0xff (2 ^ 32 - 1 - 2 ^ n)

unfoldable pub initpic : Machine → Machine
unfolding outb
initpic c =
    let c₁ = outb pic1_data 1 (outb pic1_data 4 (outb pic1_data 32 (outb pic1_cmd 0x11 c))) in
    let c₂ = outb pic1_data (all_but 2) c₁ in
    let c₃ = outb pic2_data 1 (outb pic2_data 2 (outb pic2_data 40 (outb pic2_cmd 0x11 c₂))) in
    outb pic2_data 0xff c₃

abbrev pub set_gate : ℕ → Gate → Machine → Machine
set_gate i g c = record c { idt = λ j. if j == i then g else c.idt j }

abbrev pub set_segment : ℕ → Segment → Machine → Machine
set_segment i g c = record c { gdt = λ j. if j == i then g else c.gdt j }

-- The loop over the first 32 gates.
abbrev pub fill_gates : (insr : ℕ) → Machine → Machine
fill_gates insr c = record c { idt = λ j. if ltb j 32 then fillgate insr else c.idt j }

abbrev pub timer_count : ℕ
timer_count = 1193182 / 100

-- `bmk_cpu_init`, with the addresses of `gdt`, `idt`, `bmk_cpu_insr` and `bmk_cpu_isr_clock`; a
-- segment descriptor and a gate descriptor have 8 bytes each.
unfoldable pub cpu_init : (gdt idt insr clock : ℕ) → Machine → Option Machine
unfolding initpic outb spl0
cpu_init gdt idt insr clock c =
    let c₁ = set_segment 2 (fillsegment 19) (set_segment 1 (fillsegment 27) c) in
    let c₂ : Machine = record c₁ { lgdt = (3 * 8 - 1, gdt); lidt = (256 * 8 - 1, idt) } in
    let c₃ = set_gate 32 (fillgate clock) (initpic (fill_gates insr c₂)) in
    let c₄ = outb 0x40 (timer_count % 2 ^ 8) (outb 0x43 0x34 c₃) in
    spl0 (outb 0x40 (timer_count / 2 ^ 8) c₄)

-- `bmk_cpu_intr_init`, with the addresses of `bmk_cpu_isr_10` and `bmk_cpu_isr_11`: its result,
-- EGENERIC being 3. The mask is `0xff & ~(1<<(intr-8))`.
unfoldable pub intr_init : (isr_10 isr_11 intr : ℕ) → Machine → ℕ × Machine
unfolding outb
intr_init isr_10 isr_11 intr c =
    if ltb intr 8
    then (3, c)
    else if intr == 10
    then (0, outb pic2_data (all_but (intr - 8)) (set_gate 42 (fillgate isr_10) c))
    else if intr == 11
    then (0, outb pic2_data (all_but (intr - 8)) (set_gate 43 (fillgate isr_11) c))
    else (3, c)

-- `bmk_cpu_nanohlt`, up to `hlt` and behind it: the clock's interrupt is on in between.
unfoldable pub nanohlt_begin : Machine → Machine
unfolding outb
nanohlt_begin c = outb pic1_data (bit_and 0xff (2 ^ 32 - 1 - 5)) c

unfoldable pub nanohlt_end : Machine → Machine
unfolding outb
nanohlt_end c = outb pic1_data (all_but 2) c
