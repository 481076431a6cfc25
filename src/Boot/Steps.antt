-- ===== src/Boot/Steps.antt =====
-- What the parts of `bmk_main` leave, one by one.
use rumpuser_baremetal.Base.{
  ℕ, ◌+◌, ◌-◌, ◌*◌, ◌/◌, ◌%◌, ◌^◌, ◌≤◌, ◌<◌, ◌≡◌, refl, Bool, true, false, some, List, [], ◌∷◌,
  ◌++◌, ◌==◌, if◌then◌else◌, arith, length, has, ap, ◌∙◌, ltb, negsuc, not, ◌&&◌, replicate, drop,
}
use rumpuser_baremetal.Queue.{Tailq}
use rumpuser_baremetal.Queue.Slist.{Slist}
use rumpuser_baremetal.Heap.{Alloc}
use rumpuser_baremetal.Subr.Strncpy.{IsText, strncpy_fits}
use rumpuser_baremetal.Machine.{
  Machine, cpu_init, spl0, set_segment, fillsegment, set_gate, fillgate, initpic, fill_gates, outb,
  timer_count,
}
use rumpuser_baremetal.Sched.{
  Sched, is_runnable, set_runnable, set_thread, Thread, no_flags, sizeof_thread, thread_stacksize,
}
use rumpuser_baremetal.Sched.Threads.{sched_init}
use rumpuser_baremetal.Sched.Create.{IsCreated, create_own-IsCreated}
use rumpuser_baremetal.Intr.{Intr, isr_init}

-- A text by a test that runs.
abbrev pub is_text : List ℕ → Bool
is_text [] = true
is_text (c ∷ str) = not (c == 0) && ltb c 256 && is_text str

pub text_lem : (str : List ℕ) → is_text str ≡ true → IsText str
text_lem [] h = tt
text_lem (c ∷ str) h = (ground arith, ground arith, text_lem str (ground arith))

spl0_lem :
    (c : Machine)
    → c.spldepth ≡ 1
    → (c' : Machine) × (spl0 c ≡ some c') × (c'.spldepth ≡ 0) × (c'.enabled ≡ true)
unfolding spl0
spl0_lem c h =
    (record c { spldepth = c.spldepth - 1; enabled = true }, ground arith, omega arith, refl)

-- The machine at the `spl0` of `bmk_cpu_init`.
abbrev before_spl0 : (gdt idt insr clock : ℕ) → Machine → Machine
unfolding outb initpic fillsegment fillgate
before_spl0 gdt idt insr clock c =
    let c₁ = set_segment 2 (fillsegment 19) (set_segment 1 (fillsegment 27) c) in
    let c₂ : Machine = record c₁ { lgdt = (3 * 8 - 1, gdt); lidt = (256 * 8 - 1, idt) } in
    let c₃ = set_gate 32 (fillgate clock) (initpic (fill_gates insr c₂)) in
    let c₄ = outb 0x40 (timer_count % 2 ^ 8) (outb 0x43 0x34 c₃) in
    outb 0x40 (timer_count / 2 ^ 8) c₄

pub cpu_init_lem :
    (gdt idt insr clock : ℕ) (c : Machine)
    → c.spldepth ≡ 1
    → (c' : Machine) × (cpu_init gdt idt insr clock c ≡ some c')
      × (c'.spldepth ≡ 0)
      × (c'.enabled ≡ true)
unfolding cpu_init outb initpic before_spl0
cpu_init_lem gdt idt insr clock c h =
    let (c', e, low, on) = spl0_lem (before_spl0 gdt idt insr clock c) h in (c', e, low, on)

abbrev init_text : List ℕ
init_text = b'i' ∷ b'n' ∷ b'i' ∷ b't' ∷ []

init_text-IsText : IsText init_text
init_text-IsText = text_lem init_text refl

abbrev pub netisr_text : List ℕ
netisr_text = b'n' ∷ b'e' ∷ b't' ∷ b'i' ∷ b's' ∷ b'r' ∷ []

netisr_text-IsText : IsText netisr_text
netisr_text-IsText = text_lem netisr_text refl

module _ ⦃tq : Tailq⦄ ⦃al : Alloc⦄ ⦃sl : Slist⦄ where
  abbrev inited : (t : ℕ) (name : List ℕ) → Sched → Sched
  inited t name s =
      let b : Thread = record (s.thread t) {
        name = name;
        flags = no_flags;
        wakeup_time = negsuc 0;
      } in
      let s' = set_runnable t (set_thread t b s) in
      record s' { threads = tq.insert_tail t s'.threads; current = t }

  pub sched_init_lem :
      (t : ℕ) (s : Sched)
      → length (s.thread t).name ≡ 16
      → tq.items s.threads ≡ []
      → (s' : Sched) × (sched_init t s ≡ some s')
        × (tq.items s'.threads ≡ t ∷ [])
        × (s'.current ≡ t)
        × (is_runnable t s' ≡ true)
        × (s'.heap ≡ s.heap)
  unfolding sched_init set_runnable
  sched_init_lem t s named empty =
      let copied =
        strncpy_fits (s.thread t).name init_text [] 15 init_text-IsText (omega arith)
          (omega (arith, named)) in
      let out : has t (tq.items s.threads) ≡ false = rw empty refl in
      (
        inited t (init_text ++ replicate (15 + 1 - 4) 0 ++ drop (15 + 1) (s.thread t).name) s,
        rw copied refl,
        tq.items-insert_tail t s.threads out ∙ ap (λ (ts : List ℕ). ts ++ t ∷ []) empty,
        refl,
        ground arith,
        refl,
      )

  -- The interrupt thread, in front of the threads that there are.
  pub isr_init_lem :
      (isr_fun t base : ℕ) (h₁ h₂ : al.State) (s : Intr)
      → al.alloc sizeof_thread s.sched.heap ≡ (some t, h₁)
      → al.alloc thread_stacksize h₁ ≡ (some base, h₂)
      → has t (tq.items s.sched.threads) ≡ false
      → 8 ≤ base
      → base + thread_stacksize < 2 ^ 32
      → (s' : Intr) × (isr_init isr_fun s ≡ some (0, s'))
        × IsCreated s.sched s'.sched t netisr_text isr_fun 0 base thread_stacksize false
        × (s'.sched.heap ≡ h₂)
        × (s'.isr_thread ≡ t)
        × (s'.isr_todo ≡ s.isr_todo)
        × (s'.machine ≡ s.machine)
        × ((i : ℕ) → i < 32 → sl.items (s'.isr_ih i) ≡ [])
  unfolding isr_init
  isr_init_lem isr_fun t base h₁ h₂ s e₁ e₂ fresh low fits =
      let (sched, e, made, taken) =
        create_own-IsCreated netisr_text [] 0 0 isr_fun 0 s.sched t base h₁ h₂ netisr_text-IsText
          (omega arith) e₁ e₂ fresh low fits in
      let there : (t == 0) ≡ false =
        ground (arith, (al.alloc_fresh sizeof_thread t s.sched.heap h₁ e₁).0) in
      let s' : Intr = record s {
        isr_ih = λ i. if ltb i 32 then sl.init else s.isr_ih i;
        isr_thread = t;
        sched = sched;
      } in
      (
        s',
        rw (e, there) refl,
        made,
        taken,
        refl,
        refl,
        refl,
        λ i small. (let below : ltb i 32 ≡ true = ground arith in rw below sl.items-init),
      )
