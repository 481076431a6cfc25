-- ===== src/Intr.antt =====
-- intr.c: the interrupts that are pending, their handlers, and the thread that calls them. The
-- numbers of interrupts are below 32; the handlers and the upcalls are the rump kernel's and are
-- parameters.
pub mod Held
pub mod Raise
pub mod Establish
pub mod Wakes
use rumpuser_baremetal.Base.{
  ℕ, zero, suc, ◌+◌, ◌-◌, ◌%◌, ◌^◌, Bool, true, false, not, ◌||◌, Option, none, some, List, [], ◌∷◌,
  ◌==◌, if◌then◌else◌, ◌>>=◌, ltb, bit_or, ℤ, pos, negsuc,
}
use rumpuser_baremetal.Bits.Mask.{is_set}
use rumpuser_baremetal.Queue.{Tailq}
use rumpuser_baremetal.Queue.Slist.{Slist}
use rumpuser_baremetal.Heap.{Alloc}
use rumpuser_baremetal.Machine.{Machine, outb, splhigh, spl0, intr_init, pic1_cmd, pic2_cmd}
use rumpuser_baremetal.Sched.{Sched, wake, block}
use rumpuser_baremetal.Sched.Threads.{xmalloc, create}

-- `struct intrhand`, less its list entry.
pub record Intrhand : Type 0 where
  pub ih_fun : ℕ
  pub ih_arg : ℕ

-- sizeof(struct intrhand) on i386.
abbrev pub sizeof_intrhand : ℕ
sizeof_intrhand = 12

-- An int as an unsigned one.
abbrev pub as_unsigned : ℤ → ℕ
as_unsigned (pos n) = n
as_unsigned (negsuc n) = 2 ^ 32 - 1 - n

abbrev pub netisr_name : List ℕ
netisr_name = b'n' ∷ b'e' ∷ b't' ∷ b'i' ∷ b's' ∷ b'r' ∷ 0 ∷ []

-- How a turn of the loop of `isr` ends: it has called handlers, or it finds nothing to do and is at
-- its call of `bmk_sched`. `stray` says that it shows "stray interrupt".
pub data Turn : Type 0 where
  called : (stray : Bool) → Turn
  blocked : Turn

module _ ⦃tq : Tailq⦄ ⦃al : Alloc⦄ ⦃sl : Slist⦄ where
  -- The statics of intr.c, the handlers by their addresses, the threads and the machine.
  pub record Intr : Type 0 where
    pub isr_ih : ℕ → sl.Head
    pub isr_todo : ℕ
    pub isr_thread : ℕ
    pub hand : ℕ → Intrhand
    pub sched : Sched
    pub machine : Machine

  -- `bmk_isr`, which an interrupt's entry point calls.
  unfoldable pub isr : (which : ℕ) → Intr → Intr
  unfolding wake
  isr which s = record s {
    isr_todo = bit_or s.isr_todo (2 ^ which);
    sched = wake s.isr_thread s.sched;
  }

  -- Interrupts that come at one point of the code. While the processor does not take interrupts they
  -- are held off, to come at a later point.
  unfoldable pub arrive : List ℕ → Intr → Intr
  unfolding isr
  arrive [] s = s
  arrive (w ∷ ws) s = arrive ws (if s.machine.enabled then isr w s else s)

  -- `bmk_isr_netinit`, with the addresses of `bmk_cpu_isr_10` and `bmk_cpu_isr_11`. `none` is the
  -- panic of `bmk_xmalloc`, or an access behind the end of `isr_ih`.
  unfoldable pub isr_netinit : (isr_10 isr_11 func arg : ℕ) (intr : ℤ) → Intr → Option (ℕ × Intr)
  unfolding xmalloc intr_init
  isr_netinit isr_10 isr_11 func arg intr s =
      let i = as_unsigned intr in
      if ltb 32 i
      then some (3, s)
      else (xmalloc sizeof_intrhand s.sched >>= λ (ih, sched).
          let (error, machine) = intr_init isr_10 isr_11 i s.machine in
          if ih == 0
          then some (1, record s { sched = sched })
          else if not (error == 0)
          then some (
            error,
            record s { sched = record sched { heap = al.free ih sched.heap }; machine = machine },
          )
          else if ltb i 32
          then some (
            0,
            record s {
              sched = sched;
              machine = machine;
              hand = λ h. if h == ih then record { ih_fun = func; ih_arg = arg } else s.hand h;
              isr_ih = λ j. if j == i then sl.insert_head ih (s.isr_ih i) else s.isr_ih j;
            },
          )
          else none)

  -- `bmk_isr_init`, with the address of `isr`.
  unfoldable pub isr_init : (isr_fun : ℕ) → Intr → Option (ℕ × Intr)
  unfolding create
  isr_init isr_fun s = do
    (t, sched) ← create netisr_name 0 0 isr_fun 0 0 0 s.sched
    let s' = record s {
      isr_ih = λ i. if ltb i 32 then sl.init else s.isr_ih i;
      isr_thread = t;
      sched = sched;
    }
    some (if t == 0 then 3 else 0, s')

  -- The rump kernel: its upcalls, and what a handler does, with its answer.
  module _ (hyp_schedule hyp_unschedule newlwp : Intr → Intr)
      (call : (fun arg : ℕ) → Intr → ℕ × Intr) where
    -- The thread's start, up to its loop.
    unfoldable pub isr_enter : Intr → Intr
    isr_enter s = hyp_unschedule (newlwp (hyp_schedule s))

    -- The SLIST_FOREACH: the handlers of an interrupt are called until one answers.
    unfoldable pub call_each : List ℕ → (rv : ℕ) → Intr → ℕ × Intr
    call_each [] rv s = (rv, s)
    call_each (ih ∷ ihs) rv s =
        let (rv', s') = call (s.hand ih).ih_fun (s.hand ih).ih_arg s in
        let rest = call_each ihs rv' s' in if rv' == 0 then rest else (rv', s')

    unfoldable pub serve : (i rv : ℕ) → Intr → ℕ × Intr
    unfolding call_each
    serve i rv s =
        let s₁ = hyp_schedule s in
        let (rv', s₂) = call_each (sl.items (s₁.isr_ih i)) rv s₁ in (rv', hyp_unschedule s₂)

    -- The loop over the bits, `n` of them from the bit `i` on.
    unfoldable pub bit_loop : (n i isrcopy rv : ℕ) → Intr → ℕ × Intr
    unfolding serve
    bit_loop zero i isrcopy rv s = (rv, s)
    bit_loop (suc n) i isrcopy rv s =
        let (rv', s') = if is_set i isrcopy then serve i rv s else (rv, s) in
        bit_loop n (i + 1) isrcopy rv' s'

    -- The bits of `isrcopy`, and the acknowledgement.
    unfoldable pub isr_serve : (isrcopy : ℕ) → Intr → Turn × Intr
    isr_serve isrcopy s =
        let (rv, s') = bit_loop 32 0 isrcopy 0 s in
        let acked = outb pic1_cmd 0x20 (outb pic2_cmd 0x20 s'.machine) in
        (called (rv == 0), record s' { machine = acked })

    -- The loop's `if` with pending interrupts, behind `isrcopy`; interrupts come before and behind
    -- `spl0`.
    unfoldable pub isr_busy : (before behind : List ℕ) (isrcopy : ℕ) → Intr → Option (Turn × Intr)
    isr_busy before behind isrcopy s =
        let s' = arrive before (record s { isr_todo = 0 }) in
        spl0 s'.machine >>= λ c.
        some (isr_serve isrcopy (arrive behind (record s' { machine = c })))

    -- Its `else`, where nothing is pending.
    unfoldable pub isr_idle : (before : List ℕ) → Intr → Option (Turn × Intr)
    isr_idle before s =
        let s' = arrive before (record s { sched = block s.isr_thread s.sched }) in
        spl0 s'.machine >>= λ c. some (blocked, record s' { machine = c })

    -- One turn of the loop of `isr`; `none` is the panic of `spl0`. Interrupts come in it: `come 0`
    -- behind `splhigh`, `come 1` behind the test of `isr_todo`, `come 2` before `spl0` and `come 3`
    -- behind it. Those that come in the calls of the rump kernel are part of those calls.
    unfoldable pub isr_turn : (come : ℕ → List ℕ) → Intr → Option (Turn × Intr)
    isr_turn come s =
        let s₁ = arrive (come 0) (record s { machine = splhigh s.machine }) in
        let s₂ = arrive (come 1) s₁ in
        if s₁.isr_todo == 0 then isr_idle (come 2) s₂ else isr_busy (come 2) (come 3) s₁.isr_todo s₂
