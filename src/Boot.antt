-- ===== src/Boot.antt =====
-- `bmk_main` (kernel.c): the memory, the processor, the scheduler and the interrupts are set up,
-- one after another. The application that may follow is not part of it.
pub mod Steps
pub mod Up
use rumpuser_baremetal.Base.{
  ℕ, Bool, true, false, Option, none, some, List, [], ◌∷◌, ◌==◌, if◌then◌else◌, ◌>>=◌, bit_and,
  ◌++◌,
}
use rumpuser_baremetal.Queue.{Tailq}
use rumpuser_baremetal.Queue.Slist.{Slist}
use rumpuser_baremetal.Heap.{Alloc}
use rumpuser_baremetal.Kernel.Page.{Pages}
use rumpuser_baremetal.Kernel.Memmap.{Entry, parsemem}
use rumpuser_baremetal.Kernel.Console.{Cons, puts}
use rumpuser_baremetal.Machine.{Machine, cpu_init}
use rumpuser_baremetal.Sched.{Sched}
use rumpuser_baremetal.Sched.Threads.{sched_init}
use rumpuser_baremetal.Intr.{Intr, isr_init}

-- MULTIBOOT_MEMORY_INFO
abbrev pub memory_info : ℕ
memory_info = 2

-- "rump kernel bare metal bootstrap\n\n"
abbrev pub banner_text : List ℕ
banner_text =
    b'r' ∷ b'u' ∷ b'm' ∷ b'p' ∷ 32 ∷ b'k' ∷ b'e' ∷ b'r' ∷ b'n' ∷ b'e' ∷ b'l' ∷ 32 ∷ b'b' ∷ b'a'
    ∷ b'r' ∷ b'e' ∷ 32 ∷ b'm' ∷ b'e' ∷ b't' ∷ b'a' ∷ b'l' ∷ 32 ∷ b'b' ∷ b'o' ∷ b'o' ∷ b't' ∷ b's'
    ∷ b't' ∷ b'r' ∷ b'a' ∷ b'p' ∷ 10 ∷ 10 ∷ []

-- "multiboot memory info not available\n"
abbrev pub no_info_text : List ℕ
no_info_text =
    b'm' ∷ b'u' ∷ b'l' ∷ b't' ∷ b'i' ∷ b'b' ∷ b'o' ∷ b'o' ∷ b't' ∷ 32 ∷ b'm' ∷ b'e' ∷ b'm' ∷ b'o'
    ∷ b'r' ∷ b'y' ∷ 32 ∷ b'i' ∷ b'n' ∷ b'f' ∷ b'o' ∷ 32 ∷ b'n' ∷ b'o' ∷ b't' ∷ 32 ∷ b'a' ∷ b'v'
    ∷ b'a' ∷ b'i' ∷ b'l' ∷ b'a' ∷ b'b' ∷ b'l' ∷ b'e' ∷ 10 ∷ []

module _ ⦃tq : Tailq⦄ ⦃al : Alloc⦄ ⦃sl : Slist⦄ where
  pub record Boot : Type 0 where
    pub cons : Cons
    pub intr : Intr

  -- From the memory map on: `begin`, `end`, `gdt`, `idt`, `insr`, `clock`, `init_thread` and
  -- `isr_fun` are the addresses of what they name. The allocator gets its memory from the pages that
  -- `parsemem` finds. `none` is a failed assertion or a panic.
  unfoldable pub set_up :
      (at : ℕ → Entry) (len begin end gdt idt insr clock init_thread isr_fun : ℕ)
      → Boot
      → Option Boot
  set_up at len begin end gdt idt insr clock init_thread isr_fun s = do
    pages ← parsemem at len begin end
    machine ← cpu_init gdt idt insr clock s.intr.machine
    sched ← sched_init init_thread (record s.intr.sched { heap = al.over pages s.intr.sched.heap })
    (_, intr) ← isr_init isr_fun (record s.intr { machine = machine; sched = sched })
    some (record s { intr = intr })

  -- The result tells whether everything was set up.
  unfoldable pub bmk_main :
      (flags : ℕ) (at : ℕ → Entry) (len begin end gdt idt insr clock init_thread isr_fun : ℕ)
      → Boot
      → Option (Bool × Boot)
  unfolding set_up
  bmk_main flags at len begin end gdt idt insr clock init_thread isr_fun s =
      puts (banner_text ++ 0 ∷ []) s.cons >>= λ cons.
      (let s' : Boot = record s { cons = cons } in
        if bit_and flags memory_info == 0
        then (puts (no_info_text ++ 0 ∷ []) cons >>= λ cons'.
            some (false, record s { cons = cons' }))
        else (set_up at len begin end gdt idt insr clock init_thread isr_fun s' >>= λ s''.
            some (true, s'')))
