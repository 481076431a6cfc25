-- ===== src/Boot/Up.antt =====
-- What `bmk_main` leaves when all goes well.
use rumpuser_baremetal.Base.{ℕ, ◌+◌, ◌^◌, ◌≤◌, ◌<◌, ◌≡◌, ◌≢◌, true, some, [], ◌∷◌, length}
use rumpuser_baremetal.Queue.{Tailq}
use rumpuser_baremetal.Queue.Slist.{Slist}
use rumpuser_baremetal.Heap.{Alloc}
use rumpuser_baremetal.Kernel.Memmap.{Entry, behind_image}
use rumpuser_baremetal.Kernel.Screen.{InScreen}
use rumpuser_baremetal.Machine.{Machine}
use rumpuser_baremetal.Sched.{is_runnable, sizeof_thread, thread_stacksize}
use rumpuser_baremetal.Intr.{Intr}
use rumpuser_baremetal.Boot.{Boot}

module _ ⦃tq : Tailq⦄ ⦃al : Alloc⦄ ⦃sl : Slist⦄ where
  -- The program is up: its allocator has the state `h₂`, `init` runs, the interrupt thread `t`
  -- can run, no interrupt is pending, no interrupt has a handler, and the processor takes
  -- interrupts.
  pub record IsUp (init_thread t : ℕ) (h₂ : al.State) (s : Boot) : Type 0 where
    pub heap : s.intr.sched.heap ≡ h₂
    pub threads : tq.items s.intr.sched.threads ≡ t ∷ init_thread ∷ []
    pub current : s.intr.sched.current ≡ init_thread
    pub init_runs : is_runnable init_thread s.intr.sched ≡ true
    pub isr_thread : s.intr.isr_thread ≡ t
    pub isr_runs : is_runnable t s.intr.sched ≡ true
    pub quiet : s.intr.isr_todo ≡ 0
    pub handlers : (i : ℕ) → i < 32 → sl.items (s.intr.isr_ih i) ≡ []
    pub spldepth : s.intr.machine.spldepth ≡ 0
    pub enabled : s.intr.machine.enabled ≡ true

  -- The program as it is loaded, with an interrupt depth of 1 and no threads, where the allocator
  -- over the pages behind the image has memory for the interrupt thread and then for its stack.
  pub record IsLoaded (end init_thread t base : ℕ) (mbm : Entry) (h₁ h₂ : al.State) (s : Boot)
      : Type 0 where
    pub screen : InScreen s.cons
    pub spldepth : s.intr.machine.spldepth ≡ 1
    pub named : length (s.intr.sched.thread init_thread).name ≡ 16
    pub threads : tq.items s.intr.sched.threads ≡ []
    pub quiet : s.intr.isr_todo ≡ 0
    pub memory :
        al.alloc sizeof_thread (al.over (behind_image end mbm) s.intr.sched.heap) ≡ (some t, h₁)
    pub stack : al.alloc thread_stacksize h₁ ≡ (some base, h₂)
    pub other : t ≢ init_thread
    pub low : 8 ≤ base
    pub fits : base + thread_stacksize < 2 ^ 32
