-- ===== src/Intr/Held.antt =====
-- The guard of `isr`'s loop (intr.c): behind `splhigh` no interrupt comes up to `spl0`.
use rumpuser_baremetal.Base.{
  ℕ, ◌≡◌, refl, Bool, true, false, ap, ◌∙◌, some, List, [], ◌∷◌, ◌==◌, if◌then◌else◌, ◌>>=◌, arith,
}
use rumpuser_baremetal.Queue.{Tailq}
use rumpuser_baremetal.Queue.Slist.{Slist}
use rumpuser_baremetal.Heap.{Alloc}
use rumpuser_baremetal.Machine.{Machine, splhigh, spl0}
use rumpuser_baremetal.Sched.{is_runnable, block}
use rumpuser_baremetal.Intr.{Intr, blocked, isr, arrive, isr_serve, isr_busy, isr_idle, isr_turn}

module _ ⦃tq : Tailq⦄ ⦃al : Alloc⦄ ⦃sl : Slist⦄ where
  if_off : (b : Bool) (s s' : Intr) → b ≡ false → (if b then s else s') ≡ s'
  if_off b s s' h = rw h refl

  pub arrive_held : (ws : List ℕ) (s : Intr) → s.machine.enabled ≡ false → arrive ws s ≡ s
  unfolding arrive
  arrive_held [] s h = refl
  arrive_held (w ∷ ws) s h =
      ap (arrive ws) (if_off s.machine.enabled (isr w s) s h) ∙ arrive_held ws s h

  pub arrive-runs :
      (ws : List ℕ) (s : Intr)
      → is_runnable s.isr_thread s.sched ≡ true
      → is_runnable (arrive ws s).isr_thread (arrive ws s).sched ≡ true
  unfolding arrive isr
  arrive-runs [] s h = h
  arrive-runs (w ∷ ws) s h =
      arrive-runs ws (if s.machine.enabled then isr w s else s) (ground (arith, h))

  module _ (hyp_schedule hyp_unschedule newlwp : Intr → Intr)
      (call : (fun arg : ℕ) → Intr → ℕ × Intr) where
    splhigh_off : (c : Machine) → (splhigh c).enabled ≡ false
    unfolding splhigh
    splhigh_off c = refl

    busy_turn :
        (before behind : List ℕ) (copy : ℕ) (s : Intr) (c : Machine)
        → s.machine.enabled ≡ false
        → spl0 s.machine ≡ some c
        → isr_busy hyp_schedule hyp_unschedule newlwp call before behind copy s
          ≡ some (
              isr_serve hyp_schedule hyp_unschedule newlwp call copy
                (arrive behind (record s { isr_todo = 0; machine = c })))
    unfolding isr_busy
    busy_turn before behind copy s c off low =
        rw (arrive_held before (record s { isr_todo = 0 }) off) (
          ap
            (λ o. o >>= λ c'. some (
              isr_serve hyp_schedule hyp_unschedule newlwp call copy
                (arrive behind (record s { isr_todo = 0; machine = c' }))))
            low)

    -- Nothing is pending: interrupts that come in the turn are held off.
    pub isr_turn-idle :
        (come : ℕ → List ℕ) (s : Intr) (c : Machine)
        → spl0 (splhigh s.machine) ≡ some c
        → (s.isr_todo == 0) ≡ true
        → isr_turn hyp_schedule hyp_unschedule newlwp call come s
          ≡ some (blocked, record s { machine = c; sched = block s.isr_thread s.sched })
    unfolding isr_turn isr_idle
    isr_turn-idle come s c low none =
        let off = splhigh_off s.machine in
        let high : Intr = record s { machine = splhigh s.machine } in
        rw
          (
            arrive_held (come 0) high off,
            arrive_held (come 1) high off,
            none,
            arrive_held (come 2) (record high { sched = block s.isr_thread s.sched }) off,
            low,
          )
          refl

    -- Something is pending: interrupts that come in the turn come behind `spl0`.
    pub isr_turn-busy :
        (come : ℕ → List ℕ) (s : Intr) (c : Machine)
        → spl0 (splhigh s.machine) ≡ some c
        → (s.isr_todo == 0) ≡ false
        → isr_turn hyp_schedule hyp_unschedule newlwp call come s
          ≡ some (
              isr_serve hyp_schedule hyp_unschedule newlwp call s.isr_todo
                (arrive (come 3) (record s { isr_todo = 0; machine = c })))
    unfolding isr_turn
    isr_turn-busy come s c low some_todo =
        let off = splhigh_off s.machine in
        let high : Intr = record s { machine = splhigh s.machine } in
        rw (arrive_held (come 0) high off, arrive_held (come 1) high off, some_todo)
          (busy_turn (come 2) (come 3) s.isr_todo high c off low)
