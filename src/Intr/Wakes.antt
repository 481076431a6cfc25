-- ===== src/Intr/Wakes.antt =====
-- No interrupt is lost: while one is pending, the interrupt thread can run.
use rumpuser_baremetal.Base.{
  ℕ, zero, suc, ◌+◌, ◌<◌, ◌≡◌, Bool, true, false, not, ◌||◌, some, List, [], ◌∷◌, ◌==◌, arith, ap,
  sym, ◌∙◌, Bool-cases, inl, inr,
}
use mathlib.Core.Option.{some-injective}
use rumpuser_baremetal.Bits.Mask.{is_set}
use rumpuser_baremetal.Queue.{Tailq}
use rumpuser_baremetal.Queue.Slist.{Slist}
use rumpuser_baremetal.Heap.{Alloc}
use rumpuser_baremetal.Machine.{Machine, splhigh, spl0}
use rumpuser_baremetal.Sched.{is_runnable}
use rumpuser_baremetal.Intr.Raise.{high_low}
use rumpuser_baremetal.Intr.Held.{arrive-runs, isr_turn-idle, isr_turn-busy}
use rumpuser_baremetal.Intr.{Intr, Turn, isr, isr_serve, isr_turn, bit_loop, serve, call_each}

module _ ⦃tq : Tailq⦄ ⦃al : Alloc⦄ ⦃sl : Slist⦄ where
  abbrev pub runs : Intr → Bool
  runs s = is_runnable s.isr_thread s.sched

  -- What a call into the rump kernel keeps: when it returns, the interrupt thread still runs.
  -- Interrupts may have come meanwhile.
  abbrev pub Returns : (Intr → Intr) → Type 0
  Returns f = (s : Intr) → runs s ≡ true → runs (f s) ≡ true

  module _ (hyp_schedule hyp_unschedule newlwp : Intr → Intr)
      (call : (fun arg : ℕ) → Intr → ℕ × Intr) where
    -- An interrupt; a turn of the interrupt thread, when it runs; and what else the program does,
    -- which takes neither pending interrupts nor the thread's flag away.
    pub data Step : Intr → Intr → Type 0 where
      raised : {s : Intr} (which : ℕ) → which < 32 → Step s (isr which s)
      turned :
          {s s' : Intr} (come : ℕ → List ℕ) (turn : Turn)
          → runs s ≡ true
          → isr_turn hyp_schedule hyp_unschedule newlwp call come s ≡ some (turn, s')
          → Step s s'
      elsewhere :
          {s s' : Intr} → s'.isr_todo ≡ s.isr_todo → (not (runs s) || runs s') ≡ true → Step s s'

    -- The states from the thread's creation on, which leaves it runnable.
    pub data Reach : Intr → Type 0 where
      start : {s : Intr} → runs s ≡ true → Reach s
      later : {s s' : Intr} → Reach s → Step s s' → Reach s'

    module _ (sched-Returns : Returns hyp_schedule) (unsched-Returns : Returns hyp_unschedule)
        (call-Returns : (fun arg : ℕ) → Returns (λ s. (call fun arg s).1)) where
      call_each-runs :
          (ihs : List ℕ) (rv : ℕ) (s : Intr)
          → runs s ≡ true
          → runs (call_each hyp_schedule hyp_unschedule newlwp call ihs rv s).1 ≡ true
      unfolding call_each
      call_each-runs [] rv s h = h
      call_each-runs (ih ∷ ihs) rv s h =
          let (rv', s') = call (s.hand ih).ih_fun (s.hand ih).ih_arg s in
          let h' : runs s' ≡ true = call-Returns (s.hand ih).ih_fun (s.hand ih).ih_arg s h in
          elim (Bool-cases (rv' == 0)) [
            | inl next ↦ rw next (call_each-runs ihs rv' s' h')
            | inr answered ↦ rw answered h'
          ]

      serve-runs :
          (i rv : ℕ) (s : Intr)
          → runs s ≡ true
          → runs (serve hyp_schedule hyp_unschedule newlwp call i rv s).1 ≡ true
      unfolding serve
      serve-runs i rv s h =
          let s₁ = hyp_schedule s in
          unsched-Returns _ (call_each-runs (sl.items (s₁.isr_ih i)) rv s₁ (sched-Returns s h))

      bit_loop-runs :
          (n i copy rv : ℕ) (s : Intr)
          → runs s ≡ true
          → runs (bit_loop hyp_schedule hyp_unschedule newlwp call n i copy rv s).1 ≡ true
      unfolding bit_loop
      bit_loop-runs zero i copy rv s h = h
      bit_loop-runs (suc n) i copy rv s h = elim (Bool-cases (is_set i copy)) [
        | inl set ↦
            let (rv', s') = serve hyp_schedule hyp_unschedule newlwp call i rv s in
            rw (bit_loop, set) (bit_loop-runs n (i + 1) copy rv' s' (serve-runs i rv s h))
        | inr clear ↦ rw (bit_loop, clear) (bit_loop-runs n (i + 1) copy rv s h)
      ]

      -- The state that a turn leaves, with its `spl0`.
      turn_idle :
          (come : ℕ → List ℕ) (s s' : Intr) (turn : Turn) (c : Machine)
          → spl0 (splhigh s.machine) ≡ some c
          → (s.isr_todo == 0) ≡ true
          → isr_turn hyp_schedule hyp_unschedule newlwp call come s ≡ some (turn, s')
          → s'.isr_todo ≡ s.isr_todo
      turn_idle come s s' turn c low idle e =
          let same = isr_turn-idle hyp_schedule hyp_unschedule newlwp call come s c low idle in
          sym (ap (λ (p : Turn × Intr). p.1.isr_todo) (some-injective _ _ (sym same ∙ e)))

      turn_busy :
          (come : ℕ → List ℕ) (s s' : Intr) (turn : Turn) (c : Machine)
          → spl0 (splhigh s.machine) ≡ some c
          → (s.isr_todo == 0) ≡ false
          → runs s ≡ true
          → isr_turn hyp_schedule hyp_unschedule newlwp call come s ≡ some (turn, s')
          → runs s' ≡ true
      unfolding isr_serve
      turn_busy come s s' turn c low busy run e =
          let same = isr_turn-busy hyp_schedule hyp_unschedule newlwp call come s c low busy in
          sym (ap (λ (p : Turn × Intr). runs p.1) (some-injective _ _ (sym same ∙ e)))
          ∙ bit_loop-runs 32 0 s.isr_todo 0 _
              (arrive-runs (come 3) (record s { isr_todo = 0; machine = c }) run)

      Step-runs :
          (s s' : Intr)
          → Step s s'
          → (s.isr_todo == 0 || runs s) ≡ true
          → (s'.isr_todo == 0 || runs s') ≡ true
      unfolding isr
      Step-runs s s' (raised which small) h = ground arith
      Step-runs s s' (elsewhere todo run) h = ground (arith, todo, run, h)
      Step-runs s s' (turned come turn run e) h =
          let (c, low) = high_low s.machine in
          elim (Bool-cases (s.isr_todo == 0)) [
            | inl idle ↦ ground (arith, turn_idle come s s' turn c low idle e)
            | inr busy ↦ ground (arith, turn_busy come s s' turn c low busy run e)
          ]

      -- Whatever interrupts come, before the interrupt thread's turns, in them and between them,
      -- whatever the handlers do, as long as the thread runs when they return, and whatever else
      -- happens that leaves what is pending and does not stop the thread: in every state an interrupt
      -- is pending only if the thread can run.
      pub Reach-runs : (s : Intr) → Reach s → (s.isr_todo == 0 || runs s) ≡ true
      Reach-runs s (start run) = ground (arith, run)
      Reach-runs s (later {s = s₀} r step) = Step-runs s₀ s step (Reach-runs s₀ r)
