-- ===== src/Sched/Run/Joins.antt =====
-- The turns of `bmk_sched_join` (sched.c) keep what holds between turns.
use rumpuser_baremetal.Base.{
  ℕ, ◌≡◌, ◌≢◌, Bool, true, false, Option, some, List, ◌>>=◌, arith, ◌∙◌, ap, sym, Option-cases,
  Bool-cases, inl, inr, ◌⊎◌,
}
use mathlib.Core.Path.{subst}
use mathlib.Core.Option.{some-injective}
use rumpuser_baremetal.Queue.{Tailq}
use rumpuser_baremetal.Heap.{Alloc}
use rumpuser_baremetal.Sched.{Sched, Round, sched}
use rumpuser_baremetal.Sched.Wf.{RunsListed}
use rumpuser_baremetal.Sched.Frame.{mustjoin, joined}
use rumpuser_baremetal.Sched.Threads.{join_turn, join_resume, join_enter}
use rumpuser_baremetal.Sched.Run.{Program, Inv, IsFree, listed, joining, resumed}
use rumpuser_baremetal.Sched.Run.Waits.{
  May, waited, done, done-Inv, waited-Inv, resumed-Inv, join_done_lem, if_true,
}
use rumpuser_baremetal.Sched.Run.Keeps.{sched-Inv}

module _ ⦃tq : Tailq⦄ ⦃al : Alloc⦄ where
  module _ (own : ℕ → ℕ) (own_apart : (t u : ℕ) → own t ≡ own u → t ≡ u) where
    join_turn_over :
        (rs : List Round) (jw u : ℕ) (s : Sched)
        → joined u s ≡ true
        → join_turn rs jw u s ≡ some (true, done u s)
    unfolding join_turn
    join_turn_over rs jw u s e =
        if_true _ _ _ e
        ∙ ap (λ (m : Option Sched). m >>= λ s'. some (true, s')) (join_done_lem u s e)

    join_turn_cases :
        (rs : List Round) (u : ℕ) (back : Bool) (p : Program) (s' : Sched)
        → May p u
        → join_turn rs (own p.sched.current) u p.sched ≡ some (back, s')
        → (joined u p.sched ≡ true) × (◌≡◌ {A = Bool × Sched} (true, done u p.sched) (back, s'))
          ⊎ (joined u p.sched ≡ false)
            × (◌≡◌ {A = Bool} false back)
            × (sched rs (waited own u p).sched ≡ some s')
    unfolding join_turn waited
    join_turn_cases rs u back p s' m e = elim (Bool-cases (joined u p.sched)) [
      | inl over ↦ inl (over, some-injective _ _ (sym (join_turn_over rs _ u p.sched over) ∙ e))
      | inr not_yet ↦ elim (Option-cases (sched rs (waited own u p).sched)) [
        | inl stuck ↦ cc (rw (not_yet, stuck) at e)
        | inr (s₁, came) ↦
            let same : (false, s₁) ≡ (back, s') = some-injective _ _ (rw (not_yet, came) at e) in
            inr (
              not_yet,
              ap (λ (x : Bool × Sched). x.0) same,
              came ∙ ap (λ (x : Bool × Sched). some x.1) same,
            )
      ]
    ]

    turn-Inv :
        (rs : List Round) (u : ℕ) (back : Bool) (p : Program) (s' : Sched)
        → Inv own p
        → May p u
        → join_turn rs (own p.sched.current) u p.sched ≡ some (back, s')
        → Inv own (joining p.sched.current u back s' p) × RunsListed s'
    unfolding waited
    turn-Inv rs u back p s' i m e =
        let t = p.sched.current in
        elim (join_turn_cases rs u back p s' m e) [
          | inl (over, same) ↦
              subst (λ (x : Bool × Sched). Inv own (joining t u x.0 x.1 p) × RunsListed x.1) same
                (done-Inv own own_apart p u i m over)
          | inr (not_yet, same, came) ↦
              subst (λ (b : Bool). Inv own (joining t u b s' p) × RunsListed s') same
                (sched-Inv own (waited own u p) s' rs (waited-Inv own own_apart p u i m not_yet)
                  came)
        ]

    join_enter_lem :
        (u : ℕ) (s s' : Sched) → join_enter u s ≡ some s' → (mustjoin u s ≡ true) × (s ≡ s')
    unfolding join_enter
    join_enter_lem u s s' e = (ground arith, ground arith)

    pub joins-Inv :
        (rs : List Round) (u : ℕ) (back : Bool) (p : Program) (s s' : Sched)
        → Inv own p
        → RunsListed p.sched
        → IsFree p
        → (u ≢ 0) × (listed u p.sched ≡ true) × ((v : ℕ) → p.wants v ≢ u)
        → join_enter u p.sched ≡ some s
        → join_turn rs (own p.sched.current) u s ≡ some (back, s')
        → Inv own (joining p.sched.current u back s' p) × RunsListed s'
    joins-Inv rs u back p s s' i runs free (some_thread, here, alone) entered e =
        let (must, same) = join_enter_lem u p.sched s entered in
        turn-Inv rs u back p s' i
          (record {
            wants = free.0;
            exiting = free.1;
            runs = runs;
            some_thread = some_thread;
            listed = here;
            mustjoin = must;
            alone = alone;
          })
          (ap (join_turn rs (own p.sched.current) u) same ∙ e)

    pub joins_on-Inv :
        (rs : List Round) (back : Bool) (p : Program) (s' : Sched)
        → Inv own p
        → RunsListed p.sched
        → p.wants p.sched.current ≢ 0
        → join_turn rs (own p.sched.current) (p.wants p.sched.current) (resumed own p).sched
          ≡ some (back, s')
        → Inv own (joining p.sched.current (p.wants p.sched.current) back s' (resumed own p))
          × RunsListed s'
    unfolding join_resume
    joins_on-Inv rs back p s' i runs waits e =
        let t = p.sched.current in
        let (_, idle, here, must) = i.waits t waits in
        turn-Inv rs (p.wants t) back (resumed own p) s' (resumed-Inv own own_apart p i waits)
          (record {
            wants = ground arith;
            exiting = idle;
            runs = runs;
            some_thread = waits;
            listed = here;
            mustjoin = must;
            alone = λ v same. ground (arith, same, i.single v t, waits);
          })
          e
