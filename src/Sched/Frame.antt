-- ===== src/Sched/Frame.antt =====
-- What `bmk_sched` (sched.c) leaves alone: the joins, and the threads that can run.
use mathlib.Core.Path.{subst}
use mathlib.Core.Option.{some-injective}
use rumpuser_baremetal.Base.{
  ℕ, ◌≡◌, refl, Bool, true, false, not, ◌||◌, some, List, [], ◌∷◌, ◌==◌, if◌then◌else◌, arith, inl,
  inr, ℤ, Bool-cases, Option-cases, ap, ◌∙◌, sym,
}
use rumpuser_baremetal.Queue.{Tailq}
use rumpuser_baremetal.Heap.{Alloc}
use rumpuser_baremetal.Sched.{
  Sched, Round, bouncer, switched, is_runnable, wake, expire, scan, wake_each, pick, switch,
  reap_one, reap_each, reap, run_next, sched,
}
use rumpuser_baremetal.Sched.Pick.{
  first_ready, move_last, pick-nil, pick-found, pick-waits, scan-first_ready,
}
use rumpuser_baremetal.Sched.Wf.{sched_none, sched_of}

module _ ⦃tq : Tailq⦄ ⦃al : Alloc⦄ where
  abbrev pub mustjoin : ℕ → Sched → Bool
  mustjoin u s = (s.thread u).flags.mustjoin

  abbrev pub joined : ℕ → Sched → Bool
  joined u s = (s.thread u).flags.joined

  abbrev pub extstack : ℕ → Sched → Bool
  extstack u s = (s.thread u).flags.extstack

  abbrev pub stackbase : ℕ → Sched → ℕ
  stackbase u s = (s.thread u).stackbase

  -- From `s` to `s'` the joins and the stacks stay, and no thread loses its right to run.
  pub record Keeps (s s' : Sched) : Type 0 where
    pub joinwq : s'.joinwq ≡ s.joinwq
    pub waiter : s'.waiter ≡ s.waiter
    pub mustjoin : (u : ℕ) → mustjoin u s' ≡ mustjoin u s
    pub joined : (u : ℕ) → joined u s' ≡ joined u s
    pub extstack : (u : ℕ) → extstack u s' ≡ extstack u s
    pub stackbase : (u : ℕ) → stackbase u s' ≡ stackbase u s
    pub runs : (u : ℕ) → (not (is_runnable u s) || is_runnable u s') ≡ true

  pub Keeps-refl : (s : Sched) → Keeps s s
  Keeps-refl s = record {
    joinwq = refl;
    waiter = refl;
    mustjoin = λ u. refl;
    joined = λ u. refl;
    extstack = λ u. refl;
    stackbase = λ u. refl;
    runs = λ u. ground arith;
  }

  Keeps-trans : (s s₁ s₂ : Sched) → Keeps s s₁ → Keeps s₁ s₂ → Keeps s s₂
  Keeps-trans s s₁ s₂ j k = record {
    joinwq = k.joinwq ∙ j.joinwq;
    waiter = k.waiter ∙ j.waiter;
    mustjoin = λ u. k.mustjoin u ∙ j.mustjoin u;
    joined = λ u. k.joined u ∙ j.joined u;
    extstack = λ u. k.extstack u ∙ j.extstack u;
    stackbase = λ u. k.stackbase u ∙ j.stackbase u;
    runs = λ u. ground (arith, j.runs u, k.runs u);
  }

  pub wake-Keeps : (t : ℕ) (s : Sched) → Keeps s (wake t s)
  unfolding wake
  wake-Keeps t s = record {
    joinwq = refl;
    waiter = refl;
    mustjoin = λ u. ground arith;
    joined = λ u. ground arith;
    extstack = λ u. ground arith;
    stackbase = λ u. ground arith;
    runs = λ u. ground arith;
  }

  wake_each-Keeps : (ts : List ℕ) (s : Sched) → Keeps s (wake_each ts s)
  unfolding wake_each
  wake_each-Keeps [] s = Keeps-refl s
  wake_each-Keeps (t ∷ ts) s =
      Keeps-trans s (wake t s) _ (wake-Keeps t s) (wake_each-Keeps ts (wake t s))

  moved-Keeps : (tm : ℤ) (t : ℕ) (s : Sched) → Keeps s (move_last t (expire tm t s))
  unfolding expire
  moved-Keeps tm t s = record {
    joinwq = ground arith;
    waiter = ground arith;
    mustjoin = λ u. ground arith;
    joined = λ u. ground arith;
    extstack = λ u. ground arith;
    stackbase = λ u. ground arith;
    runs = λ u. ground arith;
  }

  pub switch-Keeps : (t : ℕ) (s : Sched) → Keeps s (switch t s)
  unfolding switch
  switch-Keeps t s = record {
    joinwq = refl;
    waiter = refl;
    mustjoin = λ u. ground arith;
    joined = λ u. ground arith;
    extstack = λ u. ground arith;
    stackbase = λ u. ground arith;
    runs = λ u. ground arith;
  }

  reap_one-Keeps : (prev t : ℕ) (s : Sched) → Keeps s (reap_one prev t s)
  unfolding reap_one
  reap_one-Keeps prev t s = record {
    joinwq = ground arith;
    waiter = ground arith;
    mustjoin = λ u. ground arith;
    joined = λ u. ground arith;
    extstack = λ u. ground arith;
    stackbase = λ u. ground arith;
    runs = λ u. ground arith;
  }

  reap_each-Keeps : (prev : ℕ) (ts : List ℕ) (s : Sched) → Keeps s (reap_each prev ts s)
  unfolding reap_each
  reap_each-Keeps prev [] s = Keeps-refl s
  reap_each-Keeps prev (t ∷ ts) s =
      let s₁ = reap_one prev t s in
      Keeps-trans s s₁ _ (reap_one-Keeps prev t s) (reap_each-Keeps prev ts s₁)

  reap-Keeps : (s : Sched) → Keeps s (reap s)
  unfolding reap
  reap-Keeps s = reap_each-Keeps s.current (tq.items s.zombies) s

  run_next-Keeps : (t : ℕ) (s : Sched) → Keeps s (run_next t s)
  unfolding run_next
  run_next-Keeps t s = elim (Bool-cases (t == s.current)) [
    | inl e ↦ rw e (reap-Keeps s)
    | inr n ↦
        rw n
          (elim ((s.thread t).ip)
            as (λ ip. Keeps s (
              if elim ip [ bouncer ↦ true | switched ↦ false ]
              then switch t s
              else reap (switch t s))) [
                | bouncer ↦ switch-Keeps t s
                | switched ↦
                    Keeps-trans s (switch t s) _ (switch-Keeps t s) (reap-Keeps (switch t s))
              ])
  ]

  pub pick-Keeps : (rs : List Round) (s s' : Sched) (t : ℕ) → pick rs s ≡ some (t, s') → Keeps s s'
  pick-Keeps [] s s' t h = cc (pick-nil s)
  pick-Keeps (r ∷ rs) s s' t h = elim (Option-cases (first_ready r.now s (tq.items s.threads))) [
    | inl e ↦
        Keeps-trans s _ s' (wake_each-Keeps r.woken s)
          (pick-Keeps rs (wake_each r.woken s) s' t (rw (pick-waits r rs s e) at h))
    | inr (u, e) ↦
        let s₁ : Sched = move_last u (expire r.now u s) in
        let seen : scan r.now (tq.items s.threads) s ≡ (some u, s₁) =
          rw (scan-first_ready r.now (tq.items s.threads) s, e) refl in
        let same : (u, s₁) ≡ (t, s') = some-injective _ _ (sym (pick-found r rs s s₁ u seen) ∙ h) in
        subst (Keeps s) (ap (λ (x : ℕ × Sched). x.1) same) (moved-Keeps r.now u s)
  ]

  pub sched-Keeps : (rs : List Round) (s s' : Sched) → sched rs s ≡ some s' → Keeps s s'
  sched-Keeps rs s s' e = elim (Option-cases (pick rs s)) [
    | inl p ↦ cc (sched_none rs s p)
    | inr ((t, s₁), p) ↦
        let same : run_next t s₁ ≡ s' = some-injective _ _ (sym (sched_of rs s s₁ t p) ∙ e) in
        subst (Keeps s) same (Keeps-trans s s₁ _ (pick-Keeps rs s s₁ t p) (run_next-Keeps t s₁))
  ]
