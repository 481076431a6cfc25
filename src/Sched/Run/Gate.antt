-- ===== src/Sched/Run/Gate.antt =====
-- The gate of `bmk_sched_exit` (sched.c): what it changes, and whom it wakes.
use rumpuser_baremetal.Base.{
  ℕ, ◌≡◌, refl, true, false, not, ◌||◌, List, [], ◌∷◌, ◌==◌, if◌then◌else◌, has, arith, sym,
  Bool-cases, inl, inr, ◌⊎◌, ==_iff,
}
use mathlib.Core.Path.{subst}
use rumpuser_baremetal.Queue.{Tailq}
use rumpuser_baremetal.Heap.{Alloc}
use rumpuser_baremetal.Sched.{Sched, is_runnable, wake, block}
use rumpuser_baremetal.Sched.Frame.{mustjoin, joined, extstack, stackbase}
use rumpuser_baremetal.Sched.Threads.{exit_gate, wake_joiner}

module _ ⦃tq : Tailq⦄ ⦃al : Alloc⦄ where
  wake_joiner_cases :
      (t : ℕ) (ws : List ℕ) (s : Sched)
      → (wake_joiner t ws s ≡ s) ⊎ ((v : ℕ) × (wake_joiner t ws s ≡ wake v s))
  unfolding wake_joiner
  wake_joiner_cases t [] s = inl refl
  wake_joiner_cases t (w ∷ ws) s = elim (Bool-cases ((s.waiter w).1 == t)) [
    | inl e ↦ inr ((s.waiter w).0, rw e)
    | inr n ↦ rw n (wake_joiner_cases t ws s)
  ]

  -- The first waiter for `t` is `v`'s.
  pub wake_joiner-wake :
      (t v x : ℕ) (ws : List ℕ) (s : Sched)
      → has x ws ≡ true
      → (s.waiter x).1 ≡ t
      → ((w : ℕ) → has w ws ≡ true → (s.waiter w).1 ≡ t → (s.waiter w).0 ≡ v)
      → wake_joiner t ws s ≡ wake v s
  unfolding wake_joiner
  wake_joiner-wake t v x [] s h here only = cc
  wake_joiner-wake t v x (w ∷ ws) s h here only = elim (Bool-cases ((s.waiter w).1 == t)) [
    | inl e ↦ rw (e, only w (ground arith) ((==_iff _ t).0 e)) refl
    | inr n ↦ rw n (
        wake_joiner-wake t v x ws s (ground (arith, h, here, n)) here
          (λ u m. only u (ground (arith, m))))
  ]

  -- The thread has marked itself and woken its joiner.
  unfoldable pub called : Sched → Sched
  called s =
      let t = s.current in
      let b = s.thread t in
      record s {
        thread = λ u.
            if u == t then record b { flags = record b.flags { joined = true } } else s.thread u;
      }

  gate_lem :
      (s : Sched)
      → exit_gate s ≡ block s.current (wake_joiner s.current (tq.items s.joinwq) (called s))
  unfolding exit_gate called
  gate_lem s = refl

  -- From `s` to the gate's `bmk_sched`.
  pub record Gated (s s' : Sched) : Type 0 where
    pub threads : s'.threads ≡ s.threads
    pub zombies : s'.zombies ≡ s.zombies
    pub current : s'.current ≡ s.current
    pub joinwq : s'.joinwq ≡ s.joinwq
    pub waiter : s'.waiter ≡ s.waiter
    pub heap : s'.heap ≡ s.heap
    pub ext : (u : ℕ) → extstack u s' ≡ extstack u s
    pub base : (u : ℕ) → stackbase u s' ≡ stackbase u s
    pub mustjoin : (u : ℕ) → mustjoin u s' ≡ mustjoin u s
    pub joined : (u : ℕ) → joined u s' ≡ ((u == s.current) || joined u s)
    pub runs : (u : ℕ) → (not (is_runnable u s) || is_runnable u s' || u == s.current) ≡ true

  woken-Gated : (v : ℕ) (s : Sched) → Gated s (block s.current (wake v (called s)))
  unfolding called wake block
  woken-Gated v s = record {
    threads = refl;
    zombies = refl;
    current = refl;
    joinwq = refl;
    waiter = refl;
    heap = refl;
    ext = λ u. ground arith;
    base = λ u. ground arith;
    mustjoin = λ u. ground arith;
    joined = λ u. ground arith;
    runs = λ u. ground arith;
  }

  alone-Gated : (s : Sched) → Gated s (block s.current (called s))
  unfolding called block
  alone-Gated s = record {
    threads = refl;
    zombies = refl;
    current = refl;
    joinwq = refl;
    waiter = refl;
    heap = refl;
    ext = λ u. ground arith;
    base = λ u. ground arith;
    mustjoin = λ u. ground arith;
    joined = λ u. ground arith;
    runs = λ u. ground arith;
  }

  pub gate-Gated : (s : Sched) → Gated s (exit_gate s)
  gate-Gated s =
      let ws = tq.items s.joinwq in
      subst (Gated s) (sym (gate_lem s)) (elim (wake_joiner_cases s.current ws (called s)) [
        | inl e ↦ rw e (alone-Gated s)
        | inr (v, e) ↦ rw e (woken-Gated v s)
      ])

  pub gate_wakes :
      (s : Sched) (v : ℕ)
      → (v == s.current) ≡ false
      → wake_joiner s.current (tq.items s.joinwq) (called s) ≡ wake v (called s)
      → is_runnable v (exit_gate s) ≡ true
  unfolding wake block
  gate_wakes s v n e = rw (gate_lem s, e) (ground arith)
