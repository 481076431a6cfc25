-- ===== src/Sched/Pick.antt =====
-- The choice of `bmk_sched` (sched.c): which thread runs next, and what else the choice changes.
use rumpuser_baremetal.Base.{
  ℕ, ◌≡◌, refl, Bool, true, false, ◌&&◌, ◌||◌, Option, none, some, List, [], ◌∷◌, ◌++◌, ◌==◌,
  if◌then◌else◌, ℤ, pos, leb_ℤ, has, erase, Distinct, arith, inl, inr, ==_refl, Bool-cases,
  Option-cases, ◌⊎◌, ap, ◌∙◌, sym,
}
use rumpuser_baremetal.Queue.{Tailq}
use rumpuser_baremetal.Queue.Lists.{has-erase}
use mathlib.Core.Path.{subst₂}
use rumpuser_baremetal.Heap.{Alloc}
use rumpuser_baremetal.Sched.{Sched, Round, is_runnable, wake, expire, scan, wake_each, pick}

module _ ⦃tq : Tailq⦄ ⦃al : Alloc⦄ where
  -- A thread that may run at `tm`: it is runnable, or its sleep is over.
  abbrev pub ready : ℤ → Sched → ℕ → Bool
  ready tm s t =
      is_runnable t s
      || (leb_ℤ (pos 0) (s.thread t).wakeup_time && leb_ℤ (s.thread t).wakeup_time tm)

  abbrev pub first_ready : ℤ → Sched → List ℕ → Option ℕ
  first_ready tm s [] = none
  first_ready tm s (t ∷ ts) = if ready tm s t then some t else first_ready tm s ts

  abbrev pub move_last : ℕ → Sched → Sched
  move_last t s = record s { threads = tq.insert_tail t (tq.remove t s.threads) }

  abbrev pub chosen : ℤ → Sched → Option ℕ → Option ℕ × Sched
  chosen tm s none = (none, s)
  chosen tm s (some t) = (some t, move_last t (expire tm t s))

  pub expire-runnable : (tm : ℤ) (t : ℕ) (s : Sched) → is_runnable t (expire tm t s) ≡ ready tm s t
  unfolding expire
  expire-runnable tm t s = ground arith

  pub expire-idle : (tm : ℤ) (t : ℕ) (s : Sched) → ready tm s t ≡ false → expire tm t s ≡ s
  unfolding expire
  expire-idle tm t s h = ground arith

  -- The walk of `bmk_sched` finds the first thread in the list that may run at the time read; every
  -- thread that it passes over, and the state if there is none, is left as it was.
  pub scan-first_ready :
      (tm : ℤ) (ts : List ℕ) (s : Sched) → scan tm ts s ≡ chosen tm s (first_ready tm s ts)
  unfolding scan
  scan-first_ready tm [] s = refl
  scan-first_ready tm (t ∷ ts) s = elim (Bool-cases (ready tm s t)) [
    | inl e ↦ rw (expire-runnable tm t s, e) refl
    | inr n ↦
        let idle : is_runnable t s ≡ false = ground arith in
        rw (expire-idle tm t s n, n, idle) (scan-first_ready tm ts s)
  ]

  chosen_first :
      (tm : ℤ) (s s' : Sched) (o : Option ℕ) (u : ℕ) → chosen tm s o ≡ (some u, s') → o ≡ some u
  chosen_first tm s s' none u e = cc
  chosen_first tm s s' (some v) u e = ap (λ (x : Option ℕ × Sched). x.0) e

  pub first_ready_of_scan :
      (tm : ℤ) (s s' : Sched) (ts : List ℕ) (u : ℕ)
      → scan tm ts s ≡ (some u, s')
      → first_ready tm s ts ≡ some u
  first_ready_of_scan tm s s' ts u e =
      chosen_first tm s s' (first_ready tm s ts) u (sym (scan-first_ready tm ts s) ∙ e)

  -- What a choice promises: the thread runs from here on, it is in the list and moves to its end,
  -- and the other threads and all else stay.
  pub record IsChoice (s s' : Sched) (t : ℕ) : Type 0 where
    pub listed : has t (tq.items s.threads) ≡ true
    pub runs : is_runnable t s' ≡ true
    pub order : tq.items s'.threads ≡ erase t (tq.items s.threads) ++ t ∷ []
    pub others : (u : ℕ) → s'.thread u ≡ (if u == t then s'.thread t else s.thread u)
    pub current : s'.current ≡ s.current
    pub zombies : s'.zombies ≡ s.zombies
    pub heap : s'.heap ≡ s.heap

  pub first_ready-has :
      (tm : ℤ) (s : Sched) (ts : List ℕ) {t : ℕ}
      → first_ready tm s ts ≡ some t
      → (has t ts ≡ true) × (ready tm s t ≡ true)
  first_ready-has tm s [] h = cc
  first_ready-has tm s (u ∷ us) {t} h = elim (Bool-cases (ready tm s u)) [
    | inl e ↦ let same : u ≡ t = cc (rw e at h) in (ground arith, rw same at e)
    | inr n ↦ let (a, b) = first_ready-has tm s us (rw n at h) in (ground arith, b)
  ]

  pub items-move_last :
      (t : ℕ) (q : tq.Head)
      → Distinct (tq.items q)
      → has t (tq.items q) ≡ true
      → tq.items (tq.insert_tail t (tq.remove t q)) ≡ erase t (tq.items q) ++ t ∷ []
  items-move_last t q d h =
      let gone : has t (tq.items (tq.remove t q)) ≡ false =
        rw (tq.items-remove t q h, has-erase t t (tq.items q) d, ==_refl t) refl in
      rw (tq.items-insert_tail t (tq.remove t q) gone, tq.items-remove t q h)

  chosen-IsChoice :
      (tm : ℤ) (s : Sched) (t : ℕ)
      → Distinct (tq.items s.threads)
      → has t (tq.items s.threads) ≡ true
      → ready tm s t ≡ true
      → IsChoice s (move_last t (expire tm t s)) t
  unfolding expire
  chosen-IsChoice tm s t d listed r = record {
    listed = listed;
    runs = expire-runnable tm t s ∙ r;
    order = ground (arith, items-move_last t s.threads d listed);
    others = λ u. ground arith;
    current = ground arith;
    zombies = ground arith;
    heap = ground arith;
  }

  pub scan-IsChoice :
      (tm : ℤ) (s s' : Sched) (t : ℕ)
      → Distinct (tq.items s.threads)
      → scan tm (tq.items s.threads) s ≡ (some t, s')
      → IsChoice s s' t
  scan-IsChoice tm s s' t d h = elim (Option-cases (first_ready tm s (tq.items s.threads))) [
    | inl e ↦ absurd (none_chosen (rw (scan-first_ready tm (tq.items s.threads) s, e) at h))
    | inr (u, e) ↦
        let (listed, r) = first_ready-has tm s (tq.items s.threads) e in
        from_chosen u (chosen-IsChoice tm s u d listed r)
          (rw (scan-first_ready tm (tq.items s.threads) s, e) at h)
  ]
    where
      none_chosen : chosen tm s none ≡ (some t, s') → ⊥
      none_chosen e = cc

      from_chosen :
          (u : ℕ)
          → IsChoice s (move_last u (expire tm u s)) u
          → chosen tm s (some u) ≡ (some t, s')
          → IsChoice s s' t
      from_chosen u c e =
          let same : u ≡ t = cc in
          let after : move_last u (expire tm u s) ≡ s' = ap (λ (x : Option ℕ × Sched). x.1) e in
          subst₂ (λ v s₁. IsChoice s s₁ v) same after c

  -- What interrupts may have changed while the processor halted: threads have been woken, and the
  -- queues, the thread that runs and the allocator are as they were.
  pub record Waited (s s' : Sched) : Type 0 where
    pub threads : s'.threads ≡ s.threads
    pub zombies : s'.zombies ≡ s.zombies
    pub current : s'.current ≡ s.current
    pub heap : s'.heap ≡ s.heap
    pub thread : (u : ℕ) → (s'.thread u ≡ s.thread u) ⊎ (s'.thread u ≡ (wake u s).thread u)

  Waited-refl : (s : Sched) → Waited s s
  Waited-refl s = record {
    threads = refl;
    zombies = refl;
    current = refl;
    heap = refl;
    thread = λ u. inl refl;
  }

  pub wake_each-Waited : (ts : List ℕ) (s : Sched) → Waited s (wake_each ts s)
  unfolding wake_each wake
  wake_each-Waited [] s = Waited-refl s
  wake_each-Waited (t ∷ ts) s =
      let w = wake_each-Waited ts (wake t s) in
      record {
        threads = w.threads;
        zombies = w.zombies;
        current = w.current;
        heap = w.heap;
        thread = λ u. ground (arith, w.thread u);
      }

  Waited-trans : (s s₁ s₂ : Sched) → Waited s s₁ → Waited s₁ s₂ → Waited s s₂
  unfolding wake
  Waited-trans s s₁ s₂ v w = record {
    threads = w.threads ∙ v.threads;
    zombies = w.zombies ∙ v.zombies;
    current = w.current ∙ v.current;
    heap = w.heap ∙ v.heap;
    thread = λ u. ground (arith, v.thread u, w.thread u);
  }

  pub pick-nil : (s : Sched) → pick [] s ≡ none
  unfolding pick
  pick-nil s = refl

  pub pick-found :
      (r : Round) (rs : List Round) (s s₁ : Sched) (t : ℕ)
      → scan r.now (tq.items s.threads) s ≡ (some t, s₁)
      → pick (r ∷ rs) s ≡ some (t, s₁)
  unfolding pick
  pick-found r rs s s₁ t e = rw (e, pick, e)

  pub pick-waits :
      (r : Round) (rs : List Round) (s : Sched)
      → first_ready r.now s (tq.items s.threads) ≡ none
      → pick (r ∷ rs) s ≡ pick rs (wake_each r.woken s)
  unfolding pick
  pick-waits r rs s e =
      let e' : scan r.now (tq.items s.threads) s ≡ (none, s) =
        rw (scan-first_ready r.now (tq.items s.threads) s, e) refl in
      rw (e', pick, e')

  -- From a list of distinct threads `bmk_sched` picks, when it picks one, a thread of the list that
  -- may run; until then interrupts have woken threads at most.
  pub pick-IsChoice :
      (rs : List Round) (s s' : Sched) (t : ℕ)
      → Distinct (tq.items s.threads)
      → pick rs s ≡ some (t, s')
      → (s₁ : Sched) × Waited s s₁ × IsChoice s₁ s' t
  pick-IsChoice [] s s' t d h = cc (pick-nil s)
  pick-IsChoice (r ∷ rs) s s' t d h =
      elim (Option-cases (first_ready r.now s (tq.items s.threads))) [
        | inl e ↦
            let woken = wake_each-Waited r.woken s in
            let d' = rw (← woken.threads) at d in
            let (s₁, waited, choice) =
              pick-IsChoice rs (wake_each r.woken s) s' t d' (rw (pick-waits r rs s e) at h) in
            (s₁, Waited-trans s _ s₁ woken waited, choice)
        | inr (u, e) ↦
            let s₁ : Sched = move_last u (expire r.now u s) in
            let seen : scan r.now (tq.items s.threads) s ≡ (some u, s₁) =
              rw (scan-first_ready r.now (tq.items s.threads) s, e) refl in
            let same : some (u, s₁) ≡ some (t, s') = sym (pick-found r rs s s₁ u seen) ∙ h in
            let seen' : scan r.now (tq.items s.threads) s ≡ (some t, s') = seen ∙ ap result same in
            (s, Waited-refl s, scan-IsChoice r.now s s' t d seen')
      ]
    where
      result : Option (ℕ × Sched) → Option ℕ × Sched
      result none = (none, s)
      result (some (v, w)) = (some v, w)
