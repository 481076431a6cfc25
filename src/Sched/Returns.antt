-- ===== src/Sched/Returns.antt =====
-- The loop of `bmk_sched` (sched.c) ends: a thread that can run, or whose sleep ends, is waited for
-- no longer than that.
use rumpuser_baremetal.Base.{
  ℕ, ◌≡◌, refl, ◌≢◌, Bool, true, false, ◌||◌, none, some, List, [], ◌∷◌, ◌==◌, ℤ, pos, leb_ℤ, has,
  arith, inl, inr, ==_iff, Bool-cases, Option-cases, ◌⊎◌, ◌∙◌,
}
use rumpuser_baremetal.Queue.{Tailq}
use rumpuser_baremetal.Heap.{Alloc}
use rumpuser_baremetal.Sched.{Sched, Round, is_runnable, wake, expire, wake_each, pick}
use rumpuser_baremetal.Sched.Pick.{
  ready, first_ready, move_last, Waited, wake_each-Waited, scan-first_ready, pick-found, pick-waits,
}

module _ ⦃tq : Tailq⦄ ⦃al : Alloc⦄ where
  -- A time read that reaches the end of a sleep comes in one of the rounds.
  abbrev pub comes : ℤ → List Round → Bool
  comes w [] = false
  comes w (r ∷ rs) = leb_ℤ w r.now || comes w rs

  -- `t` can run, or it sleeps until `w`.
  abbrev pub Due : ℤ → ℕ → Sched → Type 0
  Due w t s = (is_runnable t s ≡ true) ⊎ ((s.thread t).wakeup_time ≡ w)

  Due-Waited : (w : ℤ) (t : ℕ) (s s₁ : Sched) → Waited s s₁ → Due w t s → Due w t s₁
  unfolding wake
  Due-Waited w t s s₁ waited due = ground (arith, waited.thread t)

  first_ready-some :
      (tm : ℤ) (s : Sched) (ts : List ℕ) (t : ℕ)
      → has t ts ≡ true
      → ready tm s t ≡ true
      → first_ready tm s ts ≢ none
  first_ready-some tm s [] t h r e = cc
  first_ready-some tm s (u ∷ us) t h r e = elim (Bool-cases (ready tm s u)) [
    | inl y ↦ cc (rw y at e)
    | inr n ↦ elim (Bool-cases (t == u)) [
      | inl same ↦ both_ready u n ((==_iff t u).0 same)
      | inr other ↦ first_ready-some tm s us t (ground arith) r (rw n at e)
    ]
  ]
    where
      both_ready : (v : ℕ) → ready tm s v ≡ false → t ≡ v → ⊥
      both_ready v n same = let r' : ready tm s v ≡ true = rw same at r in cc

  Due-ready :
      (w tm : ℤ) (t : ℕ) (s : Sched)
      → leb_ℤ (pos 0) w ≡ true
      → leb_ℤ w tm ≡ true
      → Due w t s
      → ready tm s t ≡ true
  Due-ready w tm t s nonneg early (inl runs) = rw runs
  Due-ready w tm t s nonneg early (inr sleeps) = rw (sleeps, nonneg, early) (ground arith)

  later_round :
      (w : ℤ) (t : ℕ) (r : Round) (rs : List Round) (s : Sched)
      → has t (tq.items s.threads) ≡ true
      → leb_ℤ (pos 0) w ≡ true
      → Due w t s
      → comes w (r ∷ rs) ≡ true
      → first_ready r.now s (tq.items s.threads) ≡ none
      → comes w rs ≡ true
  later_round w t r rs s listed nonneg due c e = elim (Bool-cases (leb_ℤ w r.now)) [
    | inl early ↦ absurd (
        first_ready-some r.now s (tq.items s.threads) t listed
          (Due-ready w r.now t s nonneg early due) e)
    | inr late ↦ rw late at c
  ]

  -- While a listed thread can run, or sleeps until a time that one of the rounds reaches, `bmk_sched`
  -- comes back with a choice in one of those rounds.
  pub pick_returns :
      (w : ℤ) (t : ℕ) (rs : List Round) (s : Sched)
      → has t (tq.items s.threads) ≡ true
      → leb_ℤ (pos 0) w ≡ true
      → Due w t s
      → comes w rs ≡ true
      → (u : ℕ) × (s' : Sched) × (pick rs s ≡ some (u, s'))
  pick_returns w t [] s listed nonneg due c = cc
  pick_returns w t (r ∷ rs) s listed nonneg due c =
      elim (Option-cases (first_ready r.now s (tq.items s.threads))) [
        | inl e ↦
            let woken = wake_each-Waited r.woken s in
            let (u, s', done) =
              pick_returns w t rs (wake_each r.woken s) (rw woken.threads listed) nonneg
                (Due-Waited w t s _ woken due) (later_round w t r rs s listed nonneg due c e) in
            (u, s', pick-waits r rs s e ∙ done)
        | inr (u, e) ↦ (
          u,
          move_last u (expire r.now u s),
          pick-found r rs s _ u (rw (scan-first_ready r.now (tq.items s.threads) s, e) refl),
        )
      ]
