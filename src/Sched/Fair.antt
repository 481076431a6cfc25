-- ===== src/Sched/Fair.antt =====
-- Round robin (sched.c): a thread that can run is passed over by the threads before it only.
use rumpuser_baremetal.Base.{
  ℕ, suc, ◌<◌, ◌≡◌, refl, ◌≢◌, true, false, some, List, [], ◌∷◌, ◌++◌, ◌==◌, ℤ, has, erase,
  Distinct, arith, inl, inr, ==_refl, ==_iff, Bool-cases,
}
use rumpuser_baremetal.Queue.{Tailq}
use rumpuser_baremetal.Queue.Lists.{
  position, has-erase, has-append, Distinct-erase, Distinct-append_one,
}
use rumpuser_baremetal.Heap.{Alloc}
use rumpuser_baremetal.Sched.{Sched, is_runnable, scan}
use rumpuser_baremetal.Sched.Pick.{
  ready, first_ready, first_ready-has, scan-IsChoice, first_ready_of_scan,
}

position-append : (t : ℕ) (xs ys : List ℕ) → has t xs ≡ true → position t (xs ++ ys) ≡ position t xs
position-append t [] ys h = cc
position-append t (x ∷ xs) ys h = ground (arith, position-append t xs ys)

-- A move to the end brings every address behind the moved one forward by one.
position-move_last :
    (t u : ℕ) (xs : List ℕ)
    → has t xs ≡ true
    → position u xs < position t xs
    → suc (position t (erase u xs ++ u ∷ [])) ≡ position t xs
position-move_last t u [] h lt = cc
position-move_last t u (x ∷ xs) h lt = elim (Bool-cases (u == x)) [
  | inl first ↦ rw first (ground (arith, position-append t xs (u ∷ [])))
  | inr later ↦ rw later (ground (arith, position-move_last t u xs))
]

module _ ⦃tq : Tailq⦄ ⦃al : Alloc⦄ where
  first_ready-before :
      (tm : ℤ) (s : Sched) (xs : List ℕ) (t u : ℕ)
      → has t xs ≡ true
      → ready tm s t ≡ true
      → first_ready tm s xs ≡ some u
      → u ≢ t
      → position u xs < position t xs
  first_ready-before tm s [] t u h r f n = cc
  first_ready-before tm s (x ∷ xs) t u h r f n = elim (Bool-cases (ready tm s x)) [
    | inl e ↦ let same : x ≡ u = cc (rw e at f) in ground arith
    | inr e ↦
        let f' = rw e at f in
        let (_, ru) = first_ready-has tm s xs f' in
        let tx : (t == x) ≡ false = apart x t e r in
        let ux : (u == x) ≡ false = apart x u e ru in
        ground (arith, first_ready-before tm s xs t u (ground arith) r f' n)
  ]
    where
      apart : (v w : ℕ) → ready tm s v ≡ false → ready tm s w ≡ true → (w == v) ≡ false
      apart v w nv rw' = elim (Bool-cases (w == v)) [
        | inl same ↦
            let r' : ready tm s v ≡ true = rw ((==_iff w v).0 same) at rw' in absurd (clash v nv r')
        | inr other ↦ other
      ]
        where
          clash : (v : ℕ) → ready tm s v ≡ false → ready tm s v ≡ true → ⊥
          clash v a b = cc

  -- Where a runnable thread stands in a list of distinct threads, a choice of another thread leaves
  -- it runnable and in the list, one place further to the front, and the threads distinct.
  pub scan_fair :
      (tm : ℤ) (s s' : Sched) (t u : ℕ)
      → Distinct (tq.items s.threads)
      → has t (tq.items s.threads) ≡ true
      → is_runnable t s ≡ true
      → scan tm (tq.items s.threads) s ≡ (some u, s')
      → u ≢ t
      → (suc (position t (tq.items s'.threads)) ≡ position t (tq.items s.threads))
        × (is_runnable t s' ≡ true)
        × (has t (tq.items s'.threads) ≡ true)
        × Distinct (tq.items s'.threads)
  scan_fair tm s s' t u d h r e n =
      let c = scan-IsChoice tm s s' u d e in
      let before =
        first_ready-before tm s (tq.items s.threads) t u h (rw r)
          (first_ready_of_scan tm s s' (tq.items s.threads) u e) n in
      let xs = tq.items s.threads in
      (
        rw c.order (position-move_last t u xs h before),
        ground (arith, c.others t),
        rw (c.order, has-append t (erase u xs) (u ∷ []), has-erase t u xs d) (ground arith),
        rw c.order (
            Distinct-append_one u (erase u xs) (Distinct-erase u xs d)
              (rw (has-erase u u xs d, ==_refl u) refl)),
      )
