-- ===== src/Fiber/Rw/Writers.antt =====
-- Readers and writers of a read-write lock (rumpfiber.c) that get into one another's way.
use mathlib.Core.Path.{subst}
use rumpuser_baremetal.Base.{
  ℕ, ◌≡◌, refl, ◌≢◌, true, false, some, [], arith, pos, ◌-ℤ◌, leb_ℤ, if◌then◌else◌, ◌==◌, inl, inr,
  ap, sym,
}
use rumpuser_baremetal.Queue.{Tailq}
use rumpuser_baremetal.Heap.{Alloc}
use rumpuser_baremetal.Fiber.{Fiber, curlwp}
use rumpuser_baremetal.Fiber.Wakeup.{items_cases}
use rumpuser_baremetal.Fiber.Rw.{
  Rw, writer, reader, tryenter, left, exit, held, exit-IsTaken, exit-IsAllTaken, left_lem,
  left_wwait, left_rwait,
}

module _ ⦃tq : Tailq⦄ ⦃al : Alloc⦄ where
  pub exit_idle :
      (r : Rw) (s : Fiber)
      → tq.items r.wwait ≡ []
      → tq.items r.rwait ≡ []
      → exit r s ≡ some (left r, s)
  unfolding exit
  exit_idle r s e f = rw (left_wwait r, e, left_rwait r, f) refl

  -- Whoever waits, the exit comes back; then no writer holds the lock, and only a reader that leaves a
  -- lock without a writer is counted off.
  pub exit_returns :
      (r : Rw) (s : Fiber)
      → (r' : Rw) × (s' : Fiber) × (exit r s ≡ some (r', s'))
        × (r'.o ≡ 0)
        × (r'.v ≡ (if r.o == 0 then r.v -ℤ pos 1 else r.v))
  exit_returns r s = elim (items_cases r.wwait) [
    | inr (w, ws, e) ↦
        let (r', s', done, _, _, free, count) = exit-IsTaken r s w ws e in
        (r', s', done, free, count)
    | inl e ↦ elim (items_cases r.rwait) [
      | inr (w, ws, f) ↦
          let (r', s', done, _, _, free, count) = exit-IsAllTaken r s w ws e f in
          (r', s', done, free, count)
      | inl f ↦ let (free, count) = left_lem r in (left r, s, exit_idle r s e f, free, count)
    ]
  ]

  enters : (r : Rw) (s : Fiber) → r.o ≡ 0 → tryenter writer r s ≡ (0, record r { o = curlwp s })
  unfolding tryenter
  enters r s free = ground (arith, free)

  abbrev Joins : (first second other : Fiber) → ℕ × Rw → Type 0
  Joins first second other (rv, r₁) =
      (rv ≡ 0)
      × (held writer r₁ first ≡ some true)
      × (held reader r₁ first ≡ some true)
      × ((r₂ : Rw) × (s₂ : Fiber) × (exit r₁ other ≡ some (r₂, s₂))
          × (held writer r₂ first ≡ some false)
          × (held reader r₂ first ≡ some true)
          × ((tryenter writer r₂ second).0 ≡ 0))

  -- Two writers at a time: with readers inside and no writer, a writer gets in, and both it and the
  -- readers hold the lock. When a reader then leaves, whoever waits, it is the writer's hold that goes
  -- and the count of readers that stays: the writer, whose lwp is not NULL, does not hold the lock any
  -- more, and a second writer gets in.
  pub two_writers :
      (r : Rw) (first second other : Fiber)
      → r.o ≡ 0
      → leb_ℤ (pos 1) r.v ≡ true
      → curlwp first ≢ 0
      → let (rv, r₁) = tryenter writer r first in
        (rv ≡ 0)
        × (held writer r₁ first ≡ some true)
        × (held reader r₁ first ≡ some true)
        × ((r₂ : Rw) × (s₂ : Fiber) × (exit r₁ other ≡ some (r₂, s₂))
            × (held writer r₂ first ≡ some false)
            × (held reader r₂ first ≡ some true)
            × ((tryenter writer r₂ second).0 ≡ 0))
  unfolding held
  two_writers r first second other free readers lwp =
      let r₁ : Rw = record r { o = curlwp first } in
      let (r₂, s₂, done, out, count) = exit_returns r₁ other in
      let stays : r₂.v ≡ r.v = ground (arith, count, lwp) in
      subst (Joins first second other) (sym (enters r first free)) (
        refl,
        ground arith,
        ground (arith, readers),
        (
          r₂,
          s₂,
          done,
          ground (arith, out, lwp),
          ground (arith, stays, readers),
          ap (λ (x : ℕ × Rw). x.0) (enters r₂ second out),
        ),
      )
