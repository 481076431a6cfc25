-- ===== src/Fiber/Rw.antt =====
-- The read-write locks of rumpfiber.c. `v` counts the readers, `o` is the writer's lwp, 0 for NULL.
pub mod Writers
pub mod Run
pub mod Turns
pub mod Resumes
pub mod Exits
pub mod Safe
use rumpuser_baremetal.Base.{
  ℕ, ◌≡◌, refl, ◌≢◌, Bool, true, false, not, ◌&&◌, Option, none, some, List, [], ◌∷◌, ◌==◌,
  if◌then◌else◌, arith, ℤ, pos, negsuc, ◌+ℤ◌, ◌-ℤ◌, leb_ℤ, is_empty, Bool-cases, inl, inr, sym,
}
use rumpuser_baremetal.Queue.{Tailq}
use rumpuser_baremetal.Heap.{Alloc}
use rumpuser_baremetal.Fiber.{Fiber, curlwp, ebusy, einval, wait_begin, wakeup_one, wakeup_all}
use rumpuser_baremetal.Fiber.Wakeup.{IsTaken, IsAllTaken, wakeup_one-IsTaken, wakeup_all-IsAllTaken}

-- `enum rumprwlock`; `other` is any number that is neither.
pub data Mode : Type 0 where
  writer reader other : Mode

module _ ⦃tq : Tailq⦄ ⦃al : Alloc⦄ where
  pub record Rw : Type 0 where
    pub rwait : tq.Head
    pub wwait : tq.Head
    pub v : ℤ
    pub o : ℕ

  -- `rumpuser_rw_init`, behind the allocation.
  unfoldable pub init : Rw
  init = record { rwait = tq.init; wwait = tq.init; v = pos 0; o = 0 }

  unfoldable pub tryenter : Mode → Rw → Fiber → ℕ × Rw
  tryenter writer rw' s = if rw'.o == 0 then (0, record rw' { o = curlwp s }) else (ebusy, rw')
  tryenter reader rw' s =
      if rw'.o == 0 && is_empty (tq.items rw'.wwait)
      then (0, record rw' { v = rw'.v +ℤ pos 1 })
      else (ebusy, rw')
  tryenter other rw' s = (einval, rw')

  -- The first test of `rumpuser_rw_exit`: whether it is the writer or a reader that leaves.
  unfoldable pub left : Rw → Rw
  left r = if not (r.o == 0) then record r { o = 0 } else record r { v = r.v -ℤ pos 1 }

  -- `rumpuser_rw_exit`; `none` is the fuel of `wakeup_all`, which does not run out.
  unfoldable pub exit : Rw → Fiber → Option (Rw × Fiber)
  exit r s =
      let r₁ = left r in
      let (ww, s₁) = wakeup_one r₁.wwait s in
      if not (is_empty (tq.items r₁.wwait))
      then some (if r₁.o == 0 then (record r₁ { wwait = ww }, s₁) else (r₁, s))
      else if not (is_empty (tq.items r₁.rwait)) && r₁.o == 0
      then elim (wakeup_all r₁.rwait s) [
        | none ↦ none
        | some (rwq, s₂) ↦ some (record r₁ { rwait = rwq }, s₂)
      ]
      else some (r₁, s)

  -- `rumpuser_rw_destroy`, with the address of the lock.
  unfoldable pub destroy : ℕ → Fiber → Fiber
  destroy rw' s = record s { sched = record s.sched { heap = al.free rw' s.sched.heap } }

  -- One turn of the loop of `rumpuser_rw_enter`.
  unfoldable pub enter_turn : (w : ℕ) (now : ℤ) → Mode → Rw → Fiber → Bool × Rw × Fiber
  enter_turn w now lk r s =
      let (rv, r') = tryenter lk r s in
      let (ww, s₁) = wait_begin w now 0 r.wwait s in
      let (rwq, s₂) = wait_begin w now 0 r.rwait s in
      if rv == 0 then (true, r', s) else elim lk [
        | writer ↦ (false, record r { wwait = ww }, s₁)
        | reader ↦ (false, record r { rwait = rwq }, s₂)
        | other ↦ (false, r, s)
      ]

  -- `rumpuser_rw_held`; for another mode `*rvp` is not written.
  unfoldable pub held : Mode → Rw → Fiber → Option Bool
  held writer r s = some (r.o == curlwp s)
  held reader r s = some (leb_ℤ (pos 1) r.v)
  held other r s = none

  unfoldable pub downgrade : Rw → Fiber → Option Rw
  downgrade r s = if r.o == curlwp s then some (record r { v = negsuc 0 }) else none

  abbrev pub is_minus_one : ℤ → Bool
  is_minus_one (pos n) = false
  is_minus_one (negsuc n) = n == 0

  unfoldable pub tryupgrade : Rw → Fiber → ℕ × Rw
  tryupgrade r s =
      if is_minus_one r.v then (0, record r { v = pos 1; o = curlwp s }) else (ebusy, r)

  -- Readers do not keep a writer out: with readers inside and no writer, a writer gets in, and both
  -- the writer and the readers then hold the lock.
  pub writer_joins_readers :
      (r : Rw) (s : Fiber)
      → r.o ≡ 0
      → leb_ℤ (pos 1) r.v ≡ true
      → let (rv, r') = tryenter writer r s in
        (rv ≡ 0) × (held writer r' s ≡ some true) × (held reader r' s ≡ some true)
  unfolding tryenter held
  writer_joins_readers r s none' readers = (ground arith, ground arith, ground arith)

  pub left_lem :
      (r : Rw) → ((left r).o ≡ 0) × ((left r).v ≡ (if r.o == 0 then r.v -ℤ pos 1 else r.v))
  unfolding left
  left_lem r = elim (Bool-cases (r.o == 0)) [
    | inl o ↦ (ground arith, rw o refl)
    | inr o ↦ (ground arith, rw o refl)
  ]

  pub left_wwait : (r : Rw) → (left r).wwait ≡ r.wwait
  unfolding left
  left_wwait r = elim (Bool-cases (r.o == 0)) [ inl o ↦ rw o refl | inr o ↦ rw o refl ]

  pub left_rwait : (r : Rw) → (left r).rwait ≡ r.rwait
  unfolding left
  left_rwait r = elim (Bool-cases (r.o == 0)) [ inl o ↦ rw o refl | inr o ↦ rw o refl ]

  exit_one :
      (r : Rw) (s : Fiber) (w : ℕ) (ws : List ℕ)
      → tq.items r.wwait ≡ w ∷ ws
      → exit r s
        ≡ some (record (left r) { wwait = (wakeup_one r.wwait s).0 }, (wakeup_one r.wwait s).1)
  unfolding exit
  exit_one r s w ws e = rw (left_wwait r, e, (left_lem r).0) refl

  exit_all :
      (r : Rw) (s : Fiber) (q : tq.Head) (s₁ : Fiber) (w : ℕ) (ws : List ℕ)
      → tq.items r.wwait ≡ []
      → tq.items r.rwait ≡ w ∷ ws
      → wakeup_all r.rwait s ≡ some (q, s₁)
      → exit r s ≡ some (record (left r) { rwait = q }, s₁)
  unfolding exit
  exit_all r s q s₁ w ws e f done =
      rw (left_wwait r, e, left_rwait r, f, (left_lem r).0, done)
        (rw (left_wwait r, (left_lem r).0) refl)

  -- Whoever leaves while writers wait, writer or reader, wakes the first of them and nobody else: the
  -- queue of the readers stays, no writer holds the lock, and a reader that leaves is counted off.
  pub exit-IsTaken :
      (r : Rw) (s : Fiber) (w : ℕ) (ws : List ℕ)
      → tq.items r.wwait ≡ w ∷ ws
      → (r' : Rw) × (s' : Fiber) × (exit r s ≡ some (r', s'))
        × IsTaken w r.wwait s r'.wwait s'
        × (r'.rwait ≡ r.rwait)
        × (r'.o ≡ 0)
        × (r'.v ≡ (if r.o == 0 then r.v -ℤ pos 1 else r.v))
  exit-IsTaken r s w ws e =
      let (q, s₁) = wakeup_one r.wwait s in
      let (off, count) = left_lem r in
      (
        record (left r) { wwait = q },
        s₁,
        exit_one r s w ws e,
        (wakeup_one-IsTaken r.wwait s w ws e).0,
        left_rwait r,
        off,
        count,
      )

  -- Whoever leaves while no writer waits but readers do wakes all of them and nobody else: their queue
  -- is empty, that of the writers stays, no writer holds the lock, and a reader that leaves is counted
  -- off.
  pub exit-IsAllTaken :
      (r : Rw) (s : Fiber) (w : ℕ) (ws : List ℕ)
      → tq.items r.wwait ≡ []
      → tq.items r.rwait ≡ w ∷ ws
      → (r' : Rw) × (s' : Fiber) × (exit r s ≡ some (r', s'))
        × IsAllTaken (w ∷ ws) s r'.rwait s'
        × (r'.wwait ≡ r.wwait)
        × (r'.o ≡ 0)
        × (r'.v ≡ (if r.o == 0 then r.v -ℤ pos 1 else r.v))
  exit-IsAllTaken r s w ws e f =
      let (q, s₁, done, all) = wakeup_all-IsAllTaken r.rwait s in
      let all' : IsAllTaken (w ∷ ws) s q s₁ = rw (sym f) all in
      let (off, count) = left_lem r in
      (
        record (left r) { rwait = q },
        s₁,
        exit_all r s q s₁ w ws e f done,
        all',
        left_wwait r,
        off,
        count,
      )

  -- After a downgrade by an lwp that is not NULL, it still counts as the writer and not as a reader,
  -- and no reader gets in.
  pub downgrade_stays :
      (r r' : Rw) (s : Fiber)
      → curlwp s ≢ 0
      → downgrade r s ≡ some r'
      → (held writer r' s ≡ some true)
        × (held reader r' s ≡ some false)
        × (tryenter reader r' s ≡ (ebusy, r'))
  unfolding downgrade held tryenter
  downgrade_stays r r' s lwp e = elim (Bool-cases (r.o == curlwp s)) [
    | inl own ↦
        let e' : record r { v = negsuc 0 } ≡ r' = ground (arith, e) in
        rw (sym e') (ground arith, refl, ground arith)
    | inr other' ↦ ground arith
  ]
