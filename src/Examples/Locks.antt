-- ===== src/Examples/Locks.antt =====
-- The theorems on waiters, mutexes and read-write locks at `fiber_example`.
use rumpuser_baremetal.Base.{
  ◌<◌, ◌≡◌, refl, true, false, none, some, [], ◌∷◌, pos, negsuc, later_time, nanoseconds, word64,
  signed, leb_ℤ, arith, ◌⊎◌,
}
use rumpuser_baremetal.Sched.{is_runnable}
use rumpuser_baremetal.Fiber.{Fiber, ebusy, etimedout}
use rumpuser_baremetal.Fiber.Wakeup.{Wakes}
use rumpuser_baremetal.Fiber.Mutex.{
  Mtx, Lock, free, held, lock, acquire, release, tryenter-acquire, exit-release, enter_turn-waits,
  enters-exits, enters, exits, enter_turn,
}
use rumpuser_baremetal.Fiber.Mutex
use rumpuser_baremetal.Fiber.Rw.{
  Rw, Mode, writer, reader, downgrade, exit-IsTaken, exit-IsAllTaken, downgrade_stays,
}
use rumpuser_baremetal.Fiber.Rw
use rumpuser_baremetal.Fiber.Rw.Writers.{two_writers}
use rumpuser_baremetal.Fiber.Cv.{
  Cv, wait_enter, wait_leave, timeout, signal, broadcast, has_waiters, wait-signal,
}
use rumpuser_baremetal.Fiber.Cv.Timeout.{at_time, wait-timeout}
use rumpuser_baremetal.Fiber.Cv.Broadcast.{goes_on, broadcast_panics}
use rumpuser_baremetal.Examples.Data.{queue, heap, fiber_example}

-- Taken twice by the lwp 41, with two waiters; then by the lwp 42.
abbrev mutex_example : Mtx
mutex_example = record { waiters = 11 ∷ 12 ∷ []; v = 2; flags = 0; o = 41 }

abbrev their_mutex : Mtx
their_mutex = record mutex_example { v = 1; o = 42 }

abbrev free_mutex : Mtx
free_mutex = record mutex_example { v = 0; o = 0 }

exit-release_example :
    ((their_mutex.v ≡ 0)
      × (release (lock their_mutex) ≡ none)
      × (Mutex.exit their_mutex fiber_example ≡ none))
    ⊎ ((m' : Mtx) × (s' : Fiber) × (Mutex.exit their_mutex fiber_example ≡ some (m', s'))
        × (release (lock their_mutex) ≡ some (lock m'))
        × (((their_mutex.v ≡ 1) × Wakes (11 ∷ 12 ∷ []) fiber_example m'.waiters s')
            ⊎ ((1 < their_mutex.v) × (m'.waiters ≡ 11 ∷ 12 ∷ []) × (s' ≡ fiber_example))))
exit-release_example = exit-release their_mutex fiber_example

-- A lock that the lwp 41 has written to; a writer waits, or two readers.
abbrev writer_waits : Rw
writer_waits = record { rwait = []; wwait = 11 ∷ []; v = pos 0; o = 41 }

abbrev readers_wait : Rw
readers_wait = record { rwait = 11 ∷ 12 ∷ []; wwait = []; v = pos 0; o = 41 }

abbrev read_locked : Rw
read_locked = record { rwait = []; wwait = []; v = pos 2; o = 0 }

two_writers_example :
    let (rv, r₁) = Rw.tryenter writer read_locked fiber_example in
    (rv ≡ 0)
    × (Rw.held writer r₁ fiber_example ≡ some true)
    × (Rw.held reader r₁ fiber_example ≡ some true)
    × ((r₂ : Rw) × (s₂ : Fiber) × (Rw.exit r₁ fiber_example ≡ some (r₂, s₂))
        × (Rw.held writer r₂ fiber_example ≡ some false)
        × (Rw.held reader r₂ fiber_example ≡ some true)
        × ((Rw.tryenter writer r₂ fiber_example).0 ≡ 0))
two_writers_example =
    two_writers read_locked fiber_example fiber_example fiber_example refl refl (omega arith)

downgrade_runs : downgrade writer_waits fiber_example ≡ some (record writer_waits { v = negsuc 0 })
unfolding downgrade
downgrade_runs = refl

downgrade_stays_example :
    let r' : Rw = record writer_waits { v = negsuc 0 } in
    (Rw.held writer r' fiber_example ≡ some true)
    × (Rw.held reader r' fiber_example ≡ some false)
    × (Rw.tryenter reader r' fiber_example ≡ (ebusy, r'))
downgrade_stays_example =
    downgrade_stays writer_waits (record writer_waits { v = negsuc 0 }) fiber_example (omega arith)
      downgrade_runs

abbrev cv_example : Cv
cv_example = record { waiters = []; nwaiters = 0 }

abbrev our_mutex : Mtx
our_mutex = record { waiters = []; v = 1; flags = 0; o = 41 }

wait-signal_example :
    (cv₁ : Cv) × (mtx₁ : Mtx) × (s₁ : Fiber) × (cv₂ : Cv) × (mtx₂ : Mtx) × (wait_enter 13
        (pos 0)
        7
        cv_example
        our_mutex
        fiber_example
      ≡ some (cv₁, mtx₁, s₁))
    × (mtx₁.v ≡ 0)
    × (has_waiters cv₁ ≡ true)
    × (is_runnable 1 s₁.sched ≡ false)
    × (is_runnable 1 (signal cv₁ s₁).1.sched ≡ true)
    × (wait_leave 13 (signal cv₁ s₁).0 mtx₁ (signal cv₁ s₁).1 ≡ some (0, cv₂, mtx₂))
    × (cv₂.waiters ≡ [])
    × (cv₂.nwaiters ≡ 0)
    × (mtx₂.v ≡ 1)
    × (mtx₂.o ≡ 41)
wait-signal_example = wait-signal 13 (pos 0) 7 cv_example our_mutex fiber_example refl refl refl

abbrev two_wait : Cv
two_wait = record { waiters = 11 ∷ 12 ∷ []; nwaiters = 2 }

broadcast_panics_example :
    (cv₁ : Cv) × (s₁ : Fiber) × (cv₂ : Cv) × (mtx₂ : Mtx) × (broadcast two_wait fiber_example
      ≡ some (cv₁, s₁))
    × (is_runnable 2 s₁.sched ≡ true)
    × (is_runnable 3 s₁.sched ≡ true)
    × (wait_leave 11 cv₁ free_mutex (goes_on 2 s₁) ≡ some (0, cv₂, mtx₂))
    × (wait_leave 12 cv₂ mtx₂ (goes_on 3 s₁) ≡ none)
broadcast_panics_example =
    broadcast_panics 11 12 two_wait free_mutex fiber_example refl refl (omega arith)

wait-timeout_example :
    (cv₁ : Cv) × (mtx₁ : Mtx) × (s₁ : Fiber) × (cv₂ : Cv) × (mtx₂ : Mtx) × (wait_enter 13
        (pos 5)
        (timeout (pos 1) (pos 7))
        two_wait
        our_mutex
        fiber_example
      ≡ some (cv₁, mtx₁, s₁))
    × (is_runnable 1 s₁.sched ≡ false)
    × (is_runnable 1 (at_time (pos 1000000012) 1 s₁).sched
        ≡ leb_ℤ (later_time (pos 5) (timeout (pos 1) (pos 7))) (pos 1000000012))
    × (wait_leave 13 cv₁ mtx₁ (at_time (pos 1000000012) 1 s₁) ≡ some (etimedout, cv₂, mtx₂))
    × (cv₂.waiters ≡ 11 ∷ 12 ∷ [])
    × (cv₂.nwaiters ≡ 2)
    × (mtx₂.v ≡ 1)
    × (mtx₂.o ≡ 41)
unfolding timeout later_time nanoseconds word64 signed
wait-timeout_example =
    wait-timeout 13 (pos 5) (pos 1000000012) (pos 1) (pos 7) two_wait our_mutex fiber_example refl
      refl refl (omega arith) refl
