-- ===== src/Fiber.antt =====
-- rumpfiber.c: the waiters that the locks and condition variables keep, over the scheduler. A
-- function that blocks is cut at its call of `bmk_sched`: what it does before, and what it does
-- when it goes on.
pub mod Wakeup
pub mod Mutex
pub mod Rw
pub mod Cv
pub mod Lwp
use rumpuser_baremetal.Base.{
  ℕ, zero, suc, ◌+◌, ◌≡◌, Bool, true, false, Option, none, some, List, [], ◌∷◌, ◌==◌, if◌then◌else◌,
  head?, ℤ, pos, later_time, length,
}
use rumpuser_baremetal.Queue.{Tailq}
use rumpuser_baremetal.Heap.{Alloc}
use rumpuser_baremetal.Sched.{Sched, wake, block, setwakeup}

-- include/bmk/kernel.h
abbrev pub ebusy : ℕ
ebusy = 2

abbrev pub einval : ℕ
einval = 3

abbrev pub etimedout : ℕ
etimedout = 4

-- `struct waiter`, less its queue entry.
pub record Waiter : Type 0 where
  pub who : ℕ
  pub onlist : Bool

module _ ⦃tq : Tailq⦄ ⦃al : Alloc⦄ where
  -- The scheduler, with the waiters, which stand on the stacks of those who wait.
  pub record Fiber : Type 0 where
    pub sched : Sched
    pub waiter : ℕ → Waiter

  -- `bmk_sched_gettls(bmk_sched_current(), BMK_TLS_RUMPLWP)`; `rumpuser_curlwp` is the same.
  abbrev pub curlwp : Fiber → ℕ
  curlwp s = (s.sched.thread s.sched.current).tls 0

  abbrev pub set_waiter : ℕ → Waiter → Fiber → Fiber
  set_waiter w v s = record s { waiter = λ u. if u == w then v else s.waiter u }

  -- `wait` up to `bmk_sched`; `w` is the waiter on the stack, `now` the clock that is read if there is
  -- a timeout.
  unfoldable pub wait_begin : (w : ℕ) (now : ℤ) (nsec : ℕ) → tq.Head → Fiber → tq.Head × Fiber
  unfolding block setwakeup
  wait_begin w now nsec wh s =
      let who = s.sched.current in
      let blocked = block who s.sched in
      let timed = if nsec == 0 then blocked else setwakeup who (later_time now nsec) blocked in
      (
        tq.insert_tail w wh,
        set_waiter w (record { who = who; onlist = true }) (record s { sched = timed }),
      )

  -- `wait` when it goes on: the queue, and its result.
  unfoldable pub wait_end : ℕ → tq.Head → Fiber → tq.Head × ℕ
  wait_end w wh s = if (s.waiter w).onlist then (tq.remove w wh, etimedout) else (wh, 0)

  -- One waiter is taken off the queue and woken.
  unfoldable pub take_waiter : ℕ → tq.Head → Fiber → tq.Head × Fiber
  unfolding wake
  take_waiter w wh s =
      let s' = set_waiter w (record { who = (s.waiter w).who; onlist = false }) s in
      (tq.remove w wh, record s' { sched = wake (s.waiter w).who s'.sched })

  unfoldable pub wakeup_one : tq.Head → Fiber → tq.Head × Fiber
  wakeup_one wh s = elim (head? (tq.items wh)) [ none ↦ (wh, s) | some w ↦ take_waiter w wh s ]

  -- The `while` of `wakeup_all`, on fuel; `none` means that the fuel ran out.
  unfoldable pub wakeup_loop : ℕ → tq.Head → Fiber → Option (tq.Head × Fiber)
  wakeup_loop zero wh s = none
  wakeup_loop (suc fuel) wh s = elim (head? (tq.items wh)) [
    | none ↦ some (wh, s)
    | some w ↦ (let (wh', s') = take_waiter w wh s in wakeup_loop fuel wh' s')
  ]

  -- Each round takes a waiter off, so one round more than there are waiters ends the loop.
  unfoldable pub wakeup_all : tq.Head → Fiber → Option (tq.Head × Fiber)
  wakeup_all wh s = wakeup_loop (suc (length (tq.items wh))) wh s
