-- ===== src/Sched/Run/Safe.antt =====
-- What holds in every state that a program of threads (sched.c) reaches.
use rumpuser_baremetal.Base.{ℕ, ◌≡◌, ◌≢◌, true, false, arith, ap, sym}
use rumpuser_baremetal.Queue.{Tailq}
use rumpuser_baremetal.Heap.{Alloc}
use rumpuser_baremetal.Sched.Wf.{IsWf, RunsListed}
use rumpuser_baremetal.Sched.Memory.{IsOwned}
use rumpuser_baremetal.Sched.Run.{
  Program, Step, wakes, yields, waits, sleeps, creates, joins, joins_on, leaves, Reach, start,
  later, IsNew, Inv, listed,
}
use rumpuser_baremetal.Sched.Run.Keeps.{Stays-Inv, sched-Inv, wake-Inv, waits-Stays, sleeps-Stays}
use rumpuser_baremetal.Sched.Run.Creates.{creates-Inv}
use rumpuser_baremetal.Sched.Run.Joins.{joins-Inv, joins_on-Inv}
use rumpuser_baremetal.Sched.Run.Exits.{leaves-Inv}

module _ ⦃tq : Tailq⦄ ⦃al : Alloc⦄ where
  module _ (own : ℕ → ℕ) (own_apart : (t u : ℕ) → own t ≡ own u → t ≡ u) where
    Step-Inv :
        (p q : Program)
        → Step own p q
        → Inv own p × RunsListed p.sched
        → Inv own q × RunsListed q.sched
    Step-Inv p _ (wakes u) (i, r) = wake-Inv own p u i r
    Step-Inv p _ (yields {s = s} rs free e) (i, r) = sched-Inv own p s rs i e
    Step-Inv p _ (waits {s = s} rs abstime free e) (i, r) =
        sched-Inv own _ s rs (Stays-Inv own p _ i (waits-Stays own p abstime i free)) e
    Step-Inv p _ (sleeps {s = s} rs now nsec free e) (i, r) =
        sched-Inv own _ s rs (Stays-Inv own p _ i (sleeps-Stays own p now nsec i free)) e
    Step-Inv p _ (creates {s = s} {u = u} name f arg base size free e) (i, r) =
        creates-Inv own p u s name f arg base size i r e
    Step-Inv p _ (joins {s = s} {s' = s'} {u = u} {back = back} rs free may entered e) (i, r) =
        joins-Inv own own_apart rs u back p s s' i r free may entered e
    Step-Inv p _ (joins_on {s = s} {back = back} rs waiting e) (i, r) =
        joins_on-Inv own own_apart rs back p s i r waiting e
    Step-Inv p _ (leaves {s = s} rs free e) (i, r) = leaves-Inv own own_apart p s rs i r free e

    new-Inv : (p : Program) → IsNew p → Inv own p × RunsListed p.sched
    new-Inv p n = (
      record {
        wf = n.wf;
        memory = n.memory;
        apart = rw n.joinwq tt;
        queued = λ t. rw n.joinwq (ground (arith, n.wants t));
        owned = λ w h. cc (rw n.joinwq at h);
        who = λ t h. absurd (h (n.wants t));
        waits = λ t h. absurd (h (n.wants t));
        single = λ t u h. absurd (h (n.wants t));
        called = λ t. ground (arith, n.unmet t);
        gated = λ t l e. cc (e, n.exiting t);
        woken = λ t h. absurd (h (n.wants t));
        left = λ t h. cc (h, n.left t);
        met = λ t h. cc (h, n.met t);
        to_join = λ t h. ground (arith, n.to_join t, h);
      },
      n.runs,
    )

    Reach-Inv : (p : Program) → Reach own p → Inv own p × RunsListed p.sched
    Reach-Inv p (start n) = new-Inv p n
    Reach-Inv p (later {p = p₀} r step) = Step-Inv p₀ p step (Reach-Inv p₀ r)

    -- However threads with different waiters wake one another, wait, sleep, create, join and exit: the
    -- queues of the scheduler stay well formed, the running thread is in the list and can run, and each
    -- thread in the list or exited and not freed lies in memory in use. A stack that `bmk_sched_create`
    -- got for its thread is in use too, is no thread's own memory, and is not what it got for another;
    -- of stacks that callers give nothing is said.
    pub Reach-IsOwned :
        (p : Program) → Reach own p → IsWf p.sched × RunsListed p.sched × IsOwned p.sched
    Reach-IsOwned p r = let (i, runs) = Reach-Inv p r in (i.wf, runs, i.memory)

    -- In every state that threads with different waiters reach, a thread that has come to the end of
    -- `bmk_sched_exit`, and whose memory no new thread has got since, does not run, is not in the list,
    -- and is one that has called `bmk_sched_exit`.
    pub Reach-left :
        (p : Program) (u : ℕ)
        → Reach own p
        → p.left u ≡ true
        → (u ≢ p.sched.current) × (listed u p.sched ≡ false) × (p.exiting u ≡ true)
    Reach-left p u r h =
        let (i, (here, _)) = Reach-Inv p r in
        let (out, called, _) = i.left u h in
        (λ same. cc (sym (ap (λ (v : ℕ). listed v p.sched) same), out, here), out, called)
