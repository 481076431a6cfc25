-- ===== src/Sched/Run.antt =====
-- The runs of a program of threads (sched.c): they wake one another, wait, sleep, create threads, join
-- them and exit, one at a time.
pub mod Keeps
pub mod Creates
pub mod Waits
pub mod Joins
pub mod Gate
pub mod Exits
pub mod Safe
use rumpuser_baremetal.Base.{
  ℕ, ◌≡◌, ◌≢◌, Bool, true, false, not, ◌&&◌, ◌||◌, some, List, [], ◌==◌, if◌then◌else◌, has,
  Distinct, ℤ, pos,
}
use rumpuser_baremetal.Queue.{Tailq}
use rumpuser_baremetal.Heap.{Alloc}
use rumpuser_baremetal.Sched.{Sched, Round, is_runnable, wake, block, setwakeup, sched}
use rumpuser_baremetal.Sched.Wf.{IsWf, RunsListed}
use rumpuser_baremetal.Sched.Frame.{mustjoin, joined}
use rumpuser_baremetal.Sched.Memory.{IsOwned}
use rumpuser_baremetal.Sched.Threads.{
  create, nanosleep, exit_gate, exit_leave, exit_turn, join_enter, join_turn, join_resume,
}

module _ ⦃tq : Tailq⦄ ⦃al : Alloc⦄ where
  -- The scheduler and, beside its state: the thread that each thread is joining, or 0; which threads
  -- have called `bmk_sched_exit`, and which have come to its last loop; which threads were to be joined,
  -- and which of them a call of `bmk_sched_join` has come back for.
  pub record Program : Type 0 where
    pub sched : Sched
    pub wants : ℕ → ℕ
    pub exiting : ℕ → Bool
    pub left : ℕ → Bool
    pub to_join : ℕ → Bool
    pub met : ℕ → Bool

  abbrev pub listed : ℕ → Sched → Bool
  listed t s = has t (tq.items s.threads)

  -- The running thread is in none of the loops below.
  abbrev pub IsFree : Program → Type 0
  IsFree p = (p.wants p.sched.current ≡ 0) × (p.exiting p.sched.current ≡ false)

  abbrev pub created : ℕ → Sched → Program → Program
  created u s p = record p {
    sched = s;
    exiting = λ t. if t == u then false else p.exiting t;
    left = λ t. if t == u then false else p.left t;
    to_join = λ t. if t == u then false else p.to_join t;
    met = λ t. if t == u then false else p.met t;
  }

  -- Thread `t` has made a turn in its join of `u`.
  abbrev pub joining : (t u : ℕ) (back : Bool) → Sched → Program → Program
  joining t u back s p = record p {
    sched = s;
    wants = λ v. if v == t then (if back then 0 else u) else p.wants v;
    met = λ v. (back && v == u) || p.met v;
  }

  abbrev pub exits : (t : ℕ) (gated : Bool) → Sched → Program → Program
  exits t gated s p = record p {
    sched = s;
    exiting = λ v. v == t || p.exiting v;
    left = λ v. (not gated && v == t) || p.left v;
  }

  -- The program starts with well-formed queues of threads in memory in use, and no join or exit under way.
  pub record IsNew (p : Program) : Type 0 where
    pub wf : IsWf p.sched
    pub memory : IsOwned p.sched
    pub runs : RunsListed p.sched
    pub joinwq : tq.items p.sched.joinwq ≡ []
    pub wants : (t : ℕ) → p.wants t ≡ 0
    pub exiting : (t : ℕ) → p.exiting t ≡ false
    pub left : (t : ℕ) → p.left t ≡ false
    pub to_join : (t : ℕ) → p.to_join t ≡ mustjoin t p.sched
    pub met : (t : ℕ) → p.met t ≡ false
    pub unmet : (t : ℕ) → joined t p.sched ≡ false

  -- Each thread has a waiter on its stack.
  module _ (own : ℕ → ℕ) where
    -- The running thread goes on behind the wait of its join.
    abbrev pub resumed : Program → Program
    resumed p = record p {
      sched = join_resume (own p.sched.current) p.sched;
      wants = λ v. if v == p.sched.current then 0 else p.wants v;
    }

    -- A turn of the running thread. A thread is joined by one other at a time, while it is in the list.
    pub data Step : Program → Program → Type 0 where
      wakes : {p : Program} (u : ℕ) → Step p (record p { sched = wake u p.sched })
      yields :
          {p : Program} {s : Sched} (rs : List Round)
          → IsFree p
          → sched rs p.sched ≡ some s
          → Step p (record p { sched = s })
      waits :
          {p : Program} {s : Sched} (rs : List Round) (abstime : ℤ)
          → IsFree p
          → sched rs (setwakeup p.sched.current abstime (block p.sched.current p.sched)) ≡ some s
          → Step p (record p { sched = s })
      sleeps :
          {p : Program} {s : Sched} (rs : List Round) (now nsec : ℤ)
          → IsFree p
          → sched rs (nanosleep now nsec p.sched) ≡ some s
          → Step p (record p { sched = s })
      creates :
          {p : Program} {s : Sched} {u : ℕ} (name : List ℕ) (f arg base size : ℕ)
          → IsFree p
          → create name 0 0 f arg base size p.sched ≡ some (u, s)
          → Step p (created u s p)
      joins :
          {p : Program} {s s' : Sched} {u : ℕ} {back : Bool} (rs : List Round)
          → IsFree p
          → (u ≢ 0) × (listed u p.sched ≡ true) × ((v : ℕ) → p.wants v ≢ u)
          → join_enter u p.sched ≡ some s
          → join_turn rs (own p.sched.current) u s ≡ some (back, s')
          → Step p (joining p.sched.current u back s' p)
      joins_on :
          {p : Program} {s : Sched} {back : Bool} (rs : List Round)
          → p.wants p.sched.current ≢ 0
          → join_turn rs (own p.sched.current) (p.wants p.sched.current) (resumed p).sched
            ≡ some (back, s)
          → Step p (joining p.sched.current (p.wants p.sched.current) back s (resumed p))
      leaves :
          {p : Program} {s : Sched} (rs : List Round)
          → p.wants p.sched.current ≡ 0
          → sched rs (exit_turn p.sched) ≡ some s
          → Step p (exits p.sched.current (mustjoin p.sched.current p.sched) s p)

    pub data Reach : Program → Type 0 where
      start : {p : Program} → IsNew p → Reach p
      later : {p q : Program} → Reach p → Step p q → Reach q

    -- What holds between any two turns, and before `bmk_sched`.
    pub record Inv (p : Program) : Type 0 where
      pub wf : IsWf p.sched
      pub memory : IsOwned p.sched
      pub apart : Distinct (tq.items p.sched.joinwq)
      pub queued : (t : ℕ) → has (own t) (tq.items p.sched.joinwq) ≡ not (p.wants t == 0)
      pub owned : (w : ℕ) → has w (tq.items p.sched.joinwq) ≡ true → (t : ℕ) × (w ≡ own t)
      pub who : (t : ℕ) → p.wants t ≢ 0 → p.sched.waiter (own t) ≡ (t, p.wants t)
      pub waits :
          (t : ℕ)
          → p.wants t ≢ 0
          → (listed t p.sched ≡ true)
            × (p.exiting t ≡ false)
            × (listed (p.wants t) p.sched ≡ true)
            × (mustjoin (p.wants t) p.sched ≡ true)
      pub single : (t u : ℕ) → p.wants t ≢ 0 → p.wants t ≡ p.wants u → t ≡ u
      pub called : (t : ℕ) → (not (joined t p.sched) || p.exiting t) ≡ true
      pub gated :
          (t : ℕ)
          → listed t p.sched ≡ true
          → p.exiting t ≡ true
          → (joined t p.sched ≡ true) × ((mustjoin t p.sched || is_runnable t p.sched) ≡ true)
      pub woken :
          (t : ℕ) → p.wants t ≢ 0 → p.exiting (p.wants t) ≡ true → is_runnable t p.sched ≡ true
      pub left :
          (t : ℕ)
          → p.left t ≡ true
          → (listed t p.sched ≡ false) × (p.exiting t ≡ true) × (mustjoin t p.sched ≡ false)
      pub met : (t : ℕ) → p.met t ≡ true → (p.exiting t ≡ true) × (mustjoin t p.sched ≡ false)
      pub to_join : (t : ℕ) → p.to_join t ≡ true → (mustjoin t p.sched || p.met t) ≡ true
