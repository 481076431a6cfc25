-- ===== src/Sched.antt =====
-- sched.c: the threads and the scheduler. A thread is named by its address, 0 is NULL. The queues
-- and the allocator are parameters. A run that is `none` has panicked, failed an assertion, or waits
-- for an interrupt that does not come.
pub mod Pick
pub mod Returns
pub mod Fair
pub mod Reap
pub mod Threads
pub mod Create
pub mod Wf
pub mod Frame
pub mod Memory
pub mod Adds
pub mod Run
use rumpuser_baremetal.Base.{
  ℕ, zero, suc, ◌+◌, ◌-◌, ◌*◌, ◌%◌, ◌^◌, ◌≡◌, Bool, true, false, not, ◌&&◌, ◌||◌, Option, none,
  some, List, [], ◌∷◌, ◌==◌, if◌then◌else◌, ◌>>=◌, ltb, ℤ, pos, negsuc, leb_ℤ, replicate,
}
use rumpuser_baremetal.Queue.{Tailq}
use rumpuser_baremetal.Heap.{Alloc}

-- The bits of `bt_flags`: THREAD_RUNNABLE, MUSTJOIN, JOINED, EXTSTACK, TIMEDOUT.
pub record Flags : Type 0 where
  pub runnable : Bool
  pub mustjoin : Bool
  pub joined : Bool
  pub extstack : Bool
  pub timedout : Bool

abbrev pub no_flags : Flags
no_flags = record {
  runnable = false;
  mustjoin = false;
  joined = false;
  extstack = false;
  timedout = false;
}

-- Where a thread goes on when it is switched to: `bmk_cpu_sched_bouncer` at first, then the point
-- behind its own call of `bmk_cpu_sched_switch`.
pub data Ip : Type 0 where
  bouncer switched : Ip

pub record Thread : Type 0 where
  pub name : List ℕ
  pub tls : ℕ → ℕ
  pub wakeup_time : ℤ
  pub flags : Flags
  pub errno : ℕ
  pub stackbase : ℕ
  pub sp : ℕ
  pub ip : Ip

abbrev pub name_maxlen : ℕ
name_maxlen = 16

abbrev pub tls_count : ℕ
tls_count = 2

abbrev pub thread_stacksize : ℕ
thread_stacksize = 2 ^ 16

-- sizeof(struct bmk_thread) on i386.
abbrev pub sizeof_thread : ℕ
sizeof_thread = 60

-- What `bmk_memset(thread, 0, sizeof(*thread))` leaves.
abbrev pub zeroed : Thread
zeroed = record {
  name = replicate name_maxlen 0;
  tls = λ _. 0;
  wakeup_time = pos 0;
  flags = no_flags;
  errno = 0;
  stackbase = 0;
  sp = 0;
  ip = switched;
}

-- One round of the `do` loop of `bmk_sched`: the clock it reads, and the threads that interrupts
-- wake while the processor halts.
pub record Round : Type 0 where
  pub now : ℤ
  pub woken : List ℕ

module _ ⦃tq : Tailq⦄ ⦃al : Alloc⦄ where
  open tq use {Head, insert_head, insert_tail, remove, items}

  -- The statics of sched.c: `hook` is the function that `bmk_sched_set_hook` stores, `waiter` holds the
  -- join waiters, `jw_thread` and `jw_wanted`.
  pub record Sched : Type 0 where
    pub threads : Head
    pub zombies : Head
    pub joinwq : Head
    pub current : ℕ
    pub thread : ℕ → Thread
    pub waiter : ℕ → ℕ × ℕ
    pub heap : al.State
    pub memory : ℕ → ℕ
    pub hook : ℕ

  abbrev pub set_thread : ℕ → Thread → Sched → Sched
  set_thread t b s = record s { thread = λ u. if u == t then b else s.thread u }

  abbrev pub is_runnable : ℕ → Sched → Bool
  is_runnable t s = (s.thread t).flags.runnable

  unfoldable pub set_runnable : ℕ → Sched → Sched
  set_runnable t s =
      let b = s.thread t in set_thread t (record b { flags = record b.flags { runnable = true } }) s

  unfoldable pub clear_runnable : ℕ → Sched → Sched
  clear_runnable t s =
      let b = s.thread t in
      set_thread t (record b { flags = record b.flags { runnable = false } }) s

  unfoldable pub setwakeup : ℕ → ℤ → Sched → Sched
  setwakeup t abstime s = set_thread t (record (s.thread t) { wakeup_time = abstime }) s

  unfoldable pub wake : ℕ → Sched → Sched
  unfolding setwakeup set_runnable
  wake t s = set_runnable t (setwakeup t (negsuc 0) s)

  unfoldable pub block : ℕ → Sched → Sched
  unfolding setwakeup clear_runnable
  block t s = clear_runnable t (setwakeup t (negsuc 0) s)

  unfoldable pub set_timedout : ℕ → Sched → Sched
  set_timedout t s =
      let b = s.thread t in set_thread t (record b { flags = record b.flags { timedout = true } }) s

  -- A sleeping thread whose time has come is woken.
  unfoldable pub expire : ℤ → ℕ → Sched → Sched
  unfolding wake set_timedout
  expire tm t s =
      if not (is_runnable t s)
        && leb_ℤ (pos 0) (s.thread t).wakeup_time
        && leb_ℤ (s.thread t).wakeup_time tm
      then wake t (set_timedout t s)
      else s

  -- The TAILQ_FOREACH_SAFE of `bmk_sched`: the first thread that can run goes to the end.
  unfoldable pub scan : ℤ → List ℕ → Sched → Option ℕ × Sched
  scan tm [] s = (none, s)
  scan tm (t ∷ ts) s =
      let s' = expire tm t s in
      let rest = scan tm ts s' in
      if is_runnable t s'
      then (some t, record s' { threads = insert_tail t (remove t s'.threads) })
      else rest

  unfoldable pub wake_each : List ℕ → Sched → Sched
  wake_each [] s = s
  wake_each (t ∷ ts) s = wake_each ts (wake t s)

  unfoldable pub pick : List Round → Sched → Option (ℕ × Sched)
  pick [] s = none
  pick (r ∷ rs) s =
      let (found, s') = scan r.now (items s.threads) s in
      elim found [ some t ↦ some (t, s') | none ↦ pick rs (wake_each r.woken s') ]

  -- `sched_switch`, for two different threads: the one that stops goes on behind its switch.
  unfoldable pub switch : ℕ → Sched → Sched
  switch next s =
      let b = s.thread s.current in
      record (set_thread s.current (record b { ip = switched }) s) { current = next }

  -- One round of the reaper: `prev` is the thread that runs it.
  unfoldable pub reap_one : ℕ → ℕ → Sched → Sched
  reap_one prev t s =
      let stack_freed =
        if (s.thread t).flags.extstack then s.heap else al.free (s.thread t).stackbase s.heap in
      if t == prev
      then s
      else record s { zombies = remove t s.zombies; heap = al.free t stack_freed }

  unfoldable pub reap_each : ℕ → List ℕ → Sched → Sched
  reap_each prev [] s = s
  reap_each prev (t ∷ ts) s = reap_each prev ts (reap_one prev t s)

  unfoldable pub reap : Sched → Sched
  unfolding reap_each reap_one
  reap s = reap_each s.current (items s.zombies) s

  -- Does a thread start in the bouncer?
  abbrev pub is_fresh : ℕ → Sched → Bool
  is_fresh t s = elim (s.thread t).ip [ bouncer ↦ true | switched ↦ false ]

  -- `bmk_sched` behind its loop, up to the point where the chosen thread runs. A thread that runs for
  -- the first time starts in the bouncer, and not in the rest of `bmk_sched`.
  unfoldable pub run_next : ℕ → Sched → Sched
  run_next next s =
      if next == s.current
      then reap s
      else if is_fresh next s
      then switch next s
      else reap (switch next s)

  unfoldable pub sched : List Round → Sched → Option Sched
  sched rs s = pick rs s >>= λ (next, s'). some (run_next next s')
