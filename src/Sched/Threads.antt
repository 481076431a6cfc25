-- ===== src/Sched/Threads.antt =====
-- The life of a thread (sched.c, arch/i386/cpu_sched.c): creation, exit, join and sleep. What
-- `bmk_sched_exit` and `bmk_sched_join` do between two calls of `bmk_sched` is one function each.
use rumpuser_baremetal.Base.{
  ℕ, ◌+◌, ◌-◌, ◌%◌, ◌^◌, Bool, true, false, Option, none, some, List, [], ◌∷◌, ◌==◌, if◌then◌else◌,
  ◌>>=◌, ltb, ℤ, negsuc, later_time, word64,
}
use rumpuser_baremetal.Queue.{Tailq}
use rumpuser_baremetal.Heap.{Alloc}
use rumpuser_baremetal.Subr.{strncpy}
use rumpuser_baremetal.Sched.{
  Sched, Thread, Flags, bouncer, no_flags, name_maxlen, tls_count, thread_stacksize, sizeof_thread,
  zeroed, set_thread, set_runnable, clear_runnable, wake, block, Round, sched,
}

-- The C string "init" behind its characters' terminator, and the address of `init_thread`.
abbrev pub init_name : List ℕ
init_name = b'i' ∷ b'n' ∷ b'i' ∷ b't' ∷ 0 ∷ []

-- stack_push: the new stack pointer and the memory.
unfoldable pub stack_push : ℕ → ℕ → (ℕ → ℕ) → ℕ × (ℕ → ℕ)
stack_push sp value m =
    let sp' = (sp + 2 ^ 32 - 4) % 2 ^ 32 in (sp', λ a. if a == sp' then value else m a)

-- `bmk_cpu_sched_create`.
unfoldable pub cpu_sched_create : (f arg sp : ℕ) → (ℕ → ℕ) → ℕ × (ℕ → ℕ)
cpu_sched_create f arg sp m = let (sp₁, m₁) = stack_push sp f m in stack_push sp₁ arg m₁

module _ ⦃tq : Tailq⦄ ⦃al : Alloc⦄ where
  -- `bmk_xmalloc` panics where there is no memory.
  unfoldable pub xmalloc : ℕ → Sched → Option (ℕ × Sched)
  xmalloc n s =
      let (p, h) = al.alloc n s.heap in
      elim p [ none ↦ none | some a ↦ some (a, record s { heap = h }) ]

  -- The stack: its base, its size and the flags that go with it. A stack of the caller's is kept.
  unfoldable pub stack_of : (stack_base stack_size : ℕ) → Sched → Option (ℕ × ℕ × Flags × Sched)
  stack_of stack_base stack_size s =
      if stack_base == 0
      then (if stack_size == 0
          then (xmalloc thread_stacksize s >>= λ (base, s').
              some (base, thread_stacksize, no_flags, s'))
          else none)
      else some (stack_base, stack_size, record no_flags { extstack = true }, s)

  -- `bmk_sched_create`; `cookie` and `thrflags` are passed and not used.
  unfoldable pub create :
      (name : List ℕ) (cookie thrflags f arg stack_base stack_size : ℕ) → Sched → Option (ℕ × Sched)
  unfolding set_runnable
  create name cookie thrflags f arg stack_base stack_size s = do
    (t, s₁) ← xmalloc sizeof_thread s
    (base, size, flags, s₂) ← stack_of stack_base stack_size s₁
    let (sp, memory) = cpu_sched_create f arg ((base + size) % 2 ^ 32) s₂.memory
    name' ← strncpy zeroed.name name (name_maxlen - 1)
    let b : Thread = record zeroed {
      flags = flags;
      stackbase = base;
      sp = sp;
      ip = bouncer;
      name = name';
      wakeup_time = negsuc 0;
    }
    let s₃ = set_runnable t (set_thread t b (record s₂ { memory = memory }))
    some (t, record s₃ { threads = tq.insert_head t s₃.threads })

  -- `bmk_sched_init`, with the address of the static `init_thread`.
  unfoldable pub sched_init : ℕ → Sched → Option Sched
  unfolding set_runnable
  sched_init init_thread s = do
    name ← strncpy (s.thread init_thread).name init_name (name_maxlen - 1)
    let b : Thread = record (s.thread init_thread) {
      name = name;
      flags = no_flags;
      wakeup_time = negsuc 0;
    }
    let s' = set_runnable init_thread (set_thread init_thread b s)
    some (record s' { threads = tq.insert_tail init_thread s'.threads; current = init_thread })

  abbrev set_flags : ℕ → Flags → Sched → Sched
  set_flags t f s = set_thread t (record (s.thread t) { flags = f }) s

  -- The TAILQ_FOREACH of `bmk_sched_exit`: the first waiter for `t` has its thread woken.
  unfoldable pub wake_joiner : ℕ → List ℕ → Sched → Sched
  wake_joiner t [] s = s
  wake_joiner t (jw ∷ jws) s =
      if (s.waiter jw).1 == t then wake (s.waiter jw).0 s else wake_joiner t jws s

  -- The gate of `bmk_sched_exit` for a thread that must be joined, up to its call of `bmk_sched`.
  unfoldable pub exit_gate : Sched → Sched
  unfolding wake_joiner block
  exit_gate s =
      let t = s.current in
      let s₁ = set_flags t (record (s.thread t).flags { joined = true }) s in
      block t (wake_joiner t (tq.items s₁.joinwq) s₁)

  -- The rest of `bmk_sched_exit`, up to its last call of `bmk_sched`.
  unfoldable pub exit_leave : Sched → Sched
  unfolding clear_runnable
  exit_leave s =
      let t = s.current in
      let s₁ = clear_runnable t (record s { threads = tq.remove t s.threads }) in
      record s₁ { zombies = tq.insert_head t s₁.zombies }

  -- One turn of the thread that exits: at the gate while it must be joined.
  unfoldable pub exit_turn : Sched → Sched
  unfolding exit_gate exit_leave
  exit_turn s = if (s.thread s.current).flags.mustjoin then exit_gate s else exit_leave s

  -- `bmk_sched_join` up to the test of its loop.
  unfoldable pub join_enter : ℕ → Sched → Option Sched
  join_enter joinable s = if (s.thread joinable).flags.mustjoin then some s else none

  -- A round of the loop, up to its call of `bmk_sched`, and behind it. `jw` is the waiter on the
  -- stack.
  unfoldable pub join_wait : ℕ → ℕ → Sched → Sched
  unfolding block
  join_wait jw joinable s = block s.current (record s {
    waiter = λ j. if j == jw then (s.current, joinable) else s.waiter j;
    joinwq = tq.insert_tail jw s.joinwq;
  })

  unfoldable pub join_resume : ℕ → Sched → Sched
  join_resume jw s = record s { joinwq = tq.remove jw s.joinwq }

  -- Behind the loop.
  unfoldable pub join_done : ℕ → Sched → Option Sched
  unfolding wake
  join_done joinable s =
      if (s.thread joinable).flags.joined
      then some (
          wake joinable
            (set_flags joinable (record (s.thread joinable).flags { mustjoin = false }) s))
      else none

  -- One turn of the loop of `bmk_sched_join` up to the point where `bmk_sched` comes back, or the rest
  -- of `bmk_sched_join` where the loop is left: whether it was left.
  unfoldable pub join_turn : List Round → (jw joinable : ℕ) → Sched → Option (Bool × Sched)
  join_turn rs jw joinable s =
      if (s.thread joinable).flags.joined
      then (join_done joinable s >>= λ s'. some (true, s'))
      else sched rs (join_wait jw joinable s) >>= λ s'. some (false, s')

  -- `bmk_sched_nanosleep`, up to its call of `bmk_sched`; `now` is the clock that it reads.
  unfoldable pub nanosleep : (now nsec : ℤ) → Sched → Sched
  unfolding clear_runnable
  nanosleep now nsec s = clear_runnable s.current (
      set_thread s.current
        (record (s.thread s.current) { wakeup_time = later_time now (word64 nsec) }) s)

  unfoldable pub settls : (t which value : ℕ) → Sched → Option Sched
  settls t which value s =
      if ltb which tls_count
      then some (
          set_thread t
            (record (s.thread t) { tls = λ w. if w == which then value else (s.thread t).tls w }) s)
      else none

  unfoldable pub gettls : (t which : ℕ) → Sched → Option ℕ
  gettls t which s = if ltb which tls_count then some ((s.thread t).tls which) else none

  -- `*bmk_sched_geterrno()`, read and written.
  unfoldable pub get_errno : Sched → ℕ
  get_errno s = (s.thread s.current).errno

  unfoldable pub set_errno : ℕ → Sched → Sched
  set_errno error s = set_thread s.current (record (s.thread s.current) { errno = error }) s

  -- `bmk_sched_set_hook`, which nothing reads, and `bmk_sched_init_mainthread`.
  unfoldable pub set_hook : ℕ → Sched → Sched
  set_hook f s = record s { hook = f }

  unfoldable pub init_mainthread : (cookie : ℕ) → Sched → ℕ
  init_mainthread cookie s = s.current
