-- ===== src/Sched/Create.antt =====
-- What `bmk_sched_create` (sched.c) makes.
use rumpuser_baremetal.Base.{
  ℕ, ◌+◌, ◌-◌, ◌%◌, ◌≤◌, ◌<◌, ◌^◌, ◌≡◌, refl, ◌≢◌, Bool, true, false, none, some, List, [], ◌∷◌,
  ◌++◌, ◌==◌, if◌then◌else◌, negsuc, replicate, length, has, arith,
}
use rumpuser_baremetal.Queue.{Tailq}
use rumpuser_baremetal.Heap.{Alloc}
use rumpuser_baremetal.Subr.{strncpy}
use rumpuser_baremetal.Subr.Strncpy.{IsText, strncpy_fits, strncpy_runs_away}
use rumpuser_baremetal.Sched.{
  is_runnable, Sched, Thread, Flags, bouncer, no_flags, name_maxlen, thread_stacksize,
  sizeof_thread, zeroed, set_runnable, set_thread,
}
use rumpuser_baremetal.Sched.Threads.{
  stack_push, cpu_sched_create, xmalloc, stack_of, create, join_enter,
}

module _ ⦃tq : Tailq⦄ ⦃al : Alloc⦄ where
  -- The thread `t`, with its stack at `base`, that will run `f` on `arg`.
  pub record IsCreated (s s' : Sched) (t : ℕ) (str : List ℕ) (f arg base size : ℕ) (ext : Bool)
      : Type 0 where
    pub listed : tq.items s'.threads ≡ t ∷ tq.items s.threads
    pub flags : (s'.thread t).flags ≡ record no_flags { runnable = true; extstack = ext }
    pub wakeup : (s'.thread t).wakeup_time ≡ negsuc 0
    pub starts : (s'.thread t).ip ≡ bouncer
    pub name : (s'.thread t).name ≡ str ++ replicate (name_maxlen - length str) 0 ++ []
    pub stackbase : (s'.thread t).stackbase ≡ base
    pub sp : (s'.thread t).sp ≡ base + size - 8
    pub top : s'.memory (base + size - 4) ≡ f
    pub below : s'.memory (base + size - 8) ≡ arg
    pub others : (u : ℕ) → s'.thread u ≡ (if u == t then s'.thread t else s.thread u)
    pub zombies : s'.zombies ≡ s.zombies
    pub current : s'.current ≡ s.current

  pub xmalloc-some :
      (n a : ℕ) (s : Sched) (h : al.State)
      → al.alloc n s.heap ≡ (some a, h)
      → xmalloc n s ≡ some (a, record s { heap = h })
  unfolding xmalloc
  xmalloc-some n a s h e = rw (e, xmalloc, e)

  stack_of-own :
      (base : ℕ) (s : Sched) (h : al.State)
      → al.alloc thread_stacksize s.heap ≡ (some base, h)
      → stack_of 0 0 s ≡ some (base, thread_stacksize, no_flags, record s { heap = h })
  unfolding stack_of
  stack_of-own base s h e = rw (xmalloc-some thread_stacksize base s h e)

  stack_of-given :
      (base size : ℕ) (s : Sched)
      → base ≢ 0
      → stack_of base size s ≡ some (base, size, record no_flags { extstack = true }, s)
  unfolding stack_of
  stack_of-given base size s n = let e : (base == 0) ≡ false = ground arith in rw e

  module _ (str r : List ℕ) (cookie thrflags f arg : ℕ) (s : Sched) where
    abbrev made : ℕ → ℕ → ℕ → Flags → al.State → List ℕ → Sched
    made t base size flags h name =
        let (sp, memory) = cpu_sched_create f arg ((base + size) % 2 ^ 32) s.memory in
        let b : Thread = record zeroed {
          flags = flags;
          stackbase = base;
          sp = sp;
          ip = bouncer;
          name = name;
          wakeup_time = negsuc 0;
        } in
        let s' : Sched = set_runnable t (set_thread t b (record s { heap = h; memory = memory })) in
        record s' { threads = tq.insert_head t s.threads }

    name_copied :
        IsText str
        → length str < name_maxlen
        → strncpy zeroed.name (str ++ 0 ∷ r) (name_maxlen - 1)
          ≡ some (str ++ replicate (name_maxlen - length str) 0 ++ [])
    name_copied ht short =
        strncpy_fits (replicate name_maxlen 0) str r (name_maxlen - 1) ht (omega arith)
          (omega arith)

    create-made :
        (stack_base stack_size t base size : ℕ) (flags : Flags) (h₁ h₂ : al.State)
        → IsText str
        → length str < name_maxlen
        → al.alloc sizeof_thread s.heap ≡ (some t, h₁)
        → stack_of stack_base stack_size (record s { heap = h₁ })
          ≡ some (base, size, flags, record s { heap = h₂ })
        → create (str ++ 0 ∷ r) cookie thrflags f arg stack_base stack_size s
          ≡ some
              (t, made t base size flags h₂ (str ++ replicate (name_maxlen - length str) 0 ++ []))
    unfolding create
    create-made stack_base stack_size t base size flags h₁ h₂ ht short e₁ e₂ =
        rw (xmalloc-some sizeof_thread t s h₁ e₁, e₂, name_copied ht short) refl

    made-IsCreated :
        (t base size : ℕ) (ext : Bool) (h : al.State)
        → has t (tq.items s.threads) ≡ false
        → 8 ≤ base
        → base + size < 2 ^ 32
        → IsCreated s
            (made t base size
              (record no_flags { extstack = ext })
              h
              (str ++ replicate (name_maxlen - length str) 0 ++ []))
            t
            str
            f
            arg
            base
            size
            ext
    unfolding set_runnable cpu_sched_create stack_push
    made-IsCreated t base size ext h fresh low fits = record {
      listed = tq.items-insert_head t s.threads fresh;
      flags = ground arith;
      wakeup = ground arith;
      starts = ground arith;
      name = ground arith;
      stackbase = ground arith;
      sp = ground arith;
      top = ground arith;
      below = ground arith;
      others = λ u. ground arith;
      zombies = refl;
      current = refl;
    }

    -- With a name of at most 15 characters, memory for the thread at an address where no thread of the
    -- list lies, and memory for a stack of its own that starts at 8 or above and ends below 4 GB: the
    -- thread is put in front of the list, can run, and starts in the bouncer with its function and
    -- argument on its stack. No other thread changes, nor do the exited ones and the running one, and no other memory is
    -- taken.
    pub create_own-IsCreated :
        (t base : ℕ) (h₁ h₂ : al.State)
        → IsText str
        → length str < name_maxlen
        → al.alloc sizeof_thread s.heap ≡ (some t, h₁)
        → al.alloc thread_stacksize h₁ ≡ (some base, h₂)
        → has t (tq.items s.threads) ≡ false
        → 8 ≤ base
        → base + thread_stacksize < 2 ^ 32
        → (s' : Sched) × (create (str ++ 0 ∷ r) cookie thrflags f arg 0 0 s ≡ some (t, s'))
          × IsCreated s s' t str f arg base thread_stacksize false
          × (s'.heap ≡ h₂)
    unfolding set_runnable
    create_own-IsCreated t base h₁ h₂ ht short e₁ e₂ fresh low fits = (
      made t base thread_stacksize no_flags h₂ _,
      create-made 0 0 t base thread_stacksize no_flags h₁ h₂ ht short e₁
          (stack_of-own base (record s { heap = h₁ }) h₂ e₂),
      made-IsCreated t base thread_stacksize false h₂ fresh low fits,
      refl,
    )

    -- The same with a stack that the caller gives: the thread is marked, so that the reaper does not
    -- free that stack.
    pub create_given-IsCreated :
        (t base size : ℕ) (h₁ : al.State)
        → IsText str
        → length str < name_maxlen
        → al.alloc sizeof_thread s.heap ≡ (some t, h₁)
        → has t (tq.items s.threads) ≡ false
        → 8 ≤ base
        → base + size < 2 ^ 32
        → (s' : Sched) × (create (str ++ 0 ∷ r) cookie thrflags f arg base size s ≡ some (t, s'))
          × IsCreated s s' t str f arg base size true
    create_given-IsCreated t base size h₁ ht short e₁ fresh low fits = (
      made t base size (record no_flags { extstack = true }) h₁ _,
      create-made base size t base size _ h₁ h₁ ht short e₁
          (stack_of-given base size (record s { heap = h₁ }) (omega arith)),
      made-IsCreated t base size true h₁ fresh low fits,
    )

    -- A thread with a name of at most 15 characters, for which and for whose stack there is memory, is
    -- created, is the first in the list and can run. But it cannot be joined, whatever `thrflags` it was
    -- created with: the assertion of `bmk_sched_join` fails on it.
    pub create-join :
        (t base : ℕ) (h₁ h₂ : al.State)
        → IsText str
        → length str < name_maxlen
        → al.alloc sizeof_thread s.heap ≡ (some t, h₁)
        → al.alloc thread_stacksize h₁ ≡ (some base, h₂)
        → has t (tq.items s.threads) ≡ false
        → (s' : Sched) × (create (str ++ 0 ∷ r) cookie thrflags f arg 0 0 s ≡ some (t, s'))
          × (tq.items s'.threads ≡ t ∷ tq.items s.threads)
          × (is_runnable t s' ≡ true)
          × (join_enter t s' ≡ none)
    unfolding join_enter set_runnable
    create-join t base h₁ h₂ ht short e₁ e₂ fresh = (
      made t base thread_stacksize no_flags h₂
          (str ++ replicate (name_maxlen - length str) 0 ++ []),
      create-made 0 0 t base thread_stacksize no_flags h₁ h₂ ht short e₁
          (stack_of-own base (record s { heap = h₁ }) h₂ e₂),
      ground (arith, tq.items-insert_head t s.threads fresh),
      ground arith,
      ground arith,
    )

    -- With a name of 16 characters or more, and memory for the thread and its stack, `bmk_strncpy`
    -- runs away and the creation does not come back.
    pub create_long_name :
        (t base : ℕ) (h₁ h₂ : al.State)
        → IsText str
        → name_maxlen ≤ length str
        → al.alloc sizeof_thread s.heap ≡ (some t, h₁)
        → al.alloc thread_stacksize h₁ ≡ (some base, h₂)
        → create (str ++ 0 ∷ r) cookie thrflags f arg 0 0 s ≡ none
    unfolding create
    create_long_name t base h₁ h₂ ht long e₁ e₂ =
        rw
          (
            xmalloc-some sizeof_thread t s h₁ e₁,
            stack_of-own base (record s { heap = h₁ }) h₂ e₂,
            strncpy_runs_away (replicate name_maxlen 0) str r (name_maxlen - 1) ht (omega arith)
                (omega arith),
          )
          refl
