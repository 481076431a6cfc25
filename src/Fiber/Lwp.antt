-- ===== src/Fiber/Lwp.antt =====
-- The threads, the errno and the lwp of rumpfiber.c.
use rumpuser_baremetal.Base.{ℕ, Option, none, some, List, ◌==◌, if◌then◌else◌, ◌>>=◌}
use rumpuser_baremetal.Queue.{Tailq}
use rumpuser_baremetal.Heap.{Alloc}
use rumpuser_baremetal.Sched.{Round}
use rumpuser_baremetal.Sched.Threads.{
  create, settls, set_errno, exit_turn, join_enter, join_turn, join_resume,
}
use rumpuser_baremetal.Fiber.{Fiber, curlwp, einval}

-- `enum rumplwpop`
pub data Op : Type 0 where
  lwp_create lwp_destroy lwp_set lwp_clear : Op

-- `rumpuser_init`, with RUMPUSER_VERSION: its result and `rumpuser__hyp`.
unfoldable pub init {ℓ} : {Hyp : Type ℓ} (rumpuser_version version : ℕ) (hyp old : Hyp) → ℕ × Hyp
init rumpuser_version version hyp old =
    if version == rumpuser_version then (0, hyp) else (einval, old)

module _ ⦃tq : Tailq⦄ ⦃al : Alloc⦄ where
  unfoldable pub seterrno : ℕ → Fiber → Fiber
  seterrno error s = record s { sched = set_errno error s.sched }

  -- `rumpuser_thread_create`: its result and the thread; `pri` and `cpuidx` are not used.
  unfoldable pub thread_create :
      (f arg : ℕ) (thrname : List ℕ) (joinable : ℕ) → Fiber → Option (ℕ × ℕ × Fiber)
  thread_create f arg thrname joinable s =
      create thrname 0 joinable f arg 0 0 s.sched >>= λ (thr, sched').
      (let s' : Fiber = record s { sched = sched' } in
        some (if thr == 0 then (einval, 0, s') else (0, thr, s')))

  -- A turn of `rumpuser_thread_exit`, which does not come back.
  unfoldable pub thread_exit : Fiber → Fiber
  thread_exit s = record s { sched = exit_turn s.sched }

  -- The first turn of `rumpuser_thread_join`, and those behind `bmk_sched`: its result, or `none` while
  -- it waits.
  unfoldable pub thread_join : List Round → (jw p : ℕ) → Fiber → Option (Option ℕ × Fiber)
  thread_join rs jw p s = join_enter p s.sched >>= join_turn rs jw p >>= λ (back, sched').
      some (if back then some 0 else none, record s { sched = sched' })

  unfoldable pub thread_join_on : List Round → (jw p : ℕ) → Fiber → Option (Option ℕ × Fiber)
  thread_join_on rs jw p s = join_turn rs jw p (join_resume jw s.sched) >>= λ (back, sched').
      some (if back then some 0 else none, record s { sched = sched' })

  set_lwp : ℕ → Fiber → Option Fiber
  set_lwp l s = settls s.sched.current 0 l s.sched >>= λ sched'. some (record s { sched = sched' })

  -- `rumpuser_curlwpop`; `none` is a failed assertion.
  unfoldable pub curlwpop : Op → ℕ → Fiber → Option Fiber
  unfolding set_lwp
  curlwpop lwp_create l s = some s
  curlwpop lwp_destroy l s = some s
  curlwpop lwp_set l s = if curlwp s == 0 then set_lwp l s else none
  curlwpop lwp_clear l s = if curlwp s == l then set_lwp 0 s else none
