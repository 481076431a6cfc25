-- ===== src/Rumpuser.antt =====
-- rumpuser.c: the hypercalls for parameters, memory, random numbers and the clock. The names
-- `RUMPUSER_PARAM_NCPU` and `RUMPUSER_PARAM_HOSTNAME` come from the rump kernel's headers and are
-- parameters.
pub mod Decimal
pub mod Limit
use rumpuser_baremetal.Base.{
  nanoseconds, signed, ℕ, zero, suc, ◌+◌, ◌-◌, ◌*◌, ◌/◌, ◌%◌, ◌^◌, Bool, true, false, Option, none,
  some, List, [], ◌∷◌, ◌++◌, ◌==◌, if◌then◌else◌, ◌>>=◌, ltb, leb, ◌||◌, negsuc, ℤ, pos, get_elem?,
  set?, length, replicate,
}
use rumpuser_baremetal.Queue.{Tailq}
use rumpuser_baremetal.Heap.{Alloc}
use rumpuser_baremetal.Sched.{Sched}
use rumpuser_baremetal.Sched.Threads.{nanosleep}
use rumpuser_baremetal.Kernel.Console.{Cons, putc, puts}
use rumpuser_baremetal.Subr.{strcmp, strncpy}
use rumpuser_baremetal.Kernel.Page.{Pages, allocpg, page_size}
use rumpuser_baremetal.Memalloc.{Malloc, memalloc, memfree}

unfoldable pub putchar : ℕ → Cons → Option Cons
putchar c s = putc c s

-- The arguments behind the format are not used.
unfoldable pub dprintf : (fmt : List ℕ) → Cons → Option Cons
dprintf fmt s = puts fmt s

-- BMK_MEMRESERVE
abbrev pub memreserve : ℕ
memreserve = 1024 * 1024

-- The first loop: the digits of `memsize`, the last one first, from `tmp[i]` on. `tmp` has 64
-- bytes, of which the assertion lets 63 be used; `none` is its failure, as is the end of the fuel.
unfoldable pub digits : ℕ → (memsize i : ℕ) → Option (List ℕ)
digits fuel zero i = some []
digits zero (suc m) i = none
digits (suc fuel) (suc m) i =
    let rest = digits fuel (suc m / 10) (i + 1) in
    if ltb i 63 then (rest >>= λ tmp. some ((suc m % 10 + b'0') ∷ tmp)) else none

-- The second loop: `res[j-i] = tmp[i-1]` for `i` from `j` down to 1.
unfoldable pub put_digits : (i j : ℕ) (tmp res : List ℕ) → Option (List ℕ)
put_digits zero j tmp res = some res
put_digits (suc i) j tmp res = do
  c ← get_elem? tmp i
  res' ← set? res (j - suc i) c
  put_digits i j tmp res'

abbrev pub verbose_name : List ℕ
verbose_name =
    b'R' ∷ b'U' ∷ b'M' ∷ b'P' ∷ b'_' ∷ b'V' ∷ b'E' ∷ b'R' ∷ b'B' ∷ b'O' ∷ b'S' ∷ b'E' ∷ 0 ∷ []

abbrev pub memlimit_name : List ℕ
memlimit_name =
    b'R' ∷ b'U' ∷ b'M' ∷ b'P' ∷ b'_' ∷ b'M' ∷ b'E' ∷ b'M' ∷ b'L' ∷ b'I' ∷ b'M' ∷ b'I' ∷ b'T' ∷ 0
    ∷ []

abbrev pub one_text : List ℕ
one_text = b'1' ∷ 0 ∷ []

abbrev pub host_text : List ℕ
host_text =
    b'r' ∷ b'u' ∷ b'm' ∷ b'p' ∷ b'-' ∷ b'b' ∷ b'a' ∷ b'r' ∷ b'e' ∷ b'm' ∷ b'e' ∷ b't' ∷ b'a' ∷ b'l'
    ∷ 0 ∷ []

-- The branch for RUMP_MEMLIMIT. The memory left has at most 10 digits, so 11 rounds end the loop.
unfoldable pub memlimit : (memsize buflen : ℕ) (buf : List ℕ) → Option (ℕ × List ℕ)
unfolding digits put_digits
memlimit memsize buflen buf =
    if ltb memreserve memsize
    then (digits 11 (memsize - memreserve) 0 >>= λ tmp.
        (let i = length tmp in
          if leb buflen i
          then some (1, buf)
          else (set? buf i 0 >>= put_digits i i tmp >>= λ res. some (0, res))))
    else none

abbrev pub is_zero : ℤ → Bool
is_zero (pos n) = n == 0
is_zero (negsuc n) = false

-- Does `bmk_strcmp` find the name in the list? The names behind one that it finds are not compared.
unfoldable pub is_named : (name : List ℕ) → List (List ℕ) → Option Bool
is_named name [] = some false
is_named name (n ∷ ns) = strcmp name n >>= λ c. if is_zero c then some true else is_named name ns

-- `rumpuser_getparam`, with `bmk_memsize`: its result and the buffer.
unfoldable pub getparam :
    (ncpu_name hostname_name name buf : List ℕ) (buflen memsize : ℕ) → Option (ℕ × List ℕ)
unfolding is_named memlimit
getparam ncpu_name hostname_name name buf buflen memsize =
    if leb buflen 1
    then some (1, buf)
    else (is_named name (ncpu_name ∷ verbose_name ∷ []) >>= λ ncpu.
        if ncpu
        then (strncpy buf one_text (buflen - 1) >>= λ b. some (0, b))
        else (is_named name (hostname_name ∷ []) >>= λ hostname.
            if hostname
            then (strncpy buf host_text (buflen - 1) >>= λ b. some (0, b))
            else (is_named name (memlimit_name ∷ []) >>= λ limit.
                if limit then memlimit memsize buflen buf else some (1, buf))))

-- `rumpuser_malloc`: ENOMEM is 1. A page comes from the page allocator.
unfoldable pub malloc : (howmuch alignment : ℕ) → Malloc → Option (ℕ × Option ℕ × Malloc)
malloc howmuch alignment m =
    let (page, pages) = allocpg 1 m.pages in
    let paged : Malloc = record m { pages = pages } in
    let answer : ℕ → Malloc → ℕ × Option ℕ × Malloc =
      λ rv m'. if rv == 0 then (1, none, m') else (0, some rv, m') in
    if howmuch == page_size
    then some (elim page [ none ↦ answer 0 paged | some rv ↦ answer rv paged ])
    else (memalloc howmuch alignment m >>= λ (rv, m'). some (answer rv m'))

-- A page is not given back.
unfoldable pub free : (mem len : ℕ) → Malloc → Option Malloc
free mem len m = if len == page_size then some m else memfree mem m

-- The loop of `rumpuser_getrandom`: the words that are written and the seed that is left, for
-- `buflen / 4` rounds.
unfoldable pub random_loop : ℕ → (seed : ℕ) → List ℕ × ℕ
random_loop zero seed = ([], seed)
random_loop (suc k) seed =
    let (v, last) = random_loop k ((seed * 1103515245 + 12345) % 2 ^ 32 % 0x80000000) in
    (seed ∷ v, last)

-- The words, the seed, and `*retp`.
unfoldable pub getrandom : (buflen seed : ℕ) → List ℕ × ℕ × ℕ
unfolding random_loop
getrandom buflen seed = let (v, last) = random_loop (buflen / 4) seed in (v, last, buflen)

-- `rumpuser_clock_gettime`: seconds and nanoseconds.
unfoldable pub clock_gettime : (now : ℕ) → ℕ × ℕ
clock_gettime now = (now / 1000000000, now % 1000000000)

-- The time that `rumpuser_clock_sleep` sleeps.
unfoldable pub sleep_time : (sec nsec : ℤ) → ℤ
unfolding nanoseconds signed
sleep_time sec nsec = signed 63 (nanoseconds sec nsec)

module _ ⦃tq : Tailq⦄ ⦃al : Alloc⦄ where
  -- `rumpuser_clock_sleep`: its result, and the scheduler up to the call of `bmk_sched`; `now` is the
  -- clock that it reads.
  unfoldable pub clock_sleep : (now sec nsec : ℤ) → Sched → ℕ × Sched
  unfolding sleep_time
  clock_sleep now sec nsec s = (0, nanosleep now (sleep_time sec nsec) s)
