-- ===== src/Libc.antt =====
-- libc_malloc.c: the C library's allocator over memalloc.c.
pub mod Mmap
use rumpuser_baremetal.Base.{ℕ, ◌*◌, ◌%◌, ◌^◌, Option, none, some, ◌==◌, if◌then◌else◌, ◌>>=◌}
use rumpuser_baremetal.Memalloc.{Malloc, memalloc, memfree, memrealloc}

-- `posix_memalign`: the error, which is 10 where there is no memory, and `*rv`.
unfoldable pub posix_memalign : (nbytes align : ℕ) → Malloc → Option (ℕ × Option ℕ × Malloc)
posix_memalign nbytes align m =
    memalloc nbytes align m >>= λ (v, m'). some (if v == 0 then (10, none, m') else (0, some v, m'))

unfoldable pub malloc : (size : ℕ) → Malloc → Option (ℕ × Malloc)
malloc size m = memalloc size 8 m

-- `calloc`: the memory, and how many of its bytes were cleared.
unfoldable pub calloc : (n size : ℕ) → Malloc → Option (ℕ × ℕ × Malloc)
unfolding malloc
calloc n size m =
    let tot = n * size % 2 ^ 32 in
    malloc tot m >>= λ (v, m'). some (if v == 0 then (0, 0, m') else (v, tot, m'))

unfoldable pub realloc : (cp nbytes : ℕ) → Malloc → Option (ℕ × Option (ℕ × ℕ × ℕ) × Malloc)
realloc cp nbytes m = memrealloc cp nbytes m

unfoldable pub free : (cp : ℕ) → Malloc → Option Malloc
free cp m = memfree cp m
