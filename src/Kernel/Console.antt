-- ===== src/Kernel/Console.antt =====
-- `cons_putat`, `bmk_cons_putc`, `bmk_cons_puts` and `bmk_init` (kernel.c). A write outside the
-- 80 by 25 cells of the screen is a fault, `none`.
use rumpuser_baremetal.Base.{
  ℕ, zero, suc, ◌+◌, ◌-◌, ◌*◌, ◌/◌, ◌%◌, ◌^◌, Bool, true, false, Option, none, some, List, [], ◌∷◌,
  ltb, ◌==◌, if◌then◌else◌, ◌>>=◌, bit_or,
}

abbrev pub cons_width : ℕ
cons_width = 80

abbrev pub cons_height : ℕ
cons_height = 25

abbrev pub cons_magenta : ℕ
cons_magenta = 0x500

-- `cons_buf`, with the statics of `bmk_cons_putc`.
pub record Cons : Type 0 where
  pub buf : ℕ → ℕ
  pub x : ℕ
  pub y : ℕ

abbrev pub write : (ℕ → ℕ) → ℕ → ℕ → ℕ → ℕ
write m p v q = if q == p then v else m q

unfoldable pub store : ℕ → ℕ → (ℕ → ℕ) → Option (ℕ → ℕ)
store p v m = if ltb p (cons_height * cons_width) then some (write m p v) else none

-- The cell of a character: `CONS_MAGENTA|c`, as the 16 bits that are stored.
unfoldable pub cell : ℕ → ℕ
cell c = bit_or cons_magenta c % 2 ^ 16

unfoldable pub putat : ℕ → ℕ → ℕ → (ℕ → ℕ) → Option (ℕ → ℕ)
unfolding store
putat c x y m = store (x + y * cons_width) (cell c) m

-- The loop that scrolls: `k` rounds from `x` on.
unfoldable pub scroll_loop : ℕ → ℕ → (ℕ → ℕ) → Option (ℕ → ℕ)
scroll_loop zero x m = some m
scroll_loop (suc k) x m = store x (m (x + cons_width)) m >>= scroll_loop k (x + 1)

-- The loop that clears line `y`: `k` rounds from column `x` on.
unfoldable pub clear_loop : ℕ → ℕ → ℕ → (ℕ → ℕ) → Option (ℕ → ℕ)
clear_loop zero x y m = some m
clear_loop (suc k) x y m = putat b' ' x y m >>= clear_loop k (x + 1) y

-- The first test of `bmk_cons_putc`: the cursor, the cells and `doclear`.
unfoldable pub show : ℕ → Cons → Option (Cons × Bool)
show c s =
    if c == 10
    then some (record s { x = 0; y = s.y + 1 }, true)
    else if c == 13
    then some (record s { x = 0 }, false)
    else (putat c s.x s.y s.buf >>= λ m. some (record s { buf = m; x = s.x + 1 }, false))

-- The second: the end of a line.
unfoldable pub wrap : Cons × Bool → Cons × Bool
wrap (s, doclear) =
    if s.x == cons_width then (record s { x = 0; y = s.y + 1 }, true) else (s, doclear)

-- The third: the end of the screen.
unfoldable pub scroll : Cons → Option Cons
scroll s =
    if s.y == cons_height
    then (scroll_loop ((cons_height - 1) * cons_width) 0 s.buf >>= λ m.
        some (record s { buf = m; y = s.y - 1 }))
    else some s

unfoldable pub clear_line : Bool → Cons → Option Cons
clear_line doclear s =
    if doclear
    then (clear_loop cons_width 0 s.y s.buf >>= λ m. some (record s { buf = m }))
    else some s

unfoldable pub putc : ℕ → Cons → Option Cons
unfolding show wrap scroll clear_line
putc c s = do shown ← show c s; let (t, doclear) = wrap shown; u ← scroll t; clear_line doclear u

-- A `char` is signed: as an `int`, 32 bits here, one from 128 on is negative.
abbrev pub promoted : ℕ → ℕ
promoted c = if ltb c 128 then c else c + (2 ^ 32 - 2 ^ 8)

unfoldable pub puts : List ℕ → Cons → Option Cons
puts [] s = none
puts (c ∷ str) s = if c == 0 then some s else (putc (promoted c) s >>= puts str)

-- `bmk_init`: every cell of the screen is blank.
unfoldable pub init_loop : ℕ → ℕ → (ℕ → ℕ) → Option (ℕ → ℕ)
init_loop zero x m = some m
init_loop (suc k) x m = putat b' ' (x % cons_width) (x / cons_width) m >>= init_loop k (x + 1)

unfoldable pub init : (ℕ → ℕ) → Option (ℕ → ℕ)
init m = init_loop (cons_height * cons_width) 0 m
