-- ===== src/Subr.antt =====
-- subr.c: the string and memory routines. A pointer is the memory from the address on, as a list of
-- bytes; a read or a write past its end is a fault, `none`. A destination is returned as it is left.
use rumpuser_baremetal.Base.{
  ℕ, zero, suc, ◌+◌, ◌-◌, ◌%◌, ◌^◌, Option, none, some, List, [], ◌∷◌, ◌==◌, if◌then◌else◌, ◌>>=◌,
  get_elem?, ℤ, ◌-ℤ◌, signed,
}
use mathlib.Core.Option
pub mod Strncpy
pub mod Strcmp

strlen_loop : List ℕ → ℕ → Option ℕ
strlen_loop [] rv = none
strlen_loop (c ∷ m) rv =
    let rest = strlen_loop m ((rv + 1) % 2 ^ 32) in if c == 0 then some rv else rest

unfoldable pub strlen : List ℕ → Option ℕ
unfolding strlen_loop
strlen str = strlen_loop str 0

-- How far both pointers have moved when the `while` of `bmk_strcmp` ends: they move also on the
-- comparison that fails.
strcmp_scan : List ℕ → List ℕ → ℕ → Option ℕ
strcmp_scan [] b i = none
strcmp_scan (x ∷ a) [] i = if x == 0 then some i else none
strcmp_scan (x ∷ a) (y ∷ b) i =
    let rest = strcmp_scan a b (i + 1) in
    if x == 0 then some i else if x == y then rest else some (i + 1)

-- A `char` is signed on i386.
unfoldable pub char_val : ℕ → ℤ
unfolding signed
char_val c = signed 7 c

-- The end of `bmk_strcmp`: the step back after the loop is made only if `*a` is not the terminator.
strcmp_end : List ℕ → List ℕ → ℕ → Option ℤ
strcmp_end a b i = do
  x ← get_elem? a i
  let j = if x == 0 then i else i - 1
  x' ← get_elem? a j
  y' ← get_elem? b j
  some (char_val x' -ℤ char_val y')

unfoldable pub strcmp : List ℕ → List ℕ → Option ℤ
unfolding strcmp_scan strcmp_end
strcmp a b = strcmp_scan a b 0 >>= strcmp_end a b

unfoldable pub strcpy : List ℕ → List ℕ → Option (List ℕ)
strcpy [] s = none
strcpy (_ ∷ d) [] = none
strcpy (_ ∷ d) (c ∷ s) =
    let rest = strcpy d s in Option.map (◌∷◌ c) (if c == 0 then some d else rest)

unfoldable pub memset : List ℕ → ℕ → ℕ → Option (List ℕ)
memset b c zero = some b
memset [] c (suc n) = none
memset (_ ∷ b) c (suc n) = Option.map (◌∷◌ (c % 2 ^ 8)) (memset b c n)

unfoldable pub memcpy : List ℕ → List ℕ → ℕ → Option (List ℕ)
memcpy d src zero = some d
memcpy [] src (suc n) = none
memcpy (_ ∷ d) [] (suc n) = none
memcpy (_ ∷ d) (c ∷ src) (suc n) = Option.map (◌∷◌ c) (memcpy d src n)

-- `while (n--) *d++ = '\0';`
unfoldable pub strncpy_pad : List ℕ → ℕ → Option (List ℕ)
strncpy_pad d zero = some d
strncpy_pad [] (suc n) = none
strncpy_pad (_ ∷ d) (suc n) = Option.map (◌∷◌ 0) (strncpy_pad d n)

-- The first loop tests `n--` after the write of a character that is not the terminator: there an
-- `n` of 0 ends the loop and wraps round.
unfoldable pub strncpy : List ℕ → List ℕ → ℕ → Option (List ℕ)
unfolding strncpy_pad
strncpy [] s n = none
strncpy (_ ∷ d) [] n = none
strncpy (_ ∷ d) (c ∷ s) n =
    let rest = strncpy d s (n - 1) in
    Option.map (◌∷◌ c)
      (if c == 0 then strncpy_pad d n else if n == 0 then strncpy_pad d (2 ^ 32 - 1) else rest)
