-- ===== src/Examples/Boot.antt =====
-- The console's and the string routines' theorems at concrete texts.
use rumpuser_baremetal.Base.{
  ℕ, ◌+◌, ◌-◌, ◌≡◌, none, some, List, [], ◌∷◌, ◌++◌, arith, replicate, drop, ◌-ℤ◌, length,
}
use rumpuser_baremetal.Kernel.Console.{Cons, puts}
use rumpuser_baremetal.Kernel.Screen.{InScreen, advance_all, puts-advance}
use rumpuser_baremetal.Subr.{strncpy, strcmp, char_val}
use rumpuser_baremetal.Subr.Strncpy.{IsText, strncpy_fits, strncpy_runs_away}
use rumpuser_baremetal.Subr.Strcmp.{strcmp_behind}

-- The cursor stands in the last cell of the screen.
abbrev cons_example : Cons
cons_example = record { buf = λ i. i; x = 79; y = 24 }

abbrev text_example : List ℕ
text_example = b'o' ∷ b'k' ∷ 10 ∷ []

text_example-IsText : IsText text_example
text_example-IsText =
    (omega arith, omega arith, (omega arith, omega arith, (omega arith, omega arith, tt)))

puts-advance_example :
    (puts (text_example ++ 0 ∷ b'x' ∷ []) cons_example
      ≡ some (advance_all text_example cons_example))
    × InScreen (advance_all text_example cons_example)
puts-advance_example =
    puts-advance text_example (b'x' ∷ []) cons_example text_example-IsText
      (omega arith, omega arith)

strncpy_fits_example :
    strncpy (replicate 8 7) (text_example ++ 0 ∷ []) 5
    ≡ some
        (text_example ++ replicate (5 + 1 - length text_example) 0 ++ drop (5 + 1) (replicate 8 7))
strncpy_fits_example =
    strncpy_fits (replicate 8 7) text_example [] 5 text_example-IsText (omega arith) (omega arith)

strncpy_runs_away_example : strncpy (replicate 8 7) (text_example ++ 0 ∷ []) 2 ≡ none
strncpy_runs_away_example =
    strncpy_runs_away (replicate 8 7) text_example [] 2 text_example-IsText (omega arith)
      (omega arith)

strcmp_behind_example :
    (strcmp (text_example ++ 0 ∷ []) (text_example ++ b'b' ∷ 0 ∷ [])
      ≡ some (char_val 0 -ℤ char_val b'b'))
    × (strcmp (text_example ++ b'a' ∷ b'c' ∷ []) (text_example ++ b'b' ∷ 0 ∷ [])
        ≡ some (char_val b'a' -ℤ char_val b'b'))
    × (strcmp (text_example ++ b'a' ∷ 0 ∷ []) (text_example ++ b'b' ∷ 0 ∷ 0 ∷ [])
        ≡ some (char_val 0 -ℤ char_val 0))
strcmp_behind_example =
    strcmp_behind text_example [] (0 ∷ []) b'a' b'b' b'c' 0 text_example-IsText (omega arith)
      (omega arith) (omega arith)
