-- ===== src/Subr/Strcmp.antt =====
-- `bmk_strcmp` on two C strings that differ first behind a common part.
use rumpuser_baremetal.Base.{
  ℕ, ◌+◌, ◌-◌, ◌≡◌, ◌≢◌, some, List, [], ◌∷◌, false, ◌++◌, arith, length, get_elem?, ◌-ℤ◌, ◌==◌,
  get_elem?-append,
}
use native.Mathlib.Nat.{zero-add, add-zero}
use rumpuser_baremetal.Subr.{strcmp, strcmp_scan, strcmp_end, char_val}
use rumpuser_baremetal.Subr.Strncpy.{IsText}

strcmp_scan_common :
    (p a b : List ℕ) (i : ℕ)
    → IsText p
    → strcmp_scan (p ++ a) (p ++ b) i ≡ strcmp_scan a b (i + length p)
unfolding strcmp_scan
strcmp_scan_common [] a b i h = rw (add-zero i)
strcmp_scan_common (c ∷ p) a b i h = ground (arith, strcmp_scan_common p a b (i + 1) h.2)

strcmp_end_stop :
    (a b : List ℕ) (i y : ℕ)
    → get_elem? a i ≡ some 0
    → get_elem? b i ≡ some y
    → strcmp_end a b i ≡ some (char_val 0 -ℤ char_val y)
unfolding strcmp_end
strcmp_end_stop a b i y ha hb = rw (ha, ha, hb)

strcmp_end_back :
    (a b : List ℕ) (i x y z : ℕ)
    → get_elem? a (i + 1) ≡ some z
    → z ≢ 0
    → get_elem? a i ≡ some x
    → get_elem? b i ≡ some y
    → strcmp_end a b (i + 1) ≡ some (char_val x -ℤ char_val y)
unfolding strcmp_end
strcmp_end_back a b i x y z hz nz ha hb =
    let e : (z == 0) ≡ false = ground arith in
    let f : i + 1 - 1 ≡ i = omega arith in rw (hz, e, f, ha, hb)

get_elem?-append_first : (p xs : List ℕ) (x : ℕ) → get_elem? (p ++ x ∷ xs) (length p) ≡ some x
get_elem?-append_first p xs x = rw (add-zero (length p)) at (get_elem?-append p (x ∷ xs) 0)

-- Where the loop ends, from the first place at which the strings differ or the first one ends.
strcmp_scan_stop :
    (p a b : List ℕ) (y : ℕ) → IsText p → strcmp_scan (p ++ 0 ∷ a) (p ++ y ∷ b) 0 ≡ some (length p)
unfolding strcmp_scan
strcmp_scan_stop p a b y h = rw (strcmp_scan_common p (0 ∷ a) (y ∷ b) 0 h, zero-add (length p))

strcmp_scan_ne :
    (p a b : List ℕ) (x y : ℕ)
    → IsText p
    → x ≢ 0
    → x ≢ y
    → strcmp_scan (p ++ x ∷ a) (p ++ y ∷ b) 0 ≡ some (length p + 1)
strcmp_scan_ne p a b x y h hx hy =
    rw (strcmp_scan_common p (x ∷ a) (y ∷ b) 0 h, zero-add (length p))
      (unfold strcmp_scan in ground arith)

-- Two strings with the common part `p`: where the first ends behind `p`, the result is 0 less the
-- second's next character. Where they differ at `x` and `y` and the first goes on, it is the
-- difference of `x` and `y`; but where the first ends behind `x`, it is 0 less what stands behind `y`,
-- the terminator or not.
pub strcmp_behind :
    (p a b : List ℕ) (x y z w : ℕ)
    → IsText p
    → x ≢ 0
    → x ≢ y
    → z ≢ 0
    → (strcmp (p ++ 0 ∷ a) (p ++ y ∷ b) ≡ some (char_val 0 -ℤ char_val y))
      × (strcmp (p ++ x ∷ z ∷ a) (p ++ y ∷ b) ≡ some (char_val x -ℤ char_val y))
      × (strcmp (p ++ x ∷ 0 ∷ a) (p ++ y ∷ w ∷ b) ≡ some (char_val 0 -ℤ char_val w))
unfolding strcmp
strcmp_behind p a b x y z w hp hx hy hz = (
  rw (strcmp_scan_stop p a b y hp) (
      strcmp_end_stop (p ++ 0 ∷ a) (p ++ y ∷ b) (length p) y (get_elem?-append_first p a 0)
        (get_elem?-append_first p b y)),
  rw (strcmp_scan_ne p (z ∷ a) b x y hp hx hy) (
      strcmp_end_back (p ++ x ∷ z ∷ a) (p ++ y ∷ b) (length p) x y z
        (get_elem?-append p (x ∷ z ∷ a) 1) hz (get_elem?-append_first p (z ∷ a) x)
        (get_elem?-append_first p b y)),
  rw (strcmp_scan_ne p (0 ∷ a) (w ∷ b) x y hp hx hy) (
      strcmp_end_stop (p ++ x ∷ 0 ∷ a) (p ++ y ∷ w ∷ b) (length p + 1) w
        (get_elem?-append p (x ∷ 0 ∷ a) 1) (get_elem?-append p (y ∷ w ∷ b) 1)),
)
