-- ===== src/Kernel/Screen.antt =====
-- What `bmk_cons_putc`, `bmk_cons_puts` and `bmk_init` of kernel.c do to the screen as a whole.
use mathlib.Core.Path.{fun_ext}
use rumpuser_baremetal.Subr.Strncpy.{IsText}
use rumpuser_baremetal.Base.{
  ℕ, zero, suc, ◌+◌, ◌-◌, ◌*◌, ◌/◌, ◌%◌, ◌≤◌, ◌<◌, ◌≡◌, refl, Bool, true, false, some, ◌||◌, ◌&&◌,
  not, List, [], ◌∷◌, ◌++◌, arith, ltb, leb, ◌==◌, if◌then◌else◌, ap, ◌∙◌, Bool-cases, inl, inr,
}
use rumpuser_baremetal.Kernel.Console.{
  Cons, cons_width, cons_height, write, store, cell, putat, scroll_loop, clear_loop, show, wrap,
  scroll, clear_line, putc, promoted, puts, init, init_loop,
}

-- Every line takes the cells of the next one; the last line stays.
pub scrolled : (ℕ → ℕ) → ℕ → ℕ
scrolled m i = if ltb i ((cons_height - 1) * cons_width) then m (i + cons_width) else m i

-- Line `y` is blank.
pub blanked : ℕ → (ℕ → ℕ) → ℕ → ℕ
blanked y m i =
    if leb (y * cons_width) i && ltb i (y * cons_width + cons_width) then cell b' ' else m i

-- The cells with the character put at the cursor, if it is one that shows.
pub shown : ℕ → Cons → ℕ → ℕ
shown c s = if c == 10 || c == 13 then s.buf else write s.buf (s.x + s.y * cons_width) (cell c)

abbrev pub ends_line : ℕ → Cons → Bool
ends_line c s = c == 10 || (not (c == 13) && s.x == cons_width - 1)

-- The screen behind a character. A line that ends makes the next one blank, and on the last line
-- everything moves up first.
pub advance : ℕ → Cons → Cons
advance c s =
    if ends_line c s
    then (if s.y == cons_height - 1
        then record { buf = blanked s.y (scrolled (shown c s)); x = 0; y = s.y }
        else record { buf = blanked (s.y + 1) (shown c s); x = 0; y = s.y + 1 })
    else record { buf = shown c s; x = if c == 13 then 0 else s.x + 1; y = s.y }

abbrev pub InScreen : Cons → Type 0
InScreen s = (s.x < cons_width) × (s.y < cons_height)

store-some : (p v : ℕ) (m : ℕ → ℕ) → p < cons_height * cons_width → store p v m ≡ some (write m p v)
unfolding store
store-some p v m h = ground arith

scroll_loop-eq :
    (k x : ℕ) (m : ℕ → ℕ)
    → x + k ≤ (cons_height - 1) * cons_width
    → scroll_loop k x m ≡ some (λ i. if leb x i && ltb i (x + k) then m (i + cons_width) else m i)
unfolding scroll_loop
scroll_loop-eq zero x m h = ap some (fun_ext λ i. ground arith)
scroll_loop-eq (suc k) x m h = rw (store-some x (m (x + cons_width)) m (omega arith)) (
    scroll_loop-eq k (x + 1) (write m x (m (x + cons_width))) (omega arith)
    ∙ ap some (fun_ext λ i. ground arith))

clear_loop-eq :
    (k x y : ℕ) (m : ℕ → ℕ)
    → x + k ≤ cons_width
    → y < cons_height
    → clear_loop k x y m
      ≡ some (λ i.
        if leb (x + y * cons_width) i && ltb i (x + k + y * cons_width) then cell b' ' else m i)
unfolding clear_loop putat
clear_loop-eq zero x y m h hy = ap some (fun_ext λ i. ground arith)
clear_loop-eq (suc k) x y m h hy =
    rw (store-some (x + y * cons_width) (cell b' ') m (omega arith)) (
      clear_loop-eq k (x + 1) y (write m (x + y * cons_width) (cell b' ')) (omega arith) hy
      ∙ ap some (fun_ext λ i. ground arith))

module _ (c : ℕ) (s : Cons) where
  abbrev after_show : Cons
  after_show = record {
    buf = shown c s;
    x = if c == 10 || c == 13 then 0 else s.x + 1;
    y = if c == 10 then s.y + 1 else s.y;
  }

  show-eq : InScreen s → show c s ≡ some (after_show, c == 10)
  unfolding show putat shown
  show-eq h = ground (arith, store-some (s.x + s.y * cons_width) (cell c) s.buf)

module _ (s : Cons) where
  scroll-eq :
      scroll s
      ≡ some
          (if s.y == cons_height then record { buf = scrolled s.buf; x = s.x; y = s.y - 1 } else s)
  unfolding scroll scrolled
  scroll-eq = elim (Bool-cases (s.y == cons_height)) [
    | inl e ↦
        rw (e, scroll_loop-eq ((cons_height - 1) * cons_width) 0 s.buf (omega arith))
          (ap (λ m. some (record s { buf = m; y = s.y - 1 })) (fun_ext λ i. ground arith))
    | inr e ↦ rw e
  ]

  clear_line-eq :
      (doclear : Bool)
      → s.y < cons_height
      → clear_line doclear s
        ≡ some (if doclear then record { buf = blanked s.y s.buf; x = s.x; y = s.y } else s)
  unfolding clear_line blanked
  clear_line-eq true h =
      rw (clear_loop-eq cons_width 0 s.y s.buf (omega arith) h)
        (ap (λ m. some (record s { buf = m })) (fun_ext λ i. ground arith))
  clear_line-eq false h = refl

-- With the cursor on the screen a character writes inside the screen only, leaves the cursor on it,
-- and has the effect of `advance`.
pub putc-advance :
    (c : ℕ) (s : Cons) → InScreen s → (putc c s ≡ some (advance c s)) × InScreen (advance c s)
unfolding putc advance wrap
putc-advance c s h =
    let t = wrap (after_show c s, c == 10) in
    let u : Cons =
      if t.0.y == cons_height
      then record { buf = scrolled t.0.buf; x = t.0.x; y = t.0.y - 1 }
      else t.0 in
    (
      rw (show-eq c s h)
          (ground (arith, scroll-eq t.0, clear_line-eq u true, clear_line-eq u false)),
      ground arith,
    )

pub advance_all : List ℕ → Cons → Cons
advance_all [] s = s
advance_all (c ∷ str) s = advance_all str (advance (promoted c) s)

-- A string of characters with its terminator is shown character by character, and what stands
-- behind the terminator is not; the cursor stays on the screen.
pub puts-advance :
    (str r : List ℕ) (s : Cons)
    → IsText str
    → InScreen s
    → (puts (str ++ 0 ∷ r) s ≡ some (advance_all str s)) × InScreen (advance_all str s)
unfolding puts advance_all
puts-advance [] r s ht hs = (refl, hs)
puts-advance (c ∷ str) r s ht hs =
    let c_set : (c == 0) ≡ false = ground arith in
    let (one, on) = putc-advance (promoted c) s hs in
    let (rest, end) = puts-advance str r (advance (promoted c) s) ht.2 on in
    (rw (c_set, one) rest, end)

init_loop-eq :
    (k x : ℕ) (m : ℕ → ℕ)
    → x + k ≤ cons_height * cons_width
    → init_loop k x m ≡ some (λ i. if leb x i && ltb i (x + k) then cell b' ' else m i)
unfolding init_loop putat
init_loop-eq zero x m h = ap some (fun_ext λ i. ground arith)
init_loop-eq (suc k) x m h =
    let place : x % cons_width + x / cons_width * cons_width ≡ x = omega arith in
    rw (place, store-some x (cell b' ') m (omega arith))
      (init_loop-eq k (x + 1) (write m x (cell b' ')) (omega arith)
        ∙ ap some (fun_ext λ i. ground arith))

-- `bmk_init` blanks the screen and writes nowhere else.
pub init-eq :
    (m : ℕ → ℕ) → init m ≡ some (λ i. if ltb i (cons_height * cons_width) then cell b' ' else m i)
unfolding init
init-eq m =
    init_loop-eq (cons_height * cons_width) 0 m (omega arith) ∙ ap some (fun_ext λ i. ground arith)
