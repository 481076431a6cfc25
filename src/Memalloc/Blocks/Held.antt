-- ===== src/Memalloc/Blocks/Held.antt =====
-- The memories that clients of memalloc.c hold, against the blocks in use.
use rumpuser_baremetal.Base.{
  sym, ◌-◌, ◌^◌, ◌≤◌, ◌∙◌, ℕ, ◌+◌, ◌≡◌, refl, Bool, true, false, ◌&&◌, ◌||◌, List, [], ◌∷◌, ◌++◌,
  ◌==◌, leb, arith,
}
use rumpuser_baremetal.Memalloc.{minus, minshift, room_of, Malloc, header}
use rumpuser_baremetal.Memalloc.Blocks.{Blocks, ends, is_used, IsWf}
use rumpuser_baremetal.Memalloc.Blocks.Refill.{IsSame}
use rumpuser_baremetal.Memalloc.Blocks.Serve.{IsGot}
use rumpuser_baremetal.Memalloc.Blocks.Free.{given, given_used}

-- Memory that is clear of all that is held, by the 8 bytes of a header.
abbrev pub are_clear : (rv n : ℕ) → List (ℕ × ℕ) → Bool
are_clear rv n [] = true
are_clear rv n ((rv', n') ∷ held) =
    (leb (rv + n + header) rv' || leb (rv' + n' + header) rv) && are_clear rv n held

abbrev pub are_all_clear : List (ℕ × ℕ) → Bool
are_all_clear [] = true
are_all_clear ((rv, n) ∷ held) = are_clear rv n held && are_all_clear held

abbrev pub is_held : ℕ → List (ℕ × ℕ) → Bool
is_held rv [] = false
is_held rv ((rv', n) ∷ held) = rv == rv' || is_held rv held

-- All that is held is the memory of a block in use, which has room for it.
abbrev pub Owns : Blocks → List (ℕ × ℕ) → Type 0
Owns g [] = Unit {0}
Owns g ((rv, n) ∷ held) =
    ((x : ℕ) × (is_used g x ≡ true) × (g.mem x ≡ rv) × (rv + n ≤ ends g x))
    × (is_held rv held ≡ false)
    × Owns g held

-- The memories of two blocks in use.
pub two_used :
    (x y : ℕ) (g : Blocks) (m : Malloc)
    → IsWf g m
    → is_used g x ≡ true
    → is_used g y ≡ true
    → (x == y) ≡ false
    → (leb (ends g x + header) (g.mem y) || leb (ends g y + header) (g.mem x)) ≡ true
two_used x y g m wf ux uy n = ground (arith, wf.apart x y, wf.headers x, wf.headers y)

pub unheld :
    (x : ℕ) (held : List (ℕ × ℕ)) (g g' : Blocks) (m' : Malloc) (rv nbytes k : ℕ)
    → IsWf g' m'
    → IsGot x rv nbytes k g g'
    → Owns g held
    → is_held rv held ≡ false
unheld x [] g g' m' rv nbytes k wf i o = refl
unheld x ((rv', n) ∷ held) g g' m' rv nbytes k wf i ((y, used, memory, high), new, o) =
    let other : (y == x) ≡ false = ground (arith, i.was) in
    let still : is_used g' y ≡ true = i.used y other ∙ used in
    ground (
      arith,
      two_used y x g' m' wf still i.now other,
      i.memory,
      i.others y other,
      wf.headers x,
      wf.headers y,
      unheld x held g g' m' rv nbytes k wf i o,
    )

pub Owns-got :
    (x : ℕ) (held : List (ℕ × ℕ)) (g g' : Blocks) (rv nbytes k : ℕ)
    → IsGot x rv nbytes k g g'
    → Owns g held
    → Owns g' held
Owns-got x [] g g' rv nbytes k i o = tt
Owns-got x ((rv', n) ∷ held) g g' rv nbytes k i ((y, used, memory, high), new, o) =
    let other : (y == x) ≡ false = ground (arith, i.was) in
    (
      (y, i.used y other ∙ used, i.others y other ∙ memory, rw (i.size y used) high),
      new,
      Owns-got x held g g' rv nbytes k i o,
    )

pub Owns-same : (held : List (ℕ × ℕ)) (g g' : Blocks) → IsSame g g' → Owns g held → Owns g' held
Owns-same [] g g' s o = tt
Owns-same ((rv, n) ∷ held) g g' s ((y, used, memory, high), new, o) = (
  (y, s.used y ∙ used, s.memory y ∙ memory, rw (s.size y used) high),
  new,
  Owns-same held g g' s o,
)

pub held_split :
    (a rv n : ℕ) (before after : List (ℕ × ℕ))
    → is_held a (before ++ (rv, n) ∷ after) ≡ (a == rv || is_held a (before ++ after))
held_split a rv n [] after = refl
held_split a rv n ((rv', n') ∷ before) after = ground (arith, held_split a rv n before after)

-- A block in use other than the freed one.
pub Owns-given :
    (x : ℕ) (held : List (ℕ × ℕ)) (g : Blocks) (m : Malloc)
    → IsWf g m
    → is_used g x ≡ true
    → is_held (g.mem x) held ≡ false
    → Owns g held
    → Owns (given x g) held
unfolding given
Owns-given x [] g m wf u free o = tt
Owns-given x ((rv, n) ∷ held) g m wf u free ((y, used, memory, high), new, o) =
    let other : (y == x) ≡ false = ground (arith, free, memory) in
    (
      (y, ground (arith, given_used x g m wf u y, used, other), memory, high),
      new,
      Owns-given x held g m wf u (ground (arith, free)) o,
    )

pub Owns-freed :
    (rv n : ℕ) (before after : List (ℕ × ℕ)) (g : Blocks) (m : Malloc)
    → IsWf g m
    → Owns g (before ++ (rv, n) ∷ after)
    → (x : ℕ) × (is_used g x ≡ true)
      × (g.mem x ≡ rv)
      × (rv + n ≤ ends g x)
      × Owns (given x g) (before ++ after)
unfolding given
Owns-freed rv n [] after g m wf ((x, used, memory, high), new, o) =
    (x, used, memory, high, Owns-given x after g m wf used (rw memory new) o)
Owns-freed rv n ((rv', n') ∷ before) after g m wf ((y, used', memory', high'), new, o) =
    let (x, used, memory, high, o') = Owns-freed rv n before after g m wf o in
    let split = held_split rv' rv n before after in
    let other : (y == x) ≡ false = ground (arith, split, new, memory, memory') in
    (
      x,
      used,
      memory,
      high,
      (
        (y, ground (arith, given_used x g m wf used y, used', other), memory', high'),
        ground (arith, split, new),
        o',
      ),
    )

pub Owns-are_clear :
    (x rv n : ℕ) (held : List (ℕ × ℕ)) (g : Blocks) (m : Malloc)
    → IsWf g m
    → is_used g x ≡ true
    → g.mem x ≡ rv
    → rv + n ≤ ends g x
    → is_held rv held ≡ false
    → Owns g held
    → are_clear rv n held ≡ true
Owns-are_clear x rv n [] g m wf u e h new o = refl
Owns-are_clear x rv n ((rv', n') ∷ held) g m wf u e h new ((y, used, memory, high), new', o) =
    let other : (x == y) ≡ false = ground (arith, e, memory, new) in
    ground (
      arith,
      two_used x y g m wf u used other,
      e,
      memory,
      h,
      high,
      Owns-are_clear x rv n held g m wf u e h (ground (arith, new)) o,
    )

pub Owns-are_all_clear :
    (held : List (ℕ × ℕ)) (g : Blocks) (m : Malloc)
    → IsWf g m
    → Owns g held
    → are_all_clear held ≡ true
Owns-are_all_clear [] g m wf o = refl
Owns-are_all_clear ((rv, n) ∷ held) g m wf ((x, used, memory, high), new, o) = ground (
  arith,
  Owns-are_clear x rv n held g m wf used memory high new o,
  Owns-are_all_clear held g m wf o,
)

-- The room that `bmk_memrealloc` reckons with ends in the block, where the memory has 8 bytes or more.
room_inside :
    (x rv n n' : ℕ) (g : Blocks) (m : Malloc)
    → IsWf g m
    → is_used g x ≡ true
    → g.mem x ≡ rv
    → 8 ≤ n
    → rv + n ≤ ends g x
    → n' ≤ room_of rv m
    → rv + n' ≤ ends g x
unfolding room_of
room_inside x rv n n' g m wf used memory eight high room =
    let facts = wf.headers x in
    let inside = wf.inside x in
    let there : minus rv header ≡ rv - header =
      ground (arith, facts, inside, used, memory, wf.room) in
    let index : m.index (rv - header) ≡ g.bucket x = ground (arith, facts, used, memory) in
    let link : m.link (rv - header) ≡ rv - x = ground (arith, facts, used, memory) in
    let low : x + header ≤ rv = ground (arith, facts, used, memory) in
    let top : ends g x + 8 ≤ 2 ^ 32 = ground (arith, inside, used, wf.room) in
    let room' : room_of rv m ≡ 2 ^ (g.bucket x + minshift) - (rv - x + 8) =
      rw (room_of, there, index, link) (omega (arith, low, high, top, eight)) in
    omega (arith, room, room', low, high, eight)

pub Owns-resized :
    (rv n n' : ℕ) (before after : List (ℕ × ℕ)) (g : Blocks) (m : Malloc)
    → IsWf g m
    → 8 ≤ n
    → n' ≤ room_of rv m
    → Owns g (before ++ (rv, n) ∷ after)
    → Owns g (before ++ (rv, n') ∷ after)
Owns-resized rv n n' [] after g m wf eight room ((x, used, memory, high), new, o) =
    ((x, used, memory, room_inside x rv n n' g m wf used memory eight high room), new, o)
Owns-resized rv n n' ((rv₁, n₁) ∷ before) after g m wf eight room (mine, new, o) = (
  mine,
  held_split rv₁ rv n' before after ∙ sym (held_split rv₁ rv n before after) ∙ new,
  Owns-resized rv n n' before after g m wf eight room o,
)
