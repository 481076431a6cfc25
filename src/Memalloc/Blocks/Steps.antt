-- ===== src/Memalloc/Blocks/Steps.antt =====
-- The calls of clients that free only what they hold, and what holds of every state that they reach.
use rumpuser_baremetal.Base.{
  none, some, sym, ◌^◌, ◌%◌, ◌≤◌, ◌<◌, ap, ◌∙◌, ℕ, ◌+◌, ◌≡◌, refl, ◌≢◌, List, [], ◌∷◌, ◌++◌, arith,
  inl, inr,
}
use mathlib.Core.Path.{subst}
use mathlib.Core.Option.{some-injective}
use rumpuser_baremetal.Kernel.Page.{page_size, IsSound}
use rumpuser_baremetal.Memalloc.{Malloc, setup, memalloc, memfree, memrealloc, room_of, page_loop}
use rumpuser_baremetal.Memalloc.Request.{setup_done}
use rumpuser_baremetal.Memalloc.Blocks.{Blocks, IsWf}
use rumpuser_baremetal.Memalloc.Blocks.Serve.{IsGot, memalloc-IsWf}
use rumpuser_baremetal.Memalloc.Blocks.Free.{given, memfree-IsWf}
use rumpuser_baremetal.Memalloc.Blocks.Held.{
  Owns, unheld, Owns-got, Owns-same, Owns-freed, Owns-resized,
}

-- The statics before the first call, over any contents of the memory.
pub record IsFresh (m : Malloc) : Type 0 where
  pub lists : (b : ℕ) → m.nextf b ≡ 0
  pub page : m.pagesz ≡ 0
  pub sound : IsSound m.pages
  pub whole : m.pages.membase % page_size ≡ 0

-- A call, with the addresses and sizes that are held before it and behind it.
pub data Step : List (ℕ × ℕ) → Malloc → List (ℕ × ℕ) → Malloc → Type 0 where
  got :
      {held : List (ℕ × ℕ)} {m m' : Malloc} {rv : ℕ} (nbytes k : ℕ)
      → 2 ≤ k
      → k < 32
      → nbytes + 2 ^ k + 8 < 2 ^ 32
      → m.pages.current < 2 ^ 19
      → memalloc nbytes (2 ^ k) m ≡ some (rv, m')
      → rv ≢ 0
      → Step held m ((rv, nbytes) ∷ held) m'
  refused :
      {held : List (ℕ × ℕ)} {m m' : Malloc} (nbytes k : ℕ)
      → 2 ≤ k
      → k < 32
      → nbytes + 2 ^ k + 8 < 2 ^ 32
      → m.pages.current < 2 ^ 19
      → memalloc nbytes (2 ^ k) m ≡ some (0, m')
      → Step held m held m'
  freed :
      {m m' : Malloc} (before after : List (ℕ × ℕ)) (rv nbytes : ℕ)
      → memfree rv m ≡ some m'
      → Step (before ++ (rv, nbytes) ∷ after) m (before ++ after) m'
  resized :
      {m : Malloc} (before after : List (ℕ × ℕ)) (rv nbytes nbytes' : ℕ)
      → 8 ≤ nbytes
      → nbytes' ≢ 0
      → memrealloc rv nbytes' m ≡ some (rv, none, m)
      → nbytes' ≤ room_of rv m
      → Step (before ++ (rv, nbytes) ∷ after) m (before ++ (rv, nbytes') ∷ after) m

-- The states from the first call on, behind the setting of the page size.
pub data Reach : List (ℕ × ℕ) → Malloc → Type 0 where
  start : {m m₁ : Malloc} → IsFresh m → setup m ≡ some m₁ → Reach [] m₁
  later :
      {held held' : List (ℕ × ℕ)} {m m' : Malloc}
      → Reach held m
      → Step held m held' m'
      → Reach held' m'

-- What holds of every state that clients reach.
unfoldable pub Inv : List (ℕ × ℕ) → Malloc → Type 0
Inv held m = (g : Blocks) × IsWf g m × Owns g held

setup_lem :
    (m m₁ : Malloc)
    → m.pagesz ≡ 0
    → setup m ≡ some m₁
    → m₁ ≡ record m { pagesz = 0x1000; pagebucket = 7 }
unfolding setup page_loop
setup_lem m m₁ page e = sym (some-injective _ _ (sym ready ∙ e))
  where
    ready : setup m ≡ some (record m { pagesz = 0x1000; pagebucket = 7 })
    ready = rw page refl

-- The first call of `bmk_memalloc` goes on as on the state in which the page size is set.
memalloc-setup :
    (nbytes align : ℕ) (m m₁ : Malloc)
    → IsFresh m
    → setup m ≡ some m₁
    → memalloc nbytes align m ≡ memalloc nbytes align m₁
unfolding memalloc
memalloc-setup nbytes align m m₁ f e =
    let again : setup m₁ ≡ some m₁ = setup_done m₁ (rw (setup_lem m m₁ f.page e) refl) in
    rw (memalloc, e, again) refl

fresh-IsWf : (m : Malloc) → IsFresh m → Inv [] (record m { pagesz = 0x1000; pagebucket = 7 })
unfolding Inv
fresh-IsWf m f =
    let g : Blocks = record {
      blocks = [];
      bucket = λ _. 0;
      free = λ _. [];
      mem = λ _. 0;
      top = 0;
    } in
    (
      g,
      record {
        page = refl;
        pagebucket = refl;
        lists = f.lists;
        distinct = λ b. tt;
        listed = λ b x. refl;
        apart = λ x y. refl;
        inside = λ x. refl;
        headers = λ x. refl;
        below = omega arith;
        room = omega arith;
        sound = f.sound;
        whole = f.whole;
      },
      tt,
    )

Step-Inv :
    (held held' : List (ℕ × ℕ)) (m m' : Malloc) → Step held m held' m' → Inv held m → Inv held' m'
unfolding Inv
Step-Inv held _ m m' (got {rv = rv} nbytes k two k32 fits few e there) (g, wf, o) =
    let (rv₁, m₁, g', e₁, wf', answer) = memalloc-IsWf nbytes k g m wf two k32 fits few in
    let same : (rv₁, m₁) ≡ (rv, m') = some-injective _ _ (sym e₁ ∙ e) in
    let memory : rv₁ ≡ rv = ap (λ (p : ℕ × Malloc). p.0) same in
    let state : m₁ ≡ m' = ap (λ (p : ℕ × Malloc). p.1) same in
    let wf'' : IsWf g' m' = subst (IsWf g') state wf' in
    elim answer [
      | inl (null, s) ↦ ground (arith, null, memory, there)
      | inr (x, i₁) ↦
          let i : IsGot x rv nbytes k g g' = subst (λ (a : ℕ). IsGot x a nbytes k g g') memory i₁ in
          (
            g',
            wf'',
            (
              (x, i.now, i.memory, i.high),
              unheld x held g g' m' rv nbytes k wf'' i o,
              Owns-got x held g g' rv nbytes k i o,
            ),
          )
    ]
Step-Inv held _ m m' (refused nbytes k two k32 fits few e) (g, wf, o) =
    let (rv₁, m₁, g', e₁, wf', answer) = memalloc-IsWf nbytes k g m wf two k32 fits few in
    let same : (rv₁, m₁) ≡ (0, m') = some-injective _ _ (sym e₁ ∙ e) in
    let memory : rv₁ ≡ 0 = ap (λ (p : ℕ × Malloc). p.0) same in
    let state : m₁ ≡ m' = ap (λ (p : ℕ × Malloc). p.1) same in
    let wf'' : IsWf g' m' = subst (IsWf g') state wf' in
    elim answer [
      | inl (null, s) ↦ (g', wf'', Owns-same held g g' s o)
      | inr (x, i) ↦ ground (arith, memory, i.low)
    ]
Step-Inv _ _ m m' (freed before after rv nbytes e) (g, wf, o) =
    let (x, used, memory, _, o') = Owns-freed rv nbytes before after g m wf o in
    let (m₁, e₁, head, link, wf') = memfree-IsWf x g m wf used in
    let state : m₁ ≡ m' = some-injective _ _ (sym e₁ ∙ rw memory e) in
    (given x g, subst (IsWf (given x g)) state wf', o')
Step-Inv _ _ m m' (resized before after rv nbytes nbytes' eight there e room) (g, wf, o) =
    (g, wf, Owns-resized rv nbytes nbytes' before after g m wf eight room o)

pub Reach-Inv : (held : List (ℕ × ℕ)) (m : Malloc) → Reach held m → Inv held m
Reach-Inv held m (start {m = m₀} f e) =
    subst (Inv []) (sym (setup_lem m₀ m f.page e)) (fresh-IsWf m₀ f)
Reach-Inv held m (later {held = held₀} {m = m₀} r s) =
    Step-Inv held₀ held m₀ m s (Reach-Inv held₀ m₀ r)
