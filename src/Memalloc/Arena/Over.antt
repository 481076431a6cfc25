-- ===== src/Memalloc/Arena/Over.antt =====
-- memalloc.c before its first call, over the pages that `bmk_allocpg` has.
use rumpuser_baremetal.Base.{
  ◌+◌, ◌^◌, ◌%◌, ◌≡◌, refl, Bool, true, false, ◌&&◌, some, [], ◌==◌, ltb, arith,
}
use rumpuser_baremetal.Kernel.Page.{Pages, page_size}
use rumpuser_baremetal.Memalloc.{Malloc, setup, page_loop}
use rumpuser_baremetal.Memalloc.Blocks.Steps.{start}
use rumpuser_baremetal.Memalloc.Arena.{Arena}

-- The statics of a program that is loaded, with the contents of the memory.
abbrev fresh : Pages → Malloc → Malloc
fresh p m = record m { pages = p; nextf = λ _. 0; pagesz = 0; pagebucket = 0 }

abbrev first_set : Pages → Malloc → Malloc
first_set p m = record (fresh p m) { pagesz = 0x1000; pagebucket = 7 }

setup-fresh : (p : Pages) (m : Malloc) → setup (fresh p m) ≡ some (first_set p m)
unfolding setup page_loop
setup-fresh p m = refl

abbrev is_sound : Pages → Bool
is_sound p =
    ltb (p.membase + p.memsize) (2 ^ 32) && ltb p.current (2 ^ 20) && p.membase % page_size == 0

abbrev no_pages : Pages
no_pages = record { membase = 0; memsize = 0; current = 0 }

begin : (p : Pages) (a : Arena) (ok : Bool) → is_sound p ≡ ok → Arena
begin p a true h = record {
  held = [];
  memory = first_set p a.memory;
  reached =
      start
        (record {
          lists = λ b. refl;
          page = refl;
          sound = record { fits = ground (arith, h); small = ground (arith, h) };
          whole = ground (arith, h);
        })
        (setup-fresh p a.memory);
  static = λ q. a.static q && ltb q p.membase;
  low = λ q s. ground (arith, s);
}
begin p a false h = record {
  held = [];
  memory = first_set no_pages a.memory;
  reached =
      start
        (record {
          lists = λ b. refl;
          page = refl;
          sound = record { fits = omega arith; small = omega arith };
          whole = refl;
        })
        (setup-fresh no_pages a.memory);
  static = λ q. false;
  low = λ q s. ground (arith, s);
}

-- Nothing is held. Pages that the C code could not address are not used.
pub arena_over : Pages → Arena → Arena
arena_over p a = begin p a (is_sound p) refl

-- Over pages that can be addressed the allocator stands on them, none of them taken so far but by
-- `bmk_allocpg` itself.
pub arena_over-pages :
    (p : Pages) (a : Arena) → is_sound p ≡ true → (arena_over p a).memory.pages ≡ p
unfolding arena_over begin
arena_over-pages p a h = begin_pages (is_sound p) refl h
  where
    begin_pages : (ok : Bool) (e : is_sound p ≡ ok) → ok ≡ true → (begin p a ok e).memory.pages ≡ p
    begin_pages true e t = refl
    begin_pages false e t = ground (arith, t)
