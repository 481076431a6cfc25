-- ===== src/Queue.antt =====
-- What the program uses of the tail queues of include/bmk/queue.h, a copy of the BSD queue macros,
-- as queue(3) documents them: an element is put in only where it is not in yet, and taken out only
-- where it is in. `items` is what TAILQ_FOREACH walks over, TAILQ_FIRST and TAILQ_EMPTY look at its
-- front.
pub mod Lists
pub mod Slist
use rumpuser_baremetal.Base.{ℕ, ◌≡◌, refl, true, false, Bool, List, [], ◌∷◌, ◌++◌, has, erase}

pub record Tailq : Type 1 where
  pub Head : Type 0
  pub init : Head
  pub insert_head : ℕ → Head → Head
  pub insert_tail : ℕ → Head → Head
  pub remove : ℕ → Head → Head
  pub items : Head → List ℕ
  pub items-init : items init ≡ []
  pub items-insert_head :
      (x : ℕ) (q : Head) → has x (items q) ≡ false → items (insert_head x q) ≡ x ∷ items q
  pub items-insert_tail :
      (x : ℕ) (q : Head) → has x (items q) ≡ false → items (insert_tail x q) ≡ items q ++ x ∷ []
  pub items-remove :
      (x : ℕ) (q : Head) → has x (items q) ≡ true → items (remove x q) ≡ erase x (items q)

-- A list is such a queue.
abbrev pub list_tailq : Tailq
list_tailq = record {
  Head = List ℕ;
  init = [];
  insert_head = λ x q. x ∷ q;
  insert_tail = λ x q. q ++ x ∷ [];
  remove = erase;
  items = λ q. q;
  items-init = refl;
  items-insert_head = λ x q h. refl;
  items-insert_tail = λ x q h. refl;
  items-remove = λ x q h. refl;
}
