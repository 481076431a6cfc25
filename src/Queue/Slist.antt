-- ===== src/Queue/Slist.antt =====
-- What intr.c uses of the singly-linked lists of include/bmk/queue.h, as queue(3) documents them.
-- `items` is what SLIST_FOREACH walks over.
use rumpuser_baremetal.Base.{ℕ, ◌≡◌, refl, false, List, [], ◌∷◌, has}

pub record Slist : Type 1 where
  pub Head : Type 0
  pub init : Head
  pub insert_head : ℕ → Head → Head
  pub items : Head → List ℕ
  pub items-init : items init ≡ []
  pub items-insert_head :
      (x : ℕ) (q : Head) → has x (items q) ≡ false → items (insert_head x q) ≡ x ∷ items q

-- A list is such a list.
abbrev pub list_slist : Slist
list_slist = record {
  Head = List ℕ;
  init = [];
  insert_head = λ x q. x ∷ q;
  items = λ q. q;
  items-init = refl;
  items-insert_head = λ x q h. refl;
}
