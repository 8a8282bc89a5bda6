-- ===== src/Linear/Links.antt =====
-- The doubly linked event list of cmd/thesis-oracle-linearizable/search.go. A node is a number:
-- 0 is the head, the events follow in order, and the tail comes last; a pointer field is a function
-- from nodes to nodes.
pub mod Chain
use pro_thesis.Prelude.{ℕ, if◌then◌else◌, ◌==◌}

pub record Links : Type 0 where
  pub next : ℕ → ℕ
  pub prev : ℕ → ℕ

abbrev pub update : (ℕ → ℕ) → ℕ → ℕ → ℕ → ℕ
update f a x k = if k == a then x else f k

-- `n.prev.next = n.next; n.next.prev = n.prev`
unfoldable pub cut : Links → ℕ → Links
cut l n =
    let l1 = record l { next = update l.next (l.prev n) (l.next n) } in
    record l1 { prev = update l1.prev (l1.next n) (l1.prev n) }

-- `n.prev.next = n; n.next.prev = n`
unfoldable pub paste : Links → ℕ → Links
paste l n =
    let l1 = record l { next = update l.next (l.prev n) n } in
    record l1 { prev = update l1.prev (l1.next n) n }

-- `lift` and `unlift` of a call node `n` whose return node is `m`.
unfoldable pub lift : Links → ℕ → ℕ → Links
unfolding cut
lift l n m = cut (cut l n) m

unfoldable pub unlift : Links → ℕ → ℕ → Links
unfolding paste
unlift l n m = paste (paste l m) n
