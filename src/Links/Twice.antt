-- ===== src/Links/Twice.antt =====
-- klib/queue.c: adding a node that is on the queue already.
use yatos.Prelude.{ℕ, ◌≡◌, refl, ◌∙◌, arith, true, false, ◌==◌, if◌then◌else◌, List, [], ◌∷◌, ◌++◌}
use yatos.Links.{Mem, queue_add}
use yatos.Links.Paths.{has, last, Linked, IsQueue, last-append, has-last}
use yatos.Links.Distinct.{has-other, distinct_apart, IsDistinct-right}

-- Following `next` from a leads through xs to b: what queue_for_each visits.
abbrev pub Follows : Mem → ℕ → List ℕ → ℕ → Type 0
Follows m a [] b = m.next a ≡ b
Follows m a (x ∷ xs) b = (m.next a ≡ x) × Follows m x xs b

Follows-front :
    (m n : Mem) (a : ℕ) (ys : List ℕ) (x : ℕ) (zs : List ℕ) (b : ℕ)
    → ((p : ℕ) → has p (a ∷ ys) ≡ true → n.next p ≡ m.next p)
    → Linked m a (ys ++ (x ∷ zs))
    → n.next x ≡ b
    → Follows n a (ys ++ (x ∷ [])) b
Follows-front m n a [] x zs b same l e = (same a (ground arith) ∙ l.0, e)
Follows-front m n a (y ∷ ys) x zs b same l e = (
  same a (ground arith) ∙ l.0,
  Follows-front m n y ys x zs b (λ p h. same p (ground (arith, h))) l.2 e,
)

-- A node that is added a second time while others are behind it takes those off the queue: following
-- the queue from its head passes the nodes before it and the node itself, and is back at the head.
pub queue_add_twice :
    (m : Mem) (head : ℕ) (ys : List ℕ) (x z : ℕ) (zs : List ℕ)
    → IsQueue m head (ys ++ (x ∷ z ∷ zs))
    → Follows (queue_add m head x) head (ys ++ (x ∷ [])) head
unfolding queue_add
queue_add_twice m head ys x z zs q =
    Follows-front m (queue_add m head x) head ys x (z ∷ zs) head
      (λ p h. changed p ∙ rw (not_last p h, not_x p h) refl) q.linked
      (changed x ∙ rw (x_not_last, self) refl)
  where
    back : last head (ys ++ (x ∷ z ∷ zs)) ≡ last z zs
    back = last-append head ys x (z ∷ zs)

    self : (x == x) ≡ true
    self = ground arith

    front_apart : (p : ℕ) → has p (head ∷ ys) ≡ true → has p (x ∷ z ∷ zs) ≡ false
    front_apart p h = distinct_apart p (head ∷ ys) (x ∷ z ∷ zs) q.distinct h

    head_x : (head == x) ≡ false
    head_x = ground (arith, front_apart head (ground arith))

    changed :
        (p : ℕ)
        → (queue_add m head x).next p
          ≡ (if p == last z zs then x else if p == x then head else m.next p)
    changed p = rw (head_x, q.prev_head, back) refl

    not_x : (p : ℕ) → has p (head ∷ ys) ≡ true → (p == x) ≡ false
    not_x p h = ground (arith, front_apart p h)

    not_last : (p : ℕ) → has p (head ∷ ys) ≡ true → (p == last z zs) ≡ false
    not_last p h =
        let other =
          has-other (last z zs) p (z ∷ zs) (has-last z zs) (ground (arith, front_apart p h)) in
        ground (arith, other)

    x_not_last : (x == last z zs) ≡ false
    x_not_last =
        let out = (IsDistinct-right (head ∷ ys) (x ∷ z ∷ zs) q.distinct).0 in
        let other = has-other (last z zs) x (z ∷ zs) (has-last z zs) out in ground (arith, other)
