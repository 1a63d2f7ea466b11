-- ===== src/Links/Add.antt =====
-- klib/queue.c: adding a node to a queue.
use yatos.Prelude.{
  ℕ, ◌≡◌, refl, sym, ap, ◌∙◌, arith, true, false, ◌==◌, if◌then◌else◌, List, [], ◌∷◌, ◌++◌,
}
use yatos.Links.{Mem, queue_add, queue_add_top}
use yatos.Links.Paths.{has, last, IsQueue, last-append, has-last, Linked-frame, Linked-append}
use yatos.Links.Distinct.{has-other, IsDistinct-snoc}

module _ (m : Mem) (head node : ℕ) (xs : List ℕ) (q : IsQueue m head xs)
    (out : has node (head ∷ xs) ≡ false) where
  -- the memory after queue_add, field by field
  add_next :
      (p : ℕ)
      → (queue_add m head node).next p
        ≡ (if p == last head xs then node else if p == node then head else m.next p)
  unfolding queue_add
  add_next p =
      let apart : (head == node) ≡ false = ground (arith, out) in rw (apart, q.prev_head) refl

  add_prev :
      (p : ℕ)
      → (queue_add m head node).prev p
        ≡ (if p == head then node else if p == node then last head xs else m.prev p)
  unfolding queue_add
  add_prev p = rw q.prev_head refl

  -- The node becomes the last one.
  pub queue_add-IsQueue : IsQueue (queue_add m head node) head (xs ++ (node ∷ []))
  queue_add-IsQueue =
      let n = queue_add m head node in
      let l = last head xs in
      let here : (l == l) ≡ true = ground arith in
      let home : (head == head) ≡ true = ground arith in
      let self : (node == node) ≡ true = ground arith in
      let off_last : (l == node) ≡ false = has-other l node (head ∷ xs) (has-last head xs) out in
      let off_last' : (node == l) ≡ false = ground arith in
      let off_head : (node == head) ≡ false = ground (arith, out) in
      record {
        linked =
            Linked-append n head xs (node ∷ [])
              (Linked-frame m n head xs q.distinct
                (λ p h k. add_next p ∙ rw (k, has-other p node (head ∷ xs) h out) refl)
                (λ p h.
                  add_prev p
                  ∙ rw
                      (
                        has-other p head xs h q.distinct.0,
                        has-other p node xs h (ground (arith, out)),
                      )
                      refl)
                q.linked)
              (add_next l ∙ rw here refl, add_prev node ∙ rw (off_head, self) refl, tt);
        next_last =
            ap n.next (last-append head xs node []) ∙ add_next node ∙ rw (off_last', self) refl;
        prev_head = add_prev head ∙ rw home refl ∙ sym (last-append head xs node []);
        distinct = IsDistinct-snoc (head ∷ xs) node q.distinct out;
      }

-- the memory after queue_add_top, where the queue's first node is f
top_next :
    (m : Mem) (head node p : ℕ)
    → (queue_add_top m head node).next p
      ≡ (if p == head then node else if p == node then m.next head else m.next p)
unfolding queue_add_top
top_next m head node p = refl

top_prev :
    (m : Mem) (head node f p : ℕ)
    → m.next head ≡ f
    → (head == node) ≡ false
    → (queue_add_top m head node).prev p
      ≡ (if p == f then node else if p == node then head else m.prev p)
unfolding queue_add_top
top_prev m head node f p e apart = rw (apart, e) refl

-- The node becomes the first one.
pub queue_add_top-IsQueue :
    (m : Mem) (head node : ℕ) (xs : List ℕ)
    → IsQueue m head xs
    → has node (head ∷ xs) ≡ false
    → IsQueue (queue_add_top m head node) head (node ∷ xs)
queue_add_top-IsQueue m head node [] q out =
    let n = queue_add_top m head node in
    let apart : (head == node) ≡ false = ground (arith, out) in
    let apart' : (node == head) ≡ false = ground (arith, out) in
    let home : (head == head) ≡ true = ground arith in
    let self : (node == node) ≡ true = ground arith in
    record {
      linked = (
        top_next m head node head ∙ rw home refl,
        top_prev m head node head node q.next_last apart ∙ rw (apart', self) refl,
        tt,
      );
      next_last = top_next m head node node ∙ rw (apart', self) q.next_last;
      prev_head = top_prev m head node head head q.next_last apart ∙ rw home refl;
      distinct = (apart_has, (refl, tt));
    }
  where
    apart_has : has head (node ∷ []) ≡ false
    apart_has = ground (arith, out)
queue_add_top-IsQueue m head node (x ∷ xs) q out =
    let n = queue_add_top m head node in
    let first = q.linked.0 in
    let apart : (head == node) ≡ false = ground (arith, out) in
    let apart' : (node == head) ≡ false = ground (arith, out) in
    let home : (head == head) ≡ true = ground arith in
    let self : (node == node) ≡ true = ground arith in
    let here : (x == x) ≡ true = ground arith in
    let off_x : (node == x) ≡ false = ground (arith, out) in
    let x_head : (head == x) ≡ false = ground (arith, q.distinct.0) in
    let out_xs : has node (x ∷ xs) ≡ false = ground (arith, out) in
    let no_head : has head (x ∷ xs) ≡ false = q.distinct.0 in
    record {
      linked = (
        top_next m head node head ∙ rw home refl,
        top_prev m head node x node first apart ∙ rw (off_x, self) refl,
        (
          top_next m head node node ∙ rw (apart', self) first,
          top_prev m head node x x first apart ∙ rw here refl,
          Linked-frame m n x xs q.distinct.1
              (λ p h k.
                top_next m head node p
                ∙ rw (has-other p head (x ∷ xs) h no_head, has-other p node (x ∷ xs) h out_xs) refl)
              (λ p h.
                top_prev m head node x p first apart
                ∙ rw
                    (has-other p x xs h q.distinct.1.0, has-other p node xs h (ground (arith, out)))
                    refl)
              q.linked.2,
        ),
      );
      next_last =
          let l = last x xs in
          top_next m head node l
          ∙ rw
              (
                has-other l head (x ∷ xs) (has-last x xs) no_head,
                has-other l node (x ∷ xs) (has-last x xs) out_xs,
              )
              q.next_last;
      prev_head = top_prev m head node x head first apart ∙ rw (x_head, apart) q.prev_head;
      distinct = (ground (arith, q.distinct.0, apart), (out_xs, q.distinct.1));
    }
