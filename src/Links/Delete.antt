-- ===== src/Links/Delete.antt =====
-- klib/list.c: taking a node out of its queue.
use mathlib.Core.Path.{subst}
use yatos.Prelude.{
  append_nil, ℕ, ◌≡◌, refl, sym, ap, ◌∙◌, inl, inr, arith, true, false, ◌==◌, if◌then◌else◌,
  Bool-cases, List, [], ◌∷◌, ◌++◌,
}
use yatos.Links.{Mem, list_del, list_not_linked}
use yatos.Links.Paths.{
  has, IsDistinct, last, Linked, IsQueue, has-append, last-append, has-last, Linked-frame,
  Linked-append, Linked-append_left,
}
use yatos.Links.Distinct.{
  has-other, distinct_apart, IsDistinct-remove, IsDistinct-left, IsDistinct-right,
}

-- The memory after list_del of a node x between p0 and s0, field by field.
module _ (m : Mem) (x p0 s0 : ℕ) (before : m.prev x ≡ p0) (after : m.next x ≡ s0)
    (off : (x == s0) ≡ false) where
  pub del_next :
      (p : ℕ) → (list_del m x).next p ≡ (if p == x then x else if p == p0 then s0 else m.next p)
  unfolding list_del
  del_next p = rw (after, off, before) refl

  pub del_prev :
      (p : ℕ) → (list_del m x).prev p ≡ (if p == x then x else if p == s0 then p0 else m.prev p)
  unfolding list_del
  del_prev p = rw (after, before) refl

-- The part of the queue before the node.
front_part :
    (m : Mem) (head : ℕ) (ys : List ℕ) (x s0 : ℕ) (zs : List ℕ)
    → IsDistinct (head ∷ ys ++ (x ∷ zs))
    → ((p : ℕ)
        → (list_del m x).next p
          ≡ (if p == x then x else if p == last head ys then s0 else m.next p))
    → ((p : ℕ)
        → (list_del m x).prev p
          ≡ (if p == x then x else if p == s0 then last head ys else m.prev p))
    → has s0 ys ≡ false
    → Linked m head ys
    → Linked (list_del m x) head ys
front_part m head ys x s0 zs d nx pv outside l =
    Linked-frame m (list_del m x) head ys (IsDistinct-left (head ∷ ys) (x ∷ zs) d)
      (λ p h k. nx p ∙ rw (off p h, k) refl)
      (λ p h. pv p ∙ rw (off p (ground (arith, h)), has-other p s0 ys h outside) refl) l
  where
    off : (p : ℕ) → has p (head ∷ ys) ≡ true → (p == x) ≡ false
    off p h = ground (arith, distinct_apart p (head ∷ ys) (x ∷ zs) d h)

-- A node with nothing behind it.
delete_last :
    (m : Mem) (head : ℕ) (ys : List ℕ) (x : ℕ)
    → IsQueue m head (ys ++ (x ∷ []))
    → IsQueue (list_del m x) head ys
delete_last m head ys x q =
    let n = list_del m x in
    let pred = last head ys in
    let (l, to, from, _) = Linked-append_left m head ys x [] q.linked in
    let (d, out) = IsDistinct-remove (head ∷ ys) x [] q.distinct in
    let flat = append_nil ys in
    let d' : IsDistinct (head ∷ ys) = IsDistinct-left (head ∷ ys) (x ∷ []) q.distinct in
    let out' : has x (head ∷ ys) ≡ false = ap (λ r. has x (head ∷ r)) (sym flat) ∙ out in
    let end : m.next x ≡ head = ap m.next (sym (last-append head ys x [])) ∙ q.next_last in
    let off : (x == head) ≡ false = ground (arith, out') in
    let off' : (head == x) ≡ false = ground (arith, off) in
    let home : (head == head) ≡ true = ground arith in
    let here : (pred == pred) ≡ true = ground arith in
    let nx = del_next m x pred head from end off in
    let pv = del_prev m x pred head from end off in
    record {
      linked = front_part m head ys x head [] q.distinct nx pv d'.0 l;
      next_last = nx pred ∙ rw (has-other pred x (head ∷ ys) (has-last head ys) out', here) refl;
      prev_head = pv head ∙ rw (off', home) refl;
      distinct = d';
    }

-- A node with z behind it.
delete_middle :
    (m : Mem) (head : ℕ) (ys : List ℕ) (x z : ℕ) (zs : List ℕ)
    → IsQueue m head (ys ++ (x ∷ z ∷ zs))
    → IsQueue (list_del m x) head (ys ++ (z ∷ zs))
delete_middle m head ys x z zs q =
    let n = list_del m x in
    let pred = last head ys in
    let (l, to, from, (next_x, prev_z, rest)) = Linked-append_left m head ys x (z ∷ zs) q.linked in
    let (d, out) = IsDistinct-remove (head ∷ ys) x (z ∷ zs) q.distinct in
    let apart : (p : ℕ) → has p (head ∷ ys) ≡ true → has p (z ∷ zs) ≡ false =
      λ p h. distinct_apart p (head ∷ ys) (z ∷ zs) d h in
    let out_both : has x (head ∷ ys ++ (z ∷ zs)) ≡ false = out in
    let out_front : has x (head ∷ ys) ≡ false = ground (arith, out, has-append x ys (z ∷ zs)) in
    let out_back : has x (z ∷ zs) ≡ false = ground (arith, out, has-append x ys (z ∷ zs)) in
    let off : (x == z) ≡ false = ground (arith, out_back) in
    let off' : (z == x) ≡ false = ground (arith, off) in
    let here : (pred == pred) ≡ true = ground arith in
    let here_z : (z == z) ≡ true = ground arith in
    let head_x : (head == x) ≡ false = has-other head x (head ∷ ys) (ground arith) out_front in
    let head_out : has head (z ∷ zs) ≡ false = apart head (ground arith) in
    let head_z : (head == z) ≡ false = ground (arith, head_out) in
    let pred_out : has pred (z ∷ zs) ≡ false = apart pred (has-last head ys) in
    let nx = del_next m x pred z from next_x off in
    let pv = del_prev m x pred z from next_x off in
    let dz : IsDistinct (z ∷ zs) = IsDistinct-right (head ∷ ys) (z ∷ zs) d in
    let tail_last : last head (ys ++ (x ∷ z ∷ zs)) ≡ last z zs = last-append head ys x (z ∷ zs) in
    let new_last : last head (ys ++ (z ∷ zs)) ≡ last z zs = last-append head ys z zs in
    record {
      linked =
          Linked-append n head ys (z ∷ zs)
            (front_part m head ys x z (z ∷ zs) q.distinct nx pv (not_front z ys zs d) l)
            (
              nx pred ∙ rw (has-other pred x (head ∷ ys) (has-last head ys) out_front, here) refl,
              pv z ∙ rw (off', here_z) refl,
              Linked-frame m n z zs dz
                  (λ p h k.
                    nx p
                    ∙ rw (has-other p x (z ∷ zs) h out_back, has-other p pred (z ∷ zs) h pred_out)
                        refl)
                  (λ p h.
                    pv p
                    ∙ rw (has-other p x zs h (ground (arith, out_back)), has-other p z zs h dz.0)
                        refl)
                  rest,
            );
      next_last =
          ap n.next new_last
          ∙ nx (last z zs)
          ∙ rw
              (
                has-other (last z zs) x (z ∷ zs) (has-last z zs) out_back,
                has-other (last z zs) pred (z ∷ zs) (has-last z zs) pred_out,
              )
              (ap m.next (sym tail_last) ∙ q.next_last);
      prev_head = pv head ∙ rw (head_x, head_z) (q.prev_head ∙ tail_last ∙ sym new_last);
      distinct = d;
    }
  where
    not_front : (z : ℕ) (ys zs : List ℕ) → IsDistinct (head ∷ ys ++ (z ∷ zs)) → has z ys ≡ false
    not_front z ys zs d = elim (Bool-cases (has z ys)) [
      | inl e ↦ absurd (ground (arith, distinct_apart z ys (z ∷ zs) d.1 e))
      | inr e ↦ e
    ]

-- Taking out any node of a queue leaves the queue of the others, in their order,
pub list_del-IsQueue :
    (m : Mem) (head : ℕ) (ys : List ℕ) (x : ℕ) (zs : List ℕ)
    → IsQueue m head (ys ++ (x ∷ zs))
    → IsQueue (list_del m x) head (ys ++ zs)
list_del-IsQueue m head ys x [] q =
    subst (λ r. IsQueue (list_del m x) head r) (sym (append_nil ys)) (delete_last m head ys x q)
list_del-IsQueue m head ys x (z ∷ zs) q = delete_middle m head ys x z zs q

-- and the node linked to nothing.
pub list_not_linked-list_del : (m : Mem) (x : ℕ) → list_not_linked (list_del m x) x ≡ true
unfolding list_not_linked list_del
list_not_linked-list_del m x = ground arith
