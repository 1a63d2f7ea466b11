-- ===== src/Links.antt =====
-- klib/list.c and klib/queue.c: doubly linked lists embedded in structures. Nodes and queue heads are
-- addresses; the two fields of all of them are two functions.
pub mod Paths
mod Distinct
mod Add
mod Delete
mod Refine
mod Twice
mod Tests
use yatos.Prelude.{ℕ, Bool, ◌&&◌, ◌==◌, if◌then◌else◌}

-- the memory of `struct _list` and `struct _queue`, which have the same fields
pub record Mem : Type 0 where
  pub prev : ℕ → ℕ
  pub next : ℕ → ℕ

abbrev pub update : (ℕ → ℕ) → ℕ → ℕ → ℕ → ℕ
update f p v q = if q == p then v else f q

-- `p->prev = v` and `p->next = v`
abbrev pub set_prev : Mem → ℕ → ℕ → Mem
set_prev m p v = record m { prev = update m.prev p v }

abbrev pub set_next : Mem → ℕ → ℕ → Mem
set_next m p v = record m { next = update m.next p v }

unfoldable pub list_init : Mem → ℕ → Mem
list_init m node = set_prev (set_next m node node) node node

unfoldable pub list_del : Mem → ℕ → Mem
unfolding list_init
list_del m node =
    let m1 = set_prev m (m.next node) (m.prev node) in
    let m2 = set_next m1 (m1.prev node) (m1.next node) in list_init m2 node

unfoldable pub list_not_linked : Mem → ℕ → Bool
list_not_linked m node = m.prev node == node && m.next node == node

unfoldable pub queue_add : Mem → ℕ → ℕ → Mem
queue_add m head node =
    let m1 = set_next m node head in
    let m2 = set_prev m1 node (m1.prev head) in
    let m3 = set_next m2 (m2.prev head) node in set_prev m3 head node

unfoldable pub queue_add_top : Mem → ℕ → ℕ → Mem
queue_add_top m head node =
    let m1 = set_next m node (m.next head) in
    let m2 = set_prev m1 node head in
    let m3 = set_prev m2 (m2.next head) node in set_next m3 head node

unfoldable pub queue_ref_top : Mem → ℕ → ℕ
queue_ref_top m head = m.next head

unfoldable pub queue_get_top : Mem → ℕ → ℕ × Mem
unfolding queue_ref_top list_del
queue_get_top m head = let top = queue_ref_top m head in (top, list_del m top)

unfoldable pub queue_ref_last : Mem → ℕ → ℕ
queue_ref_last m head = m.prev head

unfoldable pub queue_get_last : Mem → ℕ → ℕ × Mem
unfolding queue_ref_last list_del
queue_get_last m head = let last = queue_ref_last m head in (last, list_del m last)

unfoldable pub queue_is_empty : Mem → ℕ → Bool
queue_is_empty m head = m.prev head == head && m.next head == head

unfoldable pub queue_init : Mem → ℕ → Mem
queue_init m head = set_prev (set_next m head head) head head
