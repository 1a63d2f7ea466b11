-- ===== src/Buddy.antt =====
-- page/page-buddy.c, include/kern/page-buddy.h and page_frame of include/kern/page.h: the buddy page
-- allocator. Frames, free counts and page queues are arrays, kept as functions of the index; an access
-- to a frame at or past nr_pages stops. A page queue is the list of the indices of its frames, first in
-- front. The caller holds the pool's lock, so a body runs as one step.
pub mod Siblings
pub mod Cover
pub mod Blocks
pub mod Split
pub mod Dequeue
pub mod Tiles
pub mod Unlink
pub mod Enqueue
pub mod Return
mod Tests
use Prim.Native.Nat.{bit_xor}
use yatos.Prelude.{
  ℕ, zero, suc, ◌+◌, ◌-◌, ◌*◌, ◌/◌, ◌%◌, ◌^◌, Bool, true, false, not, ◌&&◌, ◌||◌, ltb, leb, ◌==◌,
  if◌then◌else◌, List, [], ◌∷◌, ◌++◌, Option, none, some, Rc, ok, einval, enomem, Exec, done, stop,
  ◌>>=◌, ◌>>◌, kassert,
}
use yatos.Bits.{test_bit, set_bit, clear_bit}

-- PAGE_POOL_MAX_ORDER
abbrev pub max_order : ℕ
max_order = 11

-- The fields of `page_frame` that the allocator uses.
pub record Frame : Type 0 where
  pub state : ℕ
  pub pfn : ℕ
  pub order : ℕ

-- the bit numbers of PAGE_CSTATE_USED and PAGE_CSTATE_RESERVED
abbrev pub cstate_used : ℕ
cstate_used = 0

abbrev pub cstate_reserved : ℕ
cstate_reserved = 1

-- PAGE_CSTATE_NOT_FREED
unfoldable pub not_freed : Frame → Bool
not_freed f = test_bit f.state cstate_used || test_bit f.state cstate_reserved

-- `page_buddy`
pub record Buddy : Type 0 where
  pub frames : ℕ → Frame
  pub start_pfn : ℕ
  pub nr_pages : ℕ
  pub free_nr : ℕ → ℕ
  pub page_list : ℕ → List ℕ

abbrev pub update {ℓ} : {A : Type ℓ} → (ℕ → A) → ℕ → A → ℕ → A
update f i v j = if i == j then v else f j

abbrev pub set_order : Buddy → ℕ → ℕ → Buddy
set_order b i k = record b { frames = update b.frames i (record (b.frames i) { order = k }) }

abbrev pub set_state : Buddy → ℕ → ℕ → Buddy
set_state b i s = record b { frames = update b.frames i (record (b.frames i) { state = s }) }

-- `queue_add` of a frame to the queue of an order, and `++free_nr[order]`
abbrev pub push : Buddy → ℕ → ℕ → Buddy
push b k i = record b {
  free_nr = update b.free_nr k (b.free_nr k + 1);
  page_list = update b.page_list k (b.page_list k ++ i ∷ []);
}

-- The loop of remove_page_from_page_queue, from order request + n down to request: the first half of the
-- block goes back to the queue of its order, the second half is split on.
unfoldable pub split : ℕ → ℕ → Buddy → ℕ → Exec (ℕ × Buddy)
split request zero b i = done (i, b)
split request (suc n) b i =
    let cur = request + n in
    let b1 = set_order b i cur in
    let b2 = push b1 cur i in
    let j = i + 2 ^ cur in
    let rest = split request n (set_order b2 j cur) j in
    kassert (not (not_freed (b1.frames i))) >> (kassert (ltb j b.nr_pages) >> rest)

unfoldable pub remove_page_from_page_queue : Buddy → ℕ → ℕ → ℕ → Exec (ℕ × Buddy)
unfolding split
remove_page_from_page_queue b i request cur =
    kassert ((b.frames i).order == cur)
    >> (split request (cur - request) b i >>= λ r.
        kassert (not (test_bit (r.1.frames r.0).state cstate_reserved)) >> done r)

-- `queue_get_top` and `--free_nr[order]`, at a queue that is not empty
abbrev pub pop : Buddy → ℕ → List ℕ → Buddy
pop b k rest = record b {
  free_nr = update b.free_nr k (b.free_nr k - 1);
  page_list = update b.page_list k rest;
}

-- the part of page_buddy_dequeue from the first queue that has a page
unfoldable pub take_page : Buddy → ℕ → ℕ → ℕ → List ℕ → Exec ((Rc × Option ℕ) × Buddy)
unfolding remove_page_from_page_queue
take_page b order cur i rest = remove_page_from_page_queue (pop b cur rest) i order cur >>= λ r.
    let b1 = set_state r.1 r.0 (set_bit (r.1.frames r.0).state cstate_used) in
    let page = b1.frames r.0 in
    kassert (page.order == order)
    >> (kassert (leb b.start_pfn page.pfn && ltb page.pfn (b.start_pfn + b.nr_pages))
        >> done ((ok, some page.pfn), b1))

-- The search of page_buddy_dequeue over the n queues from cur on.
unfoldable pub search_order : Buddy → ℕ → ℕ → ℕ → Exec ((Rc × Option ℕ) × Buddy)
search_order b order cur zero = done ((enomem, none), b)
search_order b order cur (suc n) =
    let rest = search_order b order (cur + 1) n in
    elim (b.page_list cur) [ [] ↦ rest | i ∷ q ↦ take_page b order cur i q ]

unfoldable pub page_buddy_dequeue : Buddy → ℕ → Exec ((Rc × Option ℕ) × Buddy)
unfolding search_order
page_buddy_dequeue b order =
    if leb max_order order
    then done ((einval, none), b)
    else search_order b order order (max_order - order)

-- `list_del( &buddy_page->link )`: the frame leaves the queue that it is on.
abbrev pub remove : ℕ → List ℕ → List ℕ
remove i [] = []
remove i (x ∷ xs) = if x == i then remove i xs else x ∷ remove i xs

abbrev pub unlink : Buddy → ℕ → Buddy
unlink b i = record b { page_list = λ k. remove i (b.page_list k) }

-- The loop of page_buddy_enqueue, from order cur with n orders to go: the index of the block that is to
-- be queued, and the pool.
unfoldable pub merge : ℕ → Buddy → ℕ → ℕ → Exec (ℕ × Buddy)
merge zero b i cur = done (i, b)
merge (suc n) b i cur =
    let b1 = set_order b i cur in
    let j = bit_xor i (2 ^ cur) in
    let other = b1.frames j in
    let b2 = unlink b1 j in
    let b3 = record b2 { free_nr = update b2.free_nr other.order (b2.free_nr other.order - 1) } in
    let rest = merge n b3 (i / 2 ^ (cur + 1) * 2 ^ (cur + 1)) (cur + 1) in
    let stays = done (i, b1) in
    kassert (ltb i b.nr_pages)
    >> (if leb (max_order - 1) cur
        then stays
        else if leb b.nr_pages j
        then stays
        else if not (cur == other.order)
        then stays
        else if not_freed other
        then stays
        else rest)

-- `lookup` is pfn_to_page_frame: the index of the frame in the pool's array, if the number is known.
unfoldable pub page_buddy_enqueue : (ℕ → Option ℕ) → Buddy → ℕ → Exec Buddy
unfolding merge
page_buddy_enqueue lookup b pfn =
    kassert (leb b.start_pfn pfn && ltb pfn (b.start_pfn + b.nr_pages)) >> elim (lookup pfn) [
      | none ↦ done b
      | some i ↦
          let order = (b.frames i).order in
          kassert (ltb order max_order)
          >> (kassert (i % 2 ^ order == 0)
              >> (merge (max_order - order)
                    (set_state b i (clear_bit (b.frames i).state cstate_used)) i order
                  >>= λ r.
                      kassert (ltb r.0 b.nr_pages)
                      >> (let k = (r.1.frames r.0).order in
                          kassert (ltb k max_order) >> done (push r.1 k r.0))))
    ]

unfoldable pub free_from : Buddy → ℕ → ℕ → ℕ
free_from b i zero = 0
free_from b i (suc n) = b.free_nr i * 2 ^ i + free_from b (i + 1) n

unfoldable pub page_buddy_get_free : Buddy → ℕ
unfolding free_from
page_buddy_get_free b = free_from b 0 max_order

unfoldable pub page_buddy_init : (ℕ → Frame) → ℕ → ℕ → Buddy
page_buddy_init frames start_pfn nr_pfn = record {
  frames = frames;
  start_pfn = start_pfn;
  nr_pages = nr_pfn;
  free_nr = λ k. 0;
  page_list = λ k. [];
}
