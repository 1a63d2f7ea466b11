-- ===== src/Thread/State.antt =====
-- include/kern/thread-state.h, thr/thread-info.c and thr/thread-que.c: thread states, the dispatch
-- control of a thread, and queues of threads. Threads are numbered; a thread is its number.
use yatos.Prelude.{
  ℕ, ◌+◌, ◌-◌, Bool, true, false, not, ◌||◌, ltb, ◌==◌, if◌then◌else◌, List, [], ◌∷◌, ◌++◌, Exec,
  done, stop,
}

-- `thr_state`
pub data ThrState : Type 0 where
  free dormant ready run wait wait_killable wait_intr exit : ThrState

abbrev pub is_ready : ThrState → Bool
is_ready ready = true
is_ready _ = false

abbrev pub is_run : ThrState → Bool
is_run run = true
is_run _ = false

abbrev pub is_dormant : ThrState → Bool
is_dormant dormant = true
is_dormant _ = false

abbrev pub valid_wait_status : ThrState → Bool
valid_wait_status wait = true
valid_wait_status wait_killable = true
valid_wait_status wait_intr = true
valid_wait_status _ = false

abbrev pub thr_wait_killable : ThrState → Bool
thr_wait_killable wait_killable = true
thr_wait_killable _ = false

abbrev is_wait_intr : ThrState → Bool
is_wait_intr wait_intr = true
is_wait_intr _ = false

abbrev is_wait : ThrState → Bool
is_wait wait = true
is_wait _ = false

abbrev pub thr_wait_intr : ThrState → Bool
thr_wait_intr st = thr_wait_killable st || is_wait_intr st

abbrev pub thr_in_wait : ThrState → Bool
thr_in_wait st = is_wait st || thr_wait_intr st

-- the fields of `thread_info` that control dispatching. THR_PREEMPT_ACTIVE is a field of its own here, as
-- is THR_DISPATCH_DELAYED: `preempt` is the count in the other 31 bits.
pub record ThreadInfo : Type 0 where
  pub preempt : ℕ
  pub preempt_active : Bool
  pub delayed : Bool
  pub intrcnt : ℕ

unfoldable pub ti_dispatch_disabled : ThreadInfo → Bool
ti_dispatch_disabled ti = not (ti.preempt == 0) || ltb 0 ti.intrcnt

unfoldable pub ti_set_delay_dispatch : ThreadInfo → ThreadInfo
ti_set_delay_dispatch ti = record ti { delayed = true }

unfoldable pub ti_clr_delay_dispatch : ThreadInfo → ThreadInfo
ti_clr_delay_dispatch ti = record ti { delayed = false }

unfoldable pub ti_clr_thread_info : ThreadInfo → ThreadInfo
unfolding ti_clr_delay_dispatch
ti_clr_thread_info ti = ti_clr_delay_dispatch (record ti { preempt = 0; preempt_active = false })

-- `thread_queue`: the threads in order, and their number
pub record ThreadQueue : Type 0 where
  pub que : List ℕ
  pub cnt : ℕ

unfoldable pub tq_init : ThreadQueue
tq_init = record { que = []; cnt = 0 }

-- This is for a thread that is on no queue, as the ready queues of a valid system have it. For one that is on a queue
-- the code overwrites the link that is in use and breaks the ring, which stands outside this model.
unfoldable pub tq_add : ThreadQueue → ℕ → ThreadQueue
tq_add q thr = record { que = q.que ++ (thr ∷ []); cnt = q.cnt + 1 }

abbrev without : ℕ → List ℕ → List ℕ
without thr [] = []
without thr (t ∷ ts) = let rest = without thr ts in if t == thr then ts else t ∷ rest

unfoldable pub tq_del : ThreadQueue → ℕ → ThreadQueue
tq_del q thr = record { que = without thr q.que; cnt = q.cnt - 1 }

unfoldable pub tq_is_empty : ThreadQueue → Bool
tq_is_empty q = elim q.que [ [] ↦ true | t ∷ ts ↦ false ]

abbrev pub top_of : List ℕ → ℕ → Exec (ℕ × ThreadQueue)
top_of [] cnt = stop
top_of (t ∷ ts) cnt = done (t, record { que = ts; cnt = cnt - 1 })

unfoldable pub tq_get_top : ThreadQueue → Exec (ℕ × ThreadQueue)
tq_get_top q = top_of q.que q.cnt
