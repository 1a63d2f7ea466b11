-- ===== src/Event/Queue.antt =====
-- event/async-event.c and include/kern/async-event.h: the event queue of a thread or a process, and
-- taking the next deliverable event from it.
use yatos.Prelude.{
  ℕ, Bool, ltb, ◌==◌, if◌then◌else◌, List, [], ◌∷◌, ◌++◌, Option, none, some, replicate, Exec, done,
  stop, ◌>>=◌, ◌>>◌, kassert,
}
use yatos.Event.Mask.{
  EventMask, ev_nr_event, ev_map_len, ev_mask_xor, ev_mask_and, ev_mask_set, ev_mask_unset,
  ev_mask_find_first_bit,
}

-- `evinfo`, a node of an event queue; the pointers and the attached data are numbers.
pub record Evinfo : Type 0 where
  pub flags : ℕ
  pub no : ℕ
  pub err : ℕ
  pub code : ℕ
  pub trap : ℕ
  pub sender_id : ℕ
  pub ev_status : ℕ
  pub ev_utime : ℕ
  pub ev_stime : ℕ
  pub ev_addr : ℕ
  pub ev_data : ℕ
  pub data_siz : ℕ

-- `event_queue`: pending events, masked events, and a queue of nodes for each event number
pub record EventQueue : Type 0 where
  pub events : EventMask
  pub masks : EventMask
  pub que : ℕ → List Evinfo

unfoldable pub ev_queue_init : EventQueue
ev_queue_init = record {
  events = record { words = replicate ev_map_len 0 };
  masks = record { words = replicate ev_map_len 0 };
  que = λ i. [];
}

-- The nodes are freed; the bits of pending events stay as they are.
unfoldable pub ev_free_pending_events : EventQueue → EventQueue
ev_free_pending_events q = record q { que = λ i. if ltb i ev_nr_event then [] else q.que i }

abbrev pub set_que : (ℕ → List Evinfo) → ℕ → List Evinfo → ℕ → List Evinfo
set_que que id l i = if i == id then l else que i

abbrev ev_sig_si_user : ℕ
ev_sig_si_user = 0

abbrev ev_sig_si_kernel : ℕ
ev_sig_si_kernel = 1

-- The node of an event: `grants` says whether kmalloc does, `by_kernel` whether the caller's process is
-- the kernel's.
unfoldable pub ev_alloc_node : Bool → Bool → ℕ → Option Evinfo
ev_alloc_node grants by_kernel id =
    if grants
    then some (record {
      flags = 0;
      no = id;
      err = 0;
      code = if by_kernel then ev_sig_si_kernel else ev_sig_si_user;
      trap = 0;
      sender_id = 0;
      ev_status = 0;
      ev_utime = 0;
      ev_stime = 0;
      ev_addr = 0;
      ev_data = 0;
      data_siz = 0;
    })
    else none

-- `queue_get_top` of the queue of an event, and the pending bit off where it leaves the queue empty
unfoldable pub take_event : EventQueue → ℕ → List Evinfo → Exec (Option Evinfo × EventQueue)
unfolding ev_mask_unset
take_event q id [] = stop
take_event q id (node ∷ []) = do
  events ← ev_mask_unset q.events id
  done (some node, record q { events = events; que = set_que q.que id [] })
take_event q id (node ∷ next ∷ rest) =
    done (some node, record q { que = set_que q.que id (next ∷ rest) })

-- the part after the search for a deliverable event; `none` is -ENOENT
unfoldable pub deliver_event : EventQueue → Option ℕ → Exec (Option Evinfo × EventQueue)
unfolding take_event
deliver_event evque none = done (none, evque)
deliver_event evque (some id) = kassert (ltb id ev_nr_event) >> take_event evque id (evque.que id)

-- `masks` is the mask of the current thread.
unfoldable pub dequeue_from_evque_nolock :
    EventQueue → EventMask → Exec (Option Evinfo × EventQueue)
unfolding ev_mask_xor ev_mask_and ev_mask_find_first_bit deliver_event
dequeue_from_evque_nolock evque masks =
    deliver_event evque
      (ev_mask_find_first_bit (ev_mask_and evque.events (ev_mask_xor evque.events masks)))

-- The part of ev_send and ev_send_to_process that changes a queue: the node goes to the end of the
-- queue of its event, and the event becomes pending.
unfoldable pub post_event : EventQueue → Evinfo → Exec EventQueue
post_event q node = do
  events ← ev_mask_set q.events node.no
  done (record q { events = events; que = set_que q.que node.no (q.que node.no ++ (node ∷ [])) })
