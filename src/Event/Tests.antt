-- ===== src/Event/Tests.antt =====
-- Runs of the event queue at concrete inputs.
use yatos.Prelude.{
  ℕ, zero, suc, ◌<◌, ◌≡◌, refl, arith, Bool, true, false, not, ◌&&◌, ◌==◌, if◌then◌else◌, [], ◌∷◌,
  ◌++◌, Option, some, done, inl, inr, Bool-cases, ltb, ok,
}
use yatos.Bits.{test_bit}
use yatos.Event.Mask.{EventMask, ev_sig_kill, ev_mask_find_first_bit, find_in_word}
use yatos.Event.Deliverable.{has}
use yatos.Event.FirstBit.{Lowest, ev_mask_find_first_bit-Lowest}
use yatos.Event.Queue.{Evinfo, EventQueue, ev_queue_init, dequeue_from_evque_nolock, post_event}
use yatos.Event.Dequeue.{is_empty, IsConsistent, Takes, dequeue_from_evque_nolock-Takes}
use yatos.Event.Post.{post_event-Posts}
use yatos.Thread.State.{exit, ThreadInfo, run, wait_intr, free, is_ready}
use yatos.Thread.Sched.{Sys}
use yatos.Thread.Queues.{IsValid, que_of}
use yatos.Event.Exit.{ev_handle_exit_thread_events}
use yatos.Event.Wakeable.{IsEnding}
use yatos.Event.ThreadEnd.{CanEnd, ev_handle_exit_thread_events-Ends}
use yatos.Event.Send.{EvSys, ev_send, ev_dequeue}
use yatos.Event.Deliver.{ev_send-Delivers}
use yatos.Event.Taken.{ev_dequeue-ev_send}

abbrev no_events : EventMask
no_events = record { words = 0 ∷ 0 ∷ [] }

abbrev event_node : ℕ → Evinfo
event_node id = record {
  flags = 0;
  no = id;
  err = 0;
  code = 0;
  trap = 0;
  sender_id = 0;
  ev_status = 0;
  ev_utime = 0;
  ev_stime = 0;
  ev_addr = 0;
  ev_data = 0;
  data_siz = 0;
}

-- Event 15 is pending with two nodes, nothing is masked.
abbrev terminating : EventQueue
terminating = record {
  events = record { words = 32768 ∷ 0 ∷ [] };
  masks = no_events;
  que = λ i. if i == 15 then event_node 15 ∷ event_node 15 ∷ [] else [];
}

abbrev same_bool : Bool → Bool → Bool
same_bool true b = b
same_bool false b = not b

same_bool-eq : (a b : Bool) → same_bool a b ≡ true → a ≡ b
same_bool-eq a b h = ground arith

-- a check of all numbers below n
abbrev all_below : (ℕ → Bool) → ℕ → Bool
all_below p zero = true
all_below p (suc n) = p n && all_below p n

all_below-at : (p : ℕ → Bool) (n : ℕ) → all_below p n ≡ true → (i : ℕ) → i < n → p i ≡ true
all_below-at p zero h i k = absurd (omega arith)
all_below-at p (suc n) h i k = elim (Bool-cases (i == n)) [
  | inl e ↦ let same : i ≡ n = ground arith in rw same (ground arith)
  | inr e ↦ all_below-at p n (ground arith) i (ground arith)
]

terminating-IsConsistent : IsConsistent terminating
terminating-IsConsistent = record {
  mask = refl;
  pending = λ id h. same_bool-eq _ _ (
      all_below-at
        (λ i.
          same_bool (has terminating.events i)
            (not (i == ev_sig_kill) && not (is_empty (terminating.que i))))
        128 refl id h);
}

ev_queue_init-IsConsistent : IsConsistent ev_queue_init
unfolding ev_queue_init
ev_queue_init-IsConsistent = record {
  mask = refl;
  pending = λ id h. same_bool-eq _ _ (
      all_below-at (λ i. same_bool (has no_events i) (not (i == ev_sig_kill) && not (is_empty [])))
        128 refl id h);
}

dequeue_from_evque_nolock-Takes_example :
    (o : Option Evinfo) × (q' : EventQueue) × (dequeue_from_evque_nolock terminating no_events
      ≡ done (o, q'))
    × IsConsistent q'
    × Takes terminating no_events o q'
dequeue_from_evque_nolock-Takes_example =
    dequeue_from_evque_nolock-Takes terminating no_events terminating-IsConsistent refl

post_event-Posts_example :
    (q' : EventQueue) × (post_event terminating (event_node 30) ≡ done q')
    × IsConsistent q'
    × (q'.que 30 ≡ [] ++ (event_node 30 ∷ []))
    × ((j : ℕ) → (30 == j) ≡ false → q'.que j ≡ terminating.que j)
    × (q'.masks ≡ no_events)
    × ((j : ℕ)
        → j < 128
        → has q'.events j
          ≡ (if not (30 == ev_sig_kill) && 30 == j then true else has terminating.events j))
post_event-Posts_example =
    post_event-Posts terminating (event_node 30) terminating-IsConsistent (omega arith)

ev_mask_find_first_bit-Lowest_example :
    Lowest (has terminating.events) 128 (ev_mask_find_first_bit terminating.events)
ev_mask_find_first_bit-Lowest_example = ev_mask_find_first_bit-Lowest terminating.events refl

-- An event that is not masked is taken; one that is masked is not.
takes_fifteen :
    dequeue_from_evque_nolock terminating no_events
    ≡ done (
      some (event_node 15),
      record terminating { que = λ i. if i == 15 then event_node 15 ∷ [] else terminating.que i },
    )
unfolding dequeue_from_evque_nolock find_in_word test_bit
takes_fifteen = refl

abbrev quiet_info : ThreadInfo
quiet_info = record { preempt = 0; preempt_active = false; delayed = false; intrcnt = 0 }

-- Thread 0 is the idle thread, thread 1 runs, and thread 2 sleeps until an event.
abbrev one_sleeps : Sys
one_sleeps = record {
  threads = λ t. record {
    status = if t == 1 then run else (if t == 2 then wait_intr else free);
    prio = if t == 2 then 3 else 1;
    ti = quiet_info;
  };
  ready_queues = λ p. record { que = []; cnt = 0 };
  running = some 1;
  current = 1;
  idle = 0;
}

one_sleeps-IsValid : IsValid one_sleeps
one_sleeps-IsValid = record {
  prio = λ t. ground arith;
  queued = λ t p h. ground arith;
  counts = λ p h. ground arith;
}

-- No event is pending or masked.
abbrev no_event_yet : EvSys
no_event_yet = record {
  sys = one_sleeps;
  is_thread = λ t. ltb t 3;
  is_kernel = λ t. t == 0;
  evques = λ t. ev_queue_init;
  proc_of = λ t. 1;
  proc_evques = λ p. ev_queue_init;
  threads_of = λ p. 1 ∷ 2 ∷ [];
  master_of = λ p. 1;
}

ev_send-Delivers_example :
    (w' : EvSys) × (ev_send no_event_yet 2 (event_node 15) ≡ done (ok, w'))
    × IsValid w'.sys
    × IsConsistent (w'.evques 2)
    × ((w'.evques 2).que 15 ≡ event_node 15 ∷ [])
    × ((u : ℕ) → (u == 2) ≡ false → w'.evques u ≡ ev_queue_init)
    × (w'.proc_evques ≡ no_event_yet.proc_evques)
    × ((is_ready (w'.sys.threads 2).status ≡ true) × (que_of w'.sys 3 ≡ 2 ∷ []))
unfolding ev_queue_init
ev_send-Delivers_example =
    ev_send-Delivers no_event_yet 2 (event_node 15) one_sleeps-IsValid ev_queue_init-IsConsistent
      refl (omega arith) refl refl refl refl

ev_dequeue-ev_send_example :
    (w' : EvSys) × (w'' : EvSys) × (ev_send no_event_yet 1 (event_node 15) ≡ done (ok, w'))
    × (ev_dequeue w' ≡ done (some (event_node 15), w''))
    × ((j : ℕ) → (w''.evques 1).que j ≡ [])
unfolding ev_queue_init
ev_dequeue-ev_send_example =
    ev_dequeue-ev_send no_event_yet (event_node 15) ev_queue_init-IsConsistent refl
      ev_queue_init-IsConsistent (omega arith) refl refl refl refl refl (λ j h other unmasked. refl)
      (λ j. refl)

-- Thread 1 has ended with two nodes of event 15; thread 2 of its process is the master and sleeps.
abbrev one_ended : EvSys
one_ended = record no_event_yet {
  sys = record one_sleeps {
    threads = λ t. record (one_sleeps.threads t) {
      status = if t == 1 then exit else (if t == 2 then wait_intr else free);
    };
  };
  evques = λ t. if t == 1 then terminating else ev_queue_init;
  master_of = λ p. 2;
}

one_ended-CanEnd : CanEnd one_ended 1
unfolding ev_queue_init
one_ended-CanEnd = record {
  ending = record {
    valid = record {
      prio = λ t. ground arith;
      queued = λ t p h. ground arith;
      counts = λ p h. ground arith;
    };
    dead = refl;
  };
  mask = refl;
  numbers = λ j. elim (Bool-cases (j == 15)) [
    | inl e ↦ let it : 15 ≡ j = ground arith in rw e (it, (it, tt))
    | inr e ↦ rw e tt
  ];
  wakeable = (refl, refl, (refl, refl, tt));
  consistent = ev_queue_init-IsConsistent;
}

ev_handle_exit_thread_events-Ends_example :
    (w' : EvSys) × (ev_handle_exit_thread_events one_ended ≡ done w')
    × IsEnding w'.sys
    × IsConsistent (w'.proc_evques 1)
    × ((w'.evques 1).que 15 ≡ [])
    × (has (w'.evques 1).events 15 ≡ false)
    × ((w'.proc_evques 1).que 15 ≡ event_node 15 ∷ event_node 15 ∷ [])
unfolding ev_queue_init test_bit
ev_handle_exit_thread_events-Ends_example =
    ev_handle_exit_thread_events-Ends one_ended one_ended-CanEnd 15 (omega arith)
