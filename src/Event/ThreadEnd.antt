-- ===== src/Event/ThreadEnd.antt =====
-- event/async-event.c: all the events of a thread that ends.
use mathlib.Core.Path.{subst}
use yatos.Prelude.{
  ℕ, zero, suc, ◌+◌, ◌<◌, ◌≡◌, refl, sym, ap, ◌∙◌, inl, inr, arith, Bool, true, false, leb, ◌==◌,
  if◌then◌else◌, Bool-cases, List, [], ◌++◌, done,
}
use yatos.Event.Deliverable.{has, IsMask}
use yatos.Event.Update.{ev_mask_unset_lem}
use yatos.Event.Queue.{Evinfo, EventQueue}
use yatos.Event.Dequeue.{IsConsistent}
use yatos.Event.Send.{EvSys, put_evque}
use yatos.Event.Deliver.{put_evque-here}
use yatos.Event.Exit.{is_nil, pass_all_on, ev_handle_exit_thread_events}
use yatos.Event.Wakeable.{AllWakeable, IsEnding}
use yatos.Event.PassOn.{AllWakeable-same, passed, is_master, AllOf, Passes, pass_on-Passes}

-- A thread that ends: the system is valid, its pending bits are a mask, the nodes of its queues are of
-- their events, the threads of its process can be woken, and the queue of its process is consistent.
pub record CanEnd (w : EvSys) (cur : ℕ) : Type 0 where
  pub ending : IsEnding w.sys
  pub mask : IsMask (w.evques cur).events
  pub numbers : (j : ℕ) → AllOf j ((w.evques cur).que j)
  pub wakeable : AllWakeable w.evques w.sys.idle (w.threads_of (w.proc_of cur))
  pub consistent : IsConsistent (w.proc_evques (w.proc_of cur))

-- What the end does from the event `id` on: the queues of the thread are empty and their bits off, and the
-- process has the nodes that are passed on, behind those that it had.
pub record Ends (w w' : EvSys) (cur id : ℕ) : Type 0 where
  pub ending : IsEnding w'.sys
  pub consistent : IsConsistent (w'.proc_evques (w.proc_of cur))
  pub queues :
      (j : ℕ) → j < 128 → (w'.evques cur).que j ≡ (if leb id j then [] else (w.evques cur).que j)
  pub bits :
      (j : ℕ)
      → j < 128
      → has (w'.evques cur).events j ≡ (if leb id j then false else has (w.evques cur).events j)
  pub procs :
      (j : ℕ)
      → j < 128
      → (w'.proc_evques (w.proc_of cur)).que j ≡ (
          if leb id j
          then (w.proc_evques (w.proc_of cur)).que j
            ++ passed (is_master w cur) ((w.evques cur).que j)
          else (w.proc_evques (w.proc_of cur)).que j)

from_here {ℓ} :
    {A : Type ℓ} (id j : ℕ) (x y : A)
    → (if leb (id + 1) j then x else (if id == j then x else y)) ≡ (if leb id j then x else y)
from_here id j x y = elim (Bool-cases (id == j)) [
  | inl i ↦ let on : leb id j ≡ true = ground arith in rw (i, on) (same (leb (id + 1) j))
  | inr i ↦ let next : leb (id + 1) j ≡ leb id j = ground arith in rw (i, next) refl
]
  where
    same : (b : Bool) → (if b then x else x) ≡ x
    same true = refl
    same false = refl

module _ (w w1 : EvSys) (id : ℕ) (small : id < 128) (cur : ℕ) (k : CanEnd w cur)
    (r : Passes w w1 cur id ((w.evques cur).que id)) (now : w1.sys.current ≡ cur) where
  abbrev with_events : EventQueue → EvSys
  with_events q = put_evque w1 cur q

  same_proc : w1.proc_of cur ≡ w.proc_of cur
  same_proc = ap (λ g. g cur) r.proc_of

  same_master : is_master w1 cur ≡ is_master w cur
  same_master =
      ap (λ g. cur == g (w1.proc_of cur)) r.master_of ∙ ap (λ p. cur == w.master_of p) same_proc

  own_queues : (j : ℕ) → (w1.evques cur).que j ≡ (if id == j then [] else (w.evques cur).que j)
  own_queues j = elim (Bool-cases (id == j)) [
    | inl i ↦ let it : j ≡ id = ground arith in rw i (ap (w1.evques cur).que it ∙ r.emptied)
    | inr i ↦ rw i (r.others j i)
  ]

  abbrev had : ℕ → List Evinfo
  had j = (w.proc_evques (w.proc_of cur)).que j

  abbrev gets : ℕ → List Evinfo
  gets j = passed (is_master w cur) ((w.evques cur).que j)

  proc_queues :
      (j : ℕ)
      → (w1.proc_evques (w1.proc_of cur)).que j ≡ (if id == j then had j ++ gets j else had j)
  proc_queues j = elim (Bool-cases (id == j)) [
    | inl i ↦
        let it : id ≡ j = ground arith in
        rw i (
          ap (λ p. (w1.proc_evques p).que j) same_proc
          ∙ subst (λ x. (w1.proc_evques (w.proc_of cur)).que x ≡ had x ++ gets x) it r.added)
    | inr i ↦ rw i (ap (λ p. (w1.proc_evques p).que j) same_proc ∙ r.proc_others j i)
  ]

  -- After the nodes of an event were passed on and its bit was taken off, the next event can be done,
  next-CanEnd :
      (q : EventQueue)
      → IsMask q.events
      → q.que ≡ (w1.evques cur).que
      → q.masks ≡ (w1.evques cur).masks
      → CanEnd (with_events q) cur
  next-CanEnd q m same same_masks = record {
    ending = r.kept.ending;
    mask = subst (λ x. IsMask x.events) (sym at) m;
    numbers = λ j.
        subst (AllOf j) (sym (ap (λ x. x.que j) at ∙ ap (λ g. g j) same ∙ own_queues j))
          (some_of j);
    wakeable =
        AllWakeable-same w.evques (with_events q).evques w1.sys.idle
          (w1.threads_of (w1.proc_of cur)) all_masks
          (subst (λ i. AllWakeable w.evques i (w1.threads_of (w1.proc_of cur))) (sym r.kept.idle)
            (subst (AllWakeable w.evques w.sys.idle) (sym same_threads) k.wakeable));
    consistent = subst (λ p. IsConsistent (w1.proc_evques p)) (sym same_proc) r.consistent;
  }
    where
      at : (put_evque w1 cur q).evques cur ≡ q
      at = put_evque-here w1 cur q

      same_threads : w1.threads_of (w1.proc_of cur) ≡ w.threads_of (w.proc_of cur)
      same_threads = ap (λ g. g (w1.proc_of cur)) r.threads_of ∙ ap w.threads_of same_proc

      some_of : (j : ℕ) → AllOf j (if id == j then [] else (w.evques cur).que j)
      some_of j = elim (Bool-cases (id == j)) [ inl i ↦ rw i tt | inr i ↦ rw i (k.numbers j) ]

      all_masks : (t : ℕ) → ((put_evque w1 cur q).evques t).masks ≡ (w.evques t).masks
      all_masks t = elim (Bool-cases (t == cur)) [
        | inl i ↦
            let it : t ≡ cur = ground arith in
            rw i (same_masks ∙ ap (λ x. (w1.evques x).masks) (sym it) ∙ r.masks t)
        | inr i ↦ rw i (r.masks t)
      ]

  -- and what that does is what the end does from this event on.
  Ends-next :
      (q : EventQueue) (w' : EvSys)
      → ((j : ℕ) → has q.events j ≡ (if id == j then false else has (w1.evques cur).events j))
      → q.que ≡ (w1.evques cur).que
      → Ends (with_events q) w' cur (id + 1)
      → Ends w w' cur id
  Ends-next q w' off same f = record {
    ending = f.ending;
    consistent = subst (λ p. IsConsistent (w'.proc_evques p)) same_proc f.consistent;
    queues = λ j h.
        f.queues j h
        ∙ ap (λ l. if leb (id + 1) j then [] else l) (queue_of j)
        ∙ from_here id j [] ((w.evques cur).que j);
    bits = λ j h.
        f.bits j h
        ∙ ap (λ b. if leb (id + 1) j then false else b)
            (ap (λ x. has x.events j) at
              ∙ off j
              ∙ ap (λ e. if id == j then false else has e j) r.events)
        ∙ from_here id j false (has (w.evques cur).events j);
    procs = λ j h.
        ap (λ p. (w'.proc_evques p).que j) (sym same_proc)
        ∙ f.procs j h
        ∙ ap
            (λ l.
              if leb (id + 1) j
              then (w1.proc_evques (w1.proc_of cur)).que j ++ passed (is_master w1 cur) l
              else (w1.proc_evques (w1.proc_of cur)).que j)
            (queue_of j)
        ∙ ap
            (λ b.
              if leb (id + 1) j
              then (w1.proc_evques (w1.proc_of cur)).que j
                ++ passed b (if id == j then [] else (w.evques cur).que j)
              else (w1.proc_evques (w1.proc_of cur)).que j)
            same_master
        ∙ ap
            (λ l.
              if leb (id + 1) j
              then l ++ passed (is_master w cur) (if id == j then [] else (w.evques cur).que j)
              else l)
            (proc_queues j)
        ∙ all_in_all j;
  }
    where
      at : (put_evque w1 cur q).evques cur ≡ q
      at = put_evque-here w1 cur q

      queue_of :
          (j : ℕ)
          → ((put_evque w1 cur q).evques cur).que j ≡ (if id == j then [] else (w.evques cur).que j)
      queue_of j = ap (λ x. x.que j) at ∙ ap (λ g. g j) same ∙ own_queues j

      all_in_all :
          (j : ℕ)
          → (if leb (id + 1) j
              then (if id == j then had j ++ gets j else had j)
                ++ passed (is_master w cur) (if id == j then [] else (w.evques cur).que j)
              else (if id == j then had j ++ gets j else had j))
            ≡ (if leb id j then had j ++ gets j else had j)
      all_in_all j = elim (Bool-cases (id == j)) [
        | inl i ↦
            let on : leb id j ≡ true = ground arith in
            let off : leb (id + 1) j ≡ false = ground arith in rw (i, on, off) refl
        | inr i ↦ let next : leb (id + 1) j ≡ leb id j = ground arith in rw (i, next) refl
      ]

pass_all_on-Ends :
    (rounds : ℕ) (w : EvSys) (id : ℕ)
    → rounds + id ≡ 128
    → CanEnd w w.sys.current
    → (w' : EvSys) × (pass_all_on rounds w id ≡ done w') × Ends w w' w.sys.current id
unfolding pass_all_on
pass_all_on-Ends zero w id total k = (
  w,
  refl,
  record {
    ending = k.ending;
    consistent = k.consistent;
    queues = λ j h. let off : leb id j ≡ false = ground (arith, total, h) in rw off refl;
    bits = λ j h. let off : leb id j ≡ false = ground (arith, total, h) in rw off refl;
    procs = λ j h. let off : leb id j ≡ false = ground (arith, total, h) in rw off refl;
  },
)
pass_all_on-Ends (suc rounds) w id total k =
    let cur = w.sys.current in
    let small : id < 128 = omega arith in
    let (w1, e1, r0) = pass_on-Passes ((w.evques cur).que id) w id small (record {
      ending = k.ending;
      here = refl;
      numbers = k.numbers id;
      wakeable = k.wakeable;
      consistent = k.consistent;
    }) in
    let c1 = w1.sys.current in
    let moved = sym r0.kept.current in
    let k1 : CanEnd w c1 = subst (CanEnd w) moved k in
    let r : Passes w w1 c1 id ((w.evques c1).que id) =
      subst (λ c. Passes w w1 c id ((w.evques c).que id)) moved r0 in
    let nil : is_nil ((w1.evques c1).que id) ≡ true = ap is_nil r.emptied in
    let (events, unset, m, now) =
      ev_mask_unset_lem (w1.evques c1).events id (subst IsMask (sym r.events) k1.mask) small in
    let q : EventQueue = record (w1.evques c1) { events = events } in
    let (w', e', f) =
      pass_all_on-Ends rounds (put_evque w1 c1 q) (id + 1) (omega arith)
        (next-CanEnd w w1 id small c1 k1 r refl q m refl refl) in
    (
      w',
      rw (e1, nil, unset) e',
      subst (λ c. Ends w w' c id) r0.kept.current
          (Ends-next w w1 id small c1 k1 r refl q w' now refl f),
    )

-- A thread in its last state, in a valid system, whose pending bits are a mask, whose nodes are of their
-- events, and whose process has a consistent queue and threads that are not idle and have masks: the
-- handling of its events ends without a failed assertion. Its queues are empty afterwards and no event is
-- pending; the queue of the process has, behind what it had, the nodes of each event in their order, but
-- for those of the thread alone, and none where the thread is the master; it is consistent and the system
-- is valid.
pub ev_handle_exit_thread_events-Ends :
    (w : EvSys)
    → CanEnd w w.sys.current
    → (j : ℕ) → j < 128
    → (w' : EvSys) × (ev_handle_exit_thread_events w ≡ done w')
      × IsEnding w'.sys
      × IsConsistent (w'.proc_evques (w.proc_of w.sys.current))
      × ((w'.evques w.sys.current).que j ≡ [])
      × (has (w'.evques w.sys.current).events j ≡ false)
      × ((w'.proc_evques (w.proc_of w.sys.current)).que j
          ≡ (w.proc_evques (w.proc_of w.sys.current)).que j
            ++ passed (is_master w w.sys.current) ((w.evques w.sys.current).que j))
unfolding ev_handle_exit_thread_events
ev_handle_exit_thread_events-Ends w k j h =
    let cur = w.sys.current in
    let had = (w.proc_evques (w.proc_of cur)).que j in
    let own = (w.evques cur).que j in
    let (w', e, f) = pass_all_on-Ends 128 w 0 refl k in
    let on : leb 0 j ≡ true = ground arith in
    (
      w',
      rw k.ending.dead e,
      f.ending,
      f.consistent,
      f.queues j h ∙ ap (λ b. if b then [] else own) on,
      f.bits j h ∙ ap (λ b. if b then false else has (w.evques cur).events j) on,
      f.procs j h ∙ ap (λ b. if b then had ++ passed (is_master w cur) own else had) on,
    )
