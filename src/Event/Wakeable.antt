-- ===== src/Event/Wakeable.antt =====
-- event/async-event.c: the threads of a process are woken by a thread that ends.
use mathlib.Core.Path.{subst}
use yatos.Prelude.{
  ℕ, ◌<◌, ◌≡◌, refl, sym, ap, ◌∙◌, inl, inr, arith, true, false, not, ◌&&◌, ◌||◌, ◌==◌,
  if◌then◌else◌, Bool-cases, List, [], ◌∷◌, ◌++◌, done,
}
use yatos.Thread.State.{ThrState, exit, ready, is_dormant, thr_in_wait}
use yatos.Thread.Sched.{Sys, can_wake}
use yatos.Thread.Queues.{IsValid}
use yatos.Thread.Wakeup.{
  woken, sched_wakeup-woken, woken-current, woken-idle, woken-status, woken-IsValid,
}
use yatos.Event.Deliverable.{has, IsMask}
use yatos.Event.Update.{ev_mask_test_lem}
use yatos.Event.Queue.{Evinfo, EventQueue}
use yatos.Event.Dequeue.{IsConsistent}
use yatos.Event.Post.{post_event-Posts}
use yatos.Event.Send.{
  EvSys, put_proc_evque, ends_sleep, wake_for_event, wake_threads, ev_send_to_process,
}
use yatos.Event.Deliver.{sleeps, wake_for_event-awake}
use yatos.Event.Exit.{is_exit}

-- The threads of a list can be woken: they are not idle, and their masks are masks.
abbrev pub AllWakeable : (ℕ → EventQueue) → ℕ → List ℕ → Type 0
AllWakeable evques idle [] = Unit {0}
AllWakeable evques idle (t ∷ ts) =
    IsMask (evques t).masks × ((t == idle) ≡ false) × AllWakeable evques idle ts

-- The system of a thread that ends: it is valid, and the current thread is in its last state.
pub record IsEnding (s : Sys) : Type 0 where
  pub valid : IsValid s
  pub dead : is_exit (s.threads s.current).status ≡ true

-- Waking threads keeps it.
pub record Kept (s s' : Sys) : Type 0 where
  pub ending : IsEnding s'
  pub current : s'.current ≡ s.current
  pub idle : s'.idle ≡ s.idle

dead_awake : (st : ThrState) → is_exit st ≡ true → thr_in_wait st ≡ false
dead_awake exit e = refl
dead_awake _ e = absurd (ground (arith, e))

wake_for_event-Keeps :
    (w : EvSys) (t id : ℕ)
    → IsMask (w.evques t).masks
    → (t == w.sys.idle) ≡ false
    → id < 128
    → IsEnding w.sys
    → (s : Sys) × (wake_for_event w t id ≡ done (record w { sys = s })) × Kept w.sys s
unfolding wake_for_event
wake_for_event-Keeps w t id m busy small k =
    let st = (w.sys.threads t).status in
    elim (Bool-cases (not (has (w.evques t).masks id) && ends_sleep st id)) [
      | inr e ↦ (
        w.sys,
        wake_for_event-awake w t id m small e,
        record { ending = k; current = refl; idle = refl },
      )
      | inl e ↦
          let asleep : thr_in_wait st ≡ true = sleeps st id (ground (arith, e)) in
          let can : can_wake st ≡ true = rw asleep refl in
          let apart : (t == w.sys.current) ≡ false = elim (Bool-cases (t == w.sys.current)) [
            | inl i ↦
                let it : t ≡ w.sys.current = ground arith in
                absurd (
                  ground (
                    arith,
                    sym asleep
                        ∙ ap (λ x. thr_in_wait (w.sys.threads x).status) it
                        ∙ dead_awake _ k.dead,
                  ))
            | inr i ↦ i
          ] in
          let other : (w.sys.current == t) ≡ false = ground (arith, apart) in
          (
            woken w.sys t,
            rw
                (
                  ev_mask_test_lem (w.evques t).masks id m small,
                  e,
                  sched_wakeup-woken w.sys t (k.valid.prio t) can,
                )
                refl,
            record {
              ending = record {
                valid = woken-IsValid w.sys t k.valid apart busy can;
                dead =
                    ap (λ c. is_exit ((woken w.sys t).threads c).status) (woken-current w.sys t)
                    ∙ ap is_exit (woken-status w.sys t w.sys.current)
                    ∙ ap
                        (λ b. is_exit (
                          if b && (thr_in_wait st || is_dormant st)
                          then ready
                          else (w.sys.threads w.sys.current).status))
                        other
                    ∙ k.dead;
              };
              current = woken-current w.sys t;
              idle = woken-idle w.sys t;
            },
          )
    ]

wake_threads-Keeps :
    (ts : List ℕ) (w : EvSys) (id : ℕ)
    → AllWakeable w.evques w.sys.idle ts
    → id < 128
    → IsEnding w.sys
    → (s : Sys) × (wake_threads w ts id ≡ done (record w { sys = s })) × Kept w.sys s
unfolding wake_threads
wake_threads-Keeps [] w id all small k =
    (w.sys, refl, record { ending = k; current = refl; idle = refl })
wake_threads-Keeps (t ∷ ts) w id (m, busy, all) small k =
    let (s, e, k1) = wake_for_event-Keeps w t id m busy small k in
    let w1 : EvSys = record w { sys = s } in
    let (s', e', k2) =
      wake_threads-Keeps ts w1 id (subst (λ i. AllWakeable w.evques i ts) (sym k1.idle) all) small
        k1.ending in
    (
      s',
      rw e e',
      record { ending = k2.ending; current = k2.current ∙ k1.current; idle = k2.idle ∙ k1.idle },
    )

-- An event sent to a process by a thread that ends.
pub ev_send_to_process-Keeps :
    (w : EvSys) (p : ℕ) (node : Evinfo)
    → IsConsistent (w.proc_evques p)
    → AllWakeable w.evques w.sys.idle (w.threads_of p)
    → node.no < 128
    → IsEnding w.sys
    → (s : Sys) × (q : EventQueue) × (ev_send_to_process w p node
        ≡ done (record (put_proc_evque w p q) { sys = s }))
      × Kept w.sys s
      × IsConsistent q
      × (q.que node.no ≡ (w.proc_evques p).que node.no ++ (node ∷ []))
      × ((j : ℕ) → (node.no == j) ≡ false → q.que j ≡ (w.proc_evques p).que j)
unfolding ev_send_to_process
ev_send_to_process-Keeps w p node c all small k =
    let (q, posted, c', mine, others, masks, now) =
      post_event-Posts (w.proc_evques p) node c small in
    let (s, e, k') =
      wake_threads-Keeps (w.threads_of p) (put_proc_evque w p q) node.no all small k in
    (s, q, rw (posted, e) refl, k', c', mine, others)
