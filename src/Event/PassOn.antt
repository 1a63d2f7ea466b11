-- ===== src/Event/PassOn.antt =====
-- event/async-event.c: the events of a thread that ends go to its process.
use mathlib.Core.Path.{subst}
use yatos.Prelude.{
  ℕ, ◌<◌, ◌≡◌, refl, sym, ap, ◌∙◌, inl, inr, arith, Bool, true, false, ◌||◌, ◌==◌, if◌then◌else◌,
  Bool-cases, List, [], ◌∷◌, ◌++◌, append_nil, append_one, done,
}
use yatos.Bits.{test_bit}
use yatos.Event.Deliverable.{IsMask}
use yatos.Event.Queue.{Evinfo, EventQueue, set_que}
use yatos.Event.Dequeue.{IsConsistent, at_same, elsewhere}
use yatos.Event.Send.{EvSys, put_evque, put_proc_evque}
use yatos.Event.Deliver.{put_evque-here}
use yatos.Event.Exit.{thread_specific, is_dropped, pass_on}
use yatos.Event.Wakeable.{AllWakeable, IsEnding, Kept, ev_send_to_process-Keeps}

-- the nodes that are not freed, where `master` says whether the thread is the master of its process
abbrev pub passed : Bool → List Evinfo → List Evinfo
passed master [] = []
passed master (n ∷ ns) =
    let rest = passed master ns in
    if master || test_bit n.flags thread_specific then rest else n ∷ rest

abbrev pub is_master : EvSys → ℕ → Bool
is_master w cur = cur == w.master_of (w.proc_of cur)

-- The nodes of a queue are of its event.
abbrev pub AllOf : ℕ → List Evinfo → Type 0
AllOf id [] = Unit {0}
AllOf id (n ∷ ns) = (n.no ≡ id) × AllOf id ns

-- What passing the nodes of an event on relies on,
pub record CanPass (w : EvSys) (cur id : ℕ) (nodes : List Evinfo) : Type 0 where
  pub ending : IsEnding w.sys
  pub here : (w.evques cur).que id ≡ nodes
  pub numbers : AllOf id nodes
  pub wakeable : AllWakeable w.evques w.sys.idle (w.threads_of (w.proc_of cur))
  pub consistent : IsConsistent (w.proc_evques (w.proc_of cur))

-- and what it does.
pub record Passes (w w' : EvSys) (cur id : ℕ) (nodes : List Evinfo) : Type 0 where
  pub kept : Kept w.sys w'.sys
  pub proc_of : w'.proc_of ≡ w.proc_of
  pub threads_of : w'.threads_of ≡ w.threads_of
  pub master_of : w'.master_of ≡ w.master_of
  pub masks : (t : ℕ) → (w'.evques t).masks ≡ (w.evques t).masks
  pub events : (w'.evques cur).events ≡ (w.evques cur).events
  pub emptied : (w'.evques cur).que id ≡ []
  pub others : (j : ℕ) → (id == j) ≡ false → (w'.evques cur).que j ≡ (w.evques cur).que j
  pub consistent : IsConsistent (w'.proc_evques (w.proc_of cur))
  pub added :
      (w'.proc_evques (w.proc_of cur)).que id
      ≡ (w.proc_evques (w.proc_of cur)).que id ++ passed (is_master w cur) nodes
  pub proc_others :
      (j : ℕ)
      → (id == j) ≡ false
      → (w'.proc_evques (w.proc_of cur)).que j ≡ (w.proc_evques (w.proc_of cur)).que j

pub AllWakeable-same :
    (e e' : ℕ → EventQueue) (idle : ℕ) (ts : List ℕ)
    → ((t : ℕ) → (e' t).masks ≡ (e t).masks)
    → AllWakeable e idle ts
    → AllWakeable e' idle ts
AllWakeable-same e e' idle [] same all = tt
AllWakeable-same e e' idle (t ∷ ts) same (m, busy, all) =
    (subst IsMask (sym (same t)) m, busy, AllWakeable-same e e' idle ts same all)

-- the state with the first node off its queue
abbrev unlinked : EvSys → ℕ → List Evinfo → EvSys
unlinked w id nodes =
    put_evque w w.sys.current
      (record (w.evques w.sys.current) { que = set_que (w.evques w.sys.current).que id nodes })

unlinked-masks :
    (w : EvSys) (id : ℕ) (nodes : List Evinfo) (t : ℕ)
    → ((unlinked w id nodes).evques t).masks ≡ (w.evques t).masks
unlinked-masks w id nodes t = elim (Bool-cases (t == w.sys.current)) [
  | inl e ↦ let it : t ≡ w.sys.current = ground arith in rw (e, it) refl
  | inr e ↦ rw e refl
]

put_proc_evque-here :
    (w : EvSys) (p : ℕ) (q : EventQueue) → (put_proc_evque w p q).proc_evques p ≡ q
put_proc_evque-here w p q = let same : (p == p) ≡ true = ground arith in rw same refl

pub pass_on-Passes :
    (nodes : List Evinfo) (w : EvSys) (id : ℕ)
    → id < 128
    → CanPass w w.sys.current id nodes
    → (w' : EvSys) × (pass_on w id nodes ≡ done w') × Passes w w' w.sys.current id nodes
unfolding pass_on
pass_on-Passes [] w id small k = (
  w,
  refl,
  record {
    kept = record { ending = k.ending; current = refl; idle = refl };
    proc_of = refl;
    threads_of = refl;
    master_of = refl;
    masks = λ t. refl;
    events = refl;
    emptied = k.here;
    others = λ j h. refl;
    consistent = k.consistent;
    added = sym (append_nil _);
    proc_others = λ j h. refl;
  },
)
pass_on-Passes (n ∷ ns) w id small k =
    let cur = w.sys.current in
    let w1 = unlinked w id ns in
    let at : w1.evques cur ≡ record (w.evques cur) { que = set_que (w.evques cur).que id ns } =
      put_evque-here w cur _ in
    let here1 : (w1.evques cur).que id ≡ ns =
      ap (λ x. x.que id) at ∙ at_same (w.evques cur).que id ns in
    let all1 =
      AllWakeable-same w.evques w1.evques w.sys.idle _ (unlinked-masks w id ns) k.wakeable in
    elim (Bool-cases (is_dropped w n)) [
      | inl d ↦
          let (w', e, r) = pass_on-Passes ns w1 id small (record {
            ending = k.ending;
            here = here1;
            numbers = k.numbers.1;
            wakeable = all1;
            consistent = k.consistent;
          }) in
          (
            w',
            rw d e,
            record {
              kept = r.kept;
              proc_of = r.proc_of;
              threads_of = r.threads_of;
              master_of = r.master_of;
              masks = λ t. r.masks t ∙ unlinked-masks w id ns t;
              events = r.events ∙ ap (λ x. x.events) at;
              emptied = r.emptied;
              others = λ j h.
                  r.others j h ∙ ap (λ x. x.que j) at ∙ elsewhere (w.evques cur).que id j ns h;
              consistent = r.consistent;
              added = r.added ∙ rw d refl;
              proc_others = r.proc_others;
            },
          )
      | inr d ↦
          let (s, q, sent, kept, ok, mine, rest) =
            ev_send_to_process-Keeps w1 (w.proc_of cur) n k.consistent all1
              (omega (arith, k.numbers.0)) k.ending in
          let w2 : EvSys = record (put_proc_evque w1 (w.proc_of cur) q) { sys = s } in
          let proc_at : w2.proc_evques (w.proc_of cur) ≡ q =
            put_proc_evque-here w1 (w.proc_of cur) q in
          let (w', e, r0) = pass_on-Passes ns w2 id small (
            subst (λ c. CanPass w2 c id ns) (sym kept.current)
              (record {
                ending = kept.ending;
                here = here1;
                numbers = k.numbers.1;
                wakeable =
                    subst (λ i. AllWakeable w1.evques i (w.threads_of (w.proc_of cur)))
                      (sym kept.idle) all1;
                consistent = subst IsConsistent (sym proc_at) ok;
              })) in
          let r : Passes w2 w' cur id ns = subst (λ c. Passes w2 w' c id ns) kept.current r0 in
          let this : q.que id ≡ (w.proc_evques (w.proc_of cur)).que id ++ (n ∷ []) =
            subst (λ i. q.que i ≡ (w.proc_evques (w.proc_of cur)).que i ++ (n ∷ [])) k.numbers.0
              mine in
          (
            w',
            rw (d, sent) e,
            record {
              kept = record {
                ending = r.kept.ending;
                current = r.kept.current ∙ kept.current;
                idle = r.kept.idle ∙ kept.idle;
              };
              proc_of = r.proc_of;
              threads_of = r.threads_of;
              master_of = r.master_of;
              masks = λ t. r.masks t ∙ unlinked-masks w id ns t;
              events = r.events ∙ ap (λ x. x.events) at;
              emptied = r.emptied;
              others = λ j h.
                  r.others j h ∙ ap (λ x. x.que j) at ∙ elsewhere (w.evques cur).que id j ns h;
              consistent = r.consistent;
              added =
                  r.added
                  ∙ ap (λ l. l ++ passed (is_master w cur) ns) (ap (λ x. x.que id) proc_at ∙ this)
                  ∙ append_one ((w.proc_evques (w.proc_of cur)).que id) n
                      (passed (is_master w cur) ns)
                  ∙ rw d refl;
              proc_others = λ j h.
                  r.proc_others j h
                  ∙ ap (λ x. x.que j) proc_at
                  ∙ rest j (ground (arith, k.numbers.0, h));
            },
          )
    ]
