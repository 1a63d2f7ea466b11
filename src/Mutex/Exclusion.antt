-- ===== src/Mutex/Exclusion.antt =====
-- kern/mutex.c: any interleaving of threads that lock, wait, unlock and destroy.
use yatos.Prelude.{
  ℕ, ◌+◌, ◌-◌, ◌%◌, ◌^◌, ◌≤◌, ◌<◌, ◌≡◌, refl, ap, ◌∙◌, inl, inr, arith, Bool, true, false, ◌==◌,
  if◌then◌else◌, Bool-cases, none, some, done,
}
use yatos.Mutex.{Mutex, mutex_destroy, is_owner, lock_round, mutex_unlock}
use yatos.Mutex.Rounds.{lock_round-cases, mutex_unlock-cases, owner_unique, not_owner, refused_busy}

-- The mutex, how many of its locks each thread has been granted and not given back, and which threads
-- wait for it.
pub record State : Type 0 where
  pub mtx : Mutex
  pub held : ℕ → ℕ
  pub waits : ℕ → Bool

abbrev pub put {ℓ} : {A : Type ℓ} → (ℕ → A) → ℕ → A → ℕ → A
put f t v u = if u == t then v else f u

-- What one thread can do next, and how it leaves the state. A thread that waits does nothing until it is
-- woken, by the mutex or by an event, after which it tries again. A mutex is destroyed only while nobody has it.
pub data Step (s u : State) : Type 0 where
  acquires :
      (t : ℕ) (m : Mutex)
      → s.waits t ≡ false
      → s.mtx.counter + 1 < 2 ^ 64
      → lock_round s.mtx t ≡ some m
      → u ≡ record { mtx = m; held = put s.held t (s.held t + 1); waits = s.waits }
      → Step s u
  blocks :
      (t : ℕ)
      → s.waits t ≡ false
      → lock_round s.mtx t ≡ none
      → u ≡ record s { waits = put s.waits t true }
      → Step s u
  releases :
      (t : ℕ) (wakes : Bool) (m : Mutex)
      → s.waits t ≡ false
      → mutex_unlock s.mtx t ≡ done (wakes, m)
      → u ≡ record {
        mtx = m;
        held = put s.held t (s.held t - 1);
        waits = λ v. if wakes then false else s.waits v;
      }
      → Step s u
  destroys :
      s.mtx.counter ≡ 0
      → u ≡ record { mtx = mutex_destroy s.mtx; held = s.held; waits = λ v. false }
      → Step s u
  interrupted : (t : ℕ) → s.waits t ≡ true → u ≡ record s { waits = put s.waits t false } → Step s u

pub data Reach (s : State) : State → Type 0 where
  here : Reach s s
  then_step : {t u : State} → Reach s t → Step t u → Reach s u

abbrev pub initial : Bool → State
initial recursive = record {
  mtx = record { counter = 0; owner = none; recursive = recursive };
  held = λ t. 0;
  waits = λ t. false;
}

-- The counter is what the owner holds, nobody else holds anything; only a recursive mutex is locked more
-- than once; threads wait only while somebody holds the mutex.
pub record IsConsistent (s : State) : Type 0 where
  pub small : s.mtx.counter < 2 ^ 64
  pub free : s.mtx.counter ≡ 0 → s.mtx.owner ≡ none
  pub owned : 0 < s.mtx.counter → (o : ℕ) × (s.mtx.owner ≡ some o)
  pub holds : (t : ℕ) → s.held t ≡ (if is_owner s.mtx.owner t then s.mtx.counter else 0)
  pub once : s.mtx.recursive ≡ false → s.mtx.counter ≤ 1
  pub waiting : (t : ℕ) → s.waits t ≡ true → 0 < s.mtx.counter

initial-IsConsistent : (recursive : Bool) → IsConsistent (initial recursive)
initial-IsConsistent recursive = record {
  small = omega arith;
  free = λ e. refl;
  owned = λ h. absurd (omega arith);
  holds = λ t. refl;
  once = λ e. omega arith;
  waiting = λ t e. cc;
}

-- Every step keeps it.
Step-IsConsistent : (s u : State) → Step s u → IsConsistent s → IsConsistent u
unfolding mutex_destroy
Step-IsConsistent s u (acquires t m awake room got e) k = elim (lock_round-cases s.mtx t m got) [
  | inl (none_yet, em) ↦
      rw (e, em)
        (record {
          small = omega arith;
          free = λ z. absurd (omega arith);
          owned = λ h. (t, refl);
          holds = λ v. elim (Bool-cases (v == t)) [
            | inl i ↦
                let it : v ≡ t = ground arith in
                let self : (t == t) ≡ true = ground arith in
                rw (i, it, self, k.holds t, k.free none_yet) (omega arith)
            | inr i ↦
                let other : (t == v) ≡ false = ground arith in
                rw (i, other, k.holds v, k.free none_yet) refl
          ];
          once = λ r. omega arith;
          waiting = λ v w. omega arith;
        })
  | inr (busy, mine, rec, em) ↦
      let next : (s.mtx.counter + 1) % 2 ^ 64 ≡ s.mtx.counter + 1 = omega arith in
      rw (e, em, next)
        (record {
          small = room;
          free = λ z. absurd (omega arith);
          owned = λ h. k.owned busy;
          holds = λ v. elim (Bool-cases (v == t)) [
            | inl i ↦ let it : v ≡ t = ground arith in rw (i, it, k.holds t, mine) refl
            | inr i ↦ rw (i, k.holds v, not_owner s.mtx.owner v t i mine) refl
          ];
          once = λ r. cc;
          waiting = λ v w. omega arith;
        })
]
Step-IsConsistent s u (blocks t awake refused e) k = rw e (record {
  small = k.small;
  free = k.free;
  owned = k.owned;
  holds = k.holds;
  once = k.once;
  waiting = λ v w. refused_busy s.mtx t refused;
})
Step-IsConsistent s u (releases t wakes m awake got e) k =
    let (busy, mine, rest) = mutex_unlock-cases s.mtx t wakes m got in
    elim rest [
      | inl (one, all, em) ↦
          rw (e, em, all)
            (record {
              small = omega arith;
              free = λ z. refl;
              owned = λ h. absurd (omega arith);
              holds = λ v. elim (Bool-cases (v == t)) [
                | inl i ↦ rw (i, k.holds t, mine) (omega (arith, one))
                | inr i ↦ rw (i, k.holds v, not_owner s.mtx.owner v t i mine) refl
              ];
              once = λ r. omega arith;
              waiting = λ v w. cc;
            })
      | inr (many, none_woken, em) ↦
          rw (e, em, none_woken)
            (record {
              small = omega (arith, k.small);
              free = λ z. absurd (omega (arith, many));
              owned = λ h. k.owned busy;
              holds = λ v. elim (Bool-cases (v == t)) [
                | inl i ↦ let it : v ≡ t = ground arith in rw (i, it, k.holds t, mine) refl
                | inr i ↦ rw (i, k.holds v, not_owner s.mtx.owner v t i mine) refl
              ];
              once = λ r. omega (arith, k.once r);
              waiting = λ v w. omega (arith, many);
            })
    ]
Step-IsConsistent s u (destroys none_yet e) k = rw e (record {
  small = omega arith;
  free = λ z. refl;
  owned = λ h. absurd (omega arith);
  holds = λ v. k.holds v ∙ rw (k.free none_yet) refl;
  once = λ r. omega arith;
  waiting = λ v w. cc;
})
Step-IsConsistent s u (interrupted t asleep e) k = rw e (record {
  small = k.small;
  free = k.free;
  owned = k.owned;
  holds = k.holds;
  once = k.once;
  waiting = λ v w. k.waiting v (ground (arith, w));
})

Reach-IsConsistent : (s u : State) → IsConsistent s → Reach s u → IsConsistent u
Reach-IsConsistent s u k here = k
Reach-IsConsistent s u k (then_step {t} r st) =
    Step-IsConsistent t u st (Reach-IsConsistent s t k r)

-- Whatever the threads do, in any order, as long as no mutex is locked 2^64 times over and one is destroyed
-- only while nobody has it: at most one of them has the mutex, the counter is the number of
-- its locks, an exclusive mutex is locked at most once, and while threads wait somebody has the mutex, so
-- that nobody is left asleep at a free mutex.
pub mutual_exclusion :
    (recursive : Bool) (s : State)
    → Reach (initial recursive) s
    → ((t u : ℕ) → 0 < s.held t → 0 < s.held u → t ≡ u)
      × ((t : ℕ) → 0 < s.held t → s.held t ≡ s.mtx.counter)
      × (s.mtx.recursive ≡ false → (t : ℕ) → s.held t ≤ 1)
      × ((t : ℕ) → s.waits t ≡ true → (o : ℕ) × (0 < s.held o))
mutual_exclusion recursive s r =
    let k = Reach-IsConsistent (initial recursive) s (initial-IsConsistent recursive) r in
    (
      λ t u h g. owner_unique s.mtx.owner t u (has_it s k t h) (has_it s k u g),
      λ t h. k.holds t ∙ rw (has_it s k t h) refl,
      λ e t. at_most_one s k e t,
      λ t w.
          let busy = k.waiting t w in
          let (o, e) = k.owned busy in
          let self : is_owner s.mtx.owner o ≡ true = rw e (ground arith) in
          (o, omega (arith, k.holds o ∙ (ap (λ b. if b then s.mtx.counter else 0) self), busy)),
    )
  where
    has_it : (x : State) → IsConsistent x → (t : ℕ) → 0 < x.held t → is_owner x.mtx.owner t ≡ true
    has_it x k t h = elim (Bool-cases (is_owner x.mtx.owner t)) [
      | inl e ↦ e
      | inr e ↦ absurd (ground (arith, k.holds t, e))
    ]

    at_most_one : (x : State) → IsConsistent x → x.mtx.recursive ≡ false → (t : ℕ) → x.held t ≤ 1
    at_most_one x k e t = ground (arith, k.holds t, k.once e)
