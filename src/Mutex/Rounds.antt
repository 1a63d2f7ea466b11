-- ===== src/Mutex/Rounds.antt =====
-- kern/mutex.c: the branches of a round of mutex_lock and of mutex_unlock.
use yatos.Prelude.{
  ℕ, ◌+◌, ◌-◌, ◌%◌, ◌^◌, ◌<◌, ◌≡◌, refl, ◌⊎◌, sym, ap, ◌∙◌, inl, inr, arith, Bool, true, false,
  ◌&&◌, ltb, ◌==◌, Bool-cases, Option, none, some, Exec, done, stop,
}
use yatos.Mutex.{Mutex, is_owner, lock_round, mutex_unlock}

pub lock_round-cases :
    (x : Mutex) (t : ℕ) (m : Mutex)
    → lock_round x t ≡ some m
    → ((x.counter ≡ 0) × (m ≡ record x { counter = 1; owner = some t }))
      ⊎ ((0 < x.counter)
          × (is_owner x.owner t ≡ true)
          × (x.recursive ≡ true)
          × (m ≡ record x { counter = (x.counter + 1) % 2 ^ 64 }))
unfolding lock_round
lock_round-cases x t m e = elim (Bool-cases (x.counter == 0)) [
  | inl free ↦
      let none_yet : x.counter ≡ 0 = ground arith in
      let one : x.counter + 1 ≡ 1 = omega arith in
      let got : lock_round x t ≡ some (record x { counter = 1; owner = some t }) =
        rw (free, one) refl in
      inl (none_yet, mutex_of_some (sym e ∙ got))
  | inr busy ↦ elim (Bool-cases (is_owner x.owner t && x.recursive)) [
    | inl mine ↦
        let got : lock_round x t ≡ some (record x { counter = (x.counter + 1) % 2 ^ 64 }) =
          rw (busy, mine) refl in
        inr (ground arith, ground (arith, mine), ground (arith, mine), mutex_of_some (sym e ∙ got))
    | inr other ↦
        let refused : lock_round x t ≡ none = rw (busy, other) refl in
        absurd (never (sym refused ∙ e))
  ]
]
  where
    mutex_of_some : {a b : Mutex} → some a ≡ some b → a ≡ b
    mutex_of_some h = cc

    never : {a : Mutex} → ◌≡◌ {A = Option Mutex} none (some a) → ⊥
    never h = cc

pub mutex_unlock-cases :
    (x : Mutex) (t : ℕ) (wakes : Bool) (m : Mutex)
    → mutex_unlock x t ≡ done (wakes, m)
    → (0 < x.counter)
      × (is_owner x.owner t ≡ true)
      × (((x.counter ≡ 1) × (wakes ≡ true) × (m ≡ record x { counter = 0; owner = none }))
          ⊎ ((1 < x.counter) × (wakes ≡ false) × (m ≡ record x { counter = x.counter - 1 })))
unfolding mutex_unlock
mutex_unlock-cases x t wakes m e = elim (Bool-cases (ltb 0 x.counter)) [
  | inr none_yet ↦
      let fails : mutex_unlock x t ≡ stop = rw none_yet refl in absurd (never (sym fails ∙ e))
  | inl some_yet ↦ elim (Bool-cases (is_owner x.owner t)) [
    | inr other ↦
        let fails : mutex_unlock x t ≡ stop = rw (some_yet, other) refl in
        absurd (never (sym fails ∙ e))
    | inl mine ↦ (
      ground arith,
      mine,
      elim (Bool-cases (x.counter - 1 == 0)) [
        | inl last ↦
            let got : mutex_unlock x t ≡ done (true, record x { counter = 0; owner = none }) =
              rw (some_yet, mine, last) refl in
            let same = pair_of_done (sym e ∙ got) in
            inl (ground arith, ap (λ r. r.0) same, ap (λ r. r.1) same)
        | inr more ↦
            let got : mutex_unlock x t ≡ done (false, record x { counter = x.counter - 1 }) =
              rw (some_yet, mine, more) refl in
            let same = pair_of_done (sym e ∙ got) in
            inr (ground arith, ap (λ r. r.0) same, ap (λ r. r.1) same)
      ],
    )
  ]
]
  where
    pair_of_done : {a b : Bool × Mutex} → done a ≡ done b → a ≡ b
    pair_of_done h = cc

    never : {a : Bool × Mutex} → ◌≡◌ {A = Exec (Bool × Mutex)} stop (done a) → ⊥
    never h = cc

pub owner_unique : (o : Option ℕ) (t u : ℕ) → is_owner o t ≡ true → is_owner o u ≡ true → t ≡ u
owner_unique none t u h k = cc
owner_unique (some o) t u h k = ground arith

pub not_owner :
    (o : Option ℕ) (v t : ℕ) → (v == t) ≡ false → is_owner o t ≡ true → is_owner o v ≡ false
not_owner o v t i mine = elim (Bool-cases (is_owner o v)) [
  | inl h ↦ let it : v ≡ t = owner_unique o v t h mine in absurd (ground arith)
  | inr h ↦ h
]

-- A thread has to wait only for a mutex that somebody holds.
pub refused_busy : (x : Mutex) (t : ℕ) → lock_round x t ≡ none → 0 < x.counter
unfolding lock_round
refused_busy x t e = elim (Bool-cases (x.counter == 0)) [
  | inl free ↦
      let got : lock_round x t ≡ some (record x { counter = x.counter + 1; owner = some t }) =
        rw free refl in
      absurd (never (sym e ∙ got))
  | inr busy ↦ ground arith
]
  where
    never : {a : Mutex} → ◌≡◌ {A = Option Mutex} none (some a) → ⊥
    never h = cc
