-- ===== src/Sync/Wake.antt =====
-- thr/thread-sync.c: what sync_wake does to the waiting threads and their blocks.
use yatos.Prelude.{
  ℕ, ◌≡◌, refl, ap, ◌∙◌, inl, inr, arith, Bool, true, false, ◌&&◌, ◌||◌, ◌==◌, if◌then◌else◌,
  Bool-cases, List, [], ◌∷◌, done,
}
use yatos.Thread.State.{ThrState, ready, is_dormant, thr_in_wait, ti_dispatch_disabled}
use yatos.Thread.Sched.{Sys, can_wake}
use yatos.Thread.Queues.{IsValid}
use yatos.Thread.Wakeup.{
  woken, sched_wakeup-woken, woken-current, woken-idle, woken-status, woken-disabled, woken-IsValid,
}
use yatos.Sync.{
  SyncPol, SyncReason, SyncBlock, World, set_que, is_one, listed, wake_block, wake_blocks,
  wake_from, sync_wake,
}

abbrev pub sleeps : ThrState → Bool
sleeps st = thr_in_wait st || is_dormant st

-- a thread that a wake-up may be about: not the current one, not the idle one, in a state that can be left
abbrev pub CanBeWoken : Sys → ℕ → Type 0
CanBeWoken s t =
    ((t == s.current) ≡ false) × ((t == s.idle) ≡ false) × (can_wake (s.threads t).status ≡ true)

abbrev pub AllCanBeWoken : Sys → (ℕ → SyncBlock) → List ℕ → Type 0
AllCanBeWoken s blocks [] = Unit {0}
AllCanBeWoken s blocks (b ∷ bs) = CanBeWoken s (blocks b).thr × AllCanBeWoken s blocks bs

woken-CanBeWoken : (s : Sys) (t u : ℕ) → CanBeWoken s u → CanBeWoken (woken s t) u
woken-CanBeWoken s t u (a, b, c) = (
  ap (λ x. u == x) (woken-current s t) ∙ a,
  ap (λ x. u == x) (woken-idle s t) ∙ b,
  ap can_wake (woken-status s t u) ∙ either (u == t && sleeps (s.threads t).status),
)
  where
    either : (e : Bool) → can_wake (if e then ready else (s.threads u).status) ≡ true
    either true = refl
    either false = c

woken-AllCanBeWoken :
    (s : Sys) (t : ℕ) (blocks : ℕ → SyncBlock) (v : SyncBlock) (b : ℕ) (bs : List ℕ)
    → v.thr ≡ (blocks b).thr
    → AllCanBeWoken s blocks bs
    → AllCanBeWoken (woken s t) (λ c. if c == b then v else blocks c) bs
woken-AllCanBeWoken s t blocks v b [] same k = tt
woken-AllCanBeWoken s t blocks v b (c ∷ cs) same (k, ks) = (
  elim (Bool-cases (c == b)) [
    | inl e ↦
        let it : c ≡ b = ground arith in rw (e, same, ← it) (woken-CanBeWoken s t (blocks c).thr k)
    | inr e ↦ rw e (woken-CanBeWoken s t (blocks c).thr k)
  ],
  woken-AllCanBeWoken s t blocks v b cs same ks,
)

-- the world after one round of the loop
abbrev pub woken_world : World → ℕ → SyncReason → World
woken_world w b reason = record w {
  sys = woken w.sys (w.blocks b).thr;
  blocks = λ c. if c == b then record { thr = (w.blocks b).thr; reason = reason } else w.blocks c;
}

wake_block-woken :
    (w : World) (b : ℕ) (reason : SyncReason)
    → IsValid w.sys
    → CanBeWoken w.sys (w.blocks b).thr
    → wake_block w b reason ≡ done (woken_world w b reason)
unfolding wake_block
wake_block-woken w b reason v (_, _, can) =
    let same : (b == b) ≡ true = ground arith in
    rw (same, sched_wakeup-woken w.sys (w.blocks b).thr (v.prio (w.blocks b).thr) can) refl

-- whether a thread is the one of a block of a list
abbrev pub has_block : (ℕ → SyncBlock) → List ℕ → ℕ → Bool
has_block blocks [] t = false
has_block blocks (b ∷ bs) t = (t == (blocks b).thr) || has_block blocks bs t

-- The threads of the blocks bs are woken for a reason: their blocks have the reason, those that slept are
-- ready, and every other thread, block and the choice of the running thread are as before.
pub record Woken (w : World) (bs : List ℕ) (reason : SyncReason) (w' : World) : Type 0 where
  pub valid : IsValid w'.sys
  pub current : w'.sys.current ≡ w.sys.current
  pub idle : w'.sys.idle ≡ w.sys.idle
  pub disabled :
      (t : ℕ)
      → ti_dispatch_disabled (w'.sys.threads t).ti ≡ ti_dispatch_disabled (w.sys.threads t).ti
  pub threads : (b : ℕ) → (w'.blocks b).thr ≡ (w.blocks b).thr
  pub reasons :
      (b : ℕ) → (w'.blocks b).reason ≡ (if listed b bs then reason else (w.blocks b).reason)
  pub statuses :
      (t : ℕ)
      → (w'.sys.threads t).status ≡ (
          if has_block w.blocks bs t && sleeps (w.sys.threads t).status
          then ready
          else (w.sys.threads t).status)

has_block-same :
    (f g : ℕ → SyncBlock) (bs : List ℕ) (t : ℕ)
    → ((b : ℕ) → (f b).thr ≡ (g b).thr)
    → has_block f bs t ≡ has_block g bs t
has_block-same f g [] t same = refl
has_block-same f g (b ∷ bs) t same = rw (same b, has_block-same f g bs t same) refl

module _ (w : World) (b : ℕ) (reason : SyncReason) where
  thread_kept : (c : ℕ) → ((woken_world w b reason).blocks c).thr ≡ (w.blocks c).thr
  thread_kept c = elim (Bool-cases (c == b)) [
    | inl e ↦ let it : c ≡ b = ground arith in rw (e, it) refl
    | inr e ↦ rw e refl
  ]

  -- one block,
  Woken-one :
      IsValid w.sys
      → CanBeWoken w.sys (w.blocks b).thr
      → Woken w (b ∷ []) reason (woken_world w b reason)
  Woken-one v (apart, busy, can) = record {
    valid = woken-IsValid w.sys (w.blocks b).thr v apart busy can;
    current = woken-current w.sys (w.blocks b).thr;
    idle = woken-idle w.sys (w.blocks b).thr;
    disabled = woken-disabled w.sys (w.blocks b).thr;
    threads = thread_kept;
    reasons = λ c. elim (Bool-cases (c == b)) [ inl e ↦ rw e refl | inr e ↦ rw e refl ];
    statuses = λ t.
        woken-status w.sys (w.blocks b).thr t ∙ (elim (Bool-cases (t == (w.blocks b).thr)) [
          | inl e ↦ let it : t ≡ (w.blocks b).thr = ground arith in rw (e, it) refl
          | inr e ↦ rw e refl
        ]);
  }

  -- and the others after it.
  Woken-cons :
      (bs : List ℕ) (w' : World)
      → Woken (woken_world w b reason) bs reason w'
      → Woken w (b ∷ bs) reason w'
  Woken-cons bs w' k = record {
    valid = k.valid;
    current = k.current ∙ woken-current w.sys (w.blocks b).thr;
    idle = k.idle ∙ woken-idle w.sys (w.blocks b).thr;
    disabled = λ t. k.disabled t ∙ woken-disabled w.sys (w.blocks b).thr t;
    threads = λ c. k.threads c ∙ thread_kept c;
    reasons = λ c. k.reasons c ∙ (elim (Bool-cases (c == b)) [
      | inl e ↦ rw e (elim (Bool-cases (listed c bs)) [ inl l ↦ rw l refl | inr l ↦ rw l refl ])
      | inr e ↦ rw e refl
    ]);
    statuses = λ t.
        k.statuses t
        ∙ rw
            (
              has_block-same (woken_world w b reason).blocks w.blocks bs t thread_kept,
              woken-status w.sys (w.blocks b).thr t,
            )
            (joined t);
  }
    where
      joined :
          (t : ℕ)
          → (if has_block w.blocks bs t
                && sleeps (
                    if t == (w.blocks b).thr && sleeps (w.sys.threads (w.blocks b).thr).status
                    then ready
                    else (w.sys.threads t).status)
              then ready
              else (if t == (w.blocks b).thr && sleeps (w.sys.threads (w.blocks b).thr).status
                  then ready
                  else (w.sys.threads t).status))
            ≡ (if ((t == (w.blocks b).thr) || has_block w.blocks bs t)
                  && sleeps (w.sys.threads t).status
                then ready
                else (w.sys.threads t).status)
      joined t = elim (Bool-cases (t == (w.blocks b).thr)) [
        | inl e ↦
            let it : t ≡ (w.blocks b).thr = ground arith in
            rw (e, it)
              (elim (Bool-cases (sleeps (w.sys.threads (w.blocks b).thr).status)) [
                | inl s ↦ rw s (elim (Bool-cases (has_block w.blocks bs (w.blocks b).thr)) [
                  | inl h ↦ rw h refl
                  | inr h ↦ rw h refl
                ])
                | inr s ↦ rw s (elim (Bool-cases (has_block w.blocks bs (w.blocks b).thr)) [
                  | inl h ↦ rw (h, s) refl
                  | inr h ↦ rw h refl
                ])
              ])
        | inr e ↦ rw e refl
      ]

-- the empty set of blocks
Woken-none :
    (w : World) (reason : SyncReason) (l : List ℕ) → IsValid w.sys → Woken w [] reason (set_que w l)
Woken-none w reason l v = record {
  valid = v;
  current = refl;
  idle = refl;
  disabled = λ t. refl;
  threads = λ b. refl;
  reasons = λ b. refl;
  statuses = λ t. refl;
}

of_set_que :
    (w : World) (l bs : List ℕ) (reason : SyncReason) (w' : World)
    → Woken (set_que w l) bs reason w'
    → Woken w bs reason w'
of_set_que w l bs reason w' k = record {
  valid = k.valid;
  current = k.current;
  idle = k.idle;
  disabled = k.disabled;
  threads = k.threads;
  reasons = k.reasons;
  statuses = k.statuses;
}

wake_blocks-all :
    (w : World) (bs : List ℕ) (reason : SyncReason)
    → IsValid w.sys
    → is_one w.obj.policy ≡ false
    → AllCanBeWoken w.sys w.blocks bs
    → (w' : World) × (wake_blocks w bs reason ≡ done w')
      × Woken w bs reason w'
      × (w'.obj ≡ record (w.obj) { que = [] })
unfolding wake_blocks
wake_blocks-all w [] reason v all k = (set_que w [], refl, Woken-none w reason [] v, refl)
wake_blocks-all w (b ∷ bs) reason v all (k, ks) =
    let w0 = set_que w bs in
    let w1 = woken_world w0 b reason in
    let (w', e, r, o) =
      wake_blocks-all w1 bs reason (woken-IsValid w.sys (w.blocks b).thr v k.0 k.1 k.2) all (
        woken-AllCanBeWoken w.sys (w.blocks b).thr w.blocks
          (record { thr = (w.blocks b).thr; reason = reason }) b bs refl ks) in
    (
      w',
      rw (wake_block-woken w0 b reason v k, all) e,
      of_set_que w bs (b ∷ bs) reason w' (Woken-cons w0 b reason bs w' r),
      o,
    )

-- the blocks that the policy of the object lets a wake-up take from its queue
abbrev pub taken : SyncPol → List ℕ → List ℕ
taken pol [] = []
taken pol (b ∷ bs) = if is_one pol then b ∷ [] else b ∷ bs

abbrev pub left_over : SyncPol → List ℕ → List ℕ
left_over pol [] = []
left_over pol (b ∷ bs) = if is_one pol then bs else []

module _ (w : World) (reason : SyncReason) (v : IsValid w.sys)
    (off : ti_dispatch_disabled (w.sys.threads w.sys.current).ti ≡ true) where
  stays_off :
      (bs : List ℕ) (w' : World)
      → Woken w bs reason w'
      → ti_dispatch_disabled (w'.sys.threads w'.sys.current).ti ≡ true
  stays_off bs w' r =
      ap (λ t. ti_dispatch_disabled (w'.sys.threads t).ti) r.current
      ∙ r.disabled w.sys.current
      ∙ off

  wake_from-Wakes :
      (que : List ℕ)
      → w.obj.que ≡ que
      → AllCanBeWoken w.sys w.blocks que
      → (w' : World) × (wake_from w que reason ≡ done w')
        × Woken w (taken w.obj.policy que) reason w'
        × (w'.obj ≡ record (w.obj) { que = left_over w.obj.policy que })
  unfolding wake_from wake_blocks
  wake_from-Wakes [] e ks = (
    w,
    refl,
    of_set_que w [] [] reason w (Woken-none (set_que w []) reason w.obj.que v),
    ap (λ l. record (w.obj) { que = l }) e,
  )
  wake_from-Wakes (b ∷ bs) e ks = elim (Bool-cases (is_one w.obj.policy)) [
    | inl one ↦
        let w0 = set_que w bs in
        let w1 = woken_world w0 b reason in
        let r = of_set_que w bs (b ∷ []) reason w1 (Woken-one w0 b reason v ks.0) in
        (
          w1,
          rw (wake_block-woken w0 b reason v ks.0, one, stays_off (b ∷ []) w1 r) refl,
          rw one r,
          rw one refl,
        )
    | inr all ↦
        let (w', eq, r, o) = wake_blocks-all w (b ∷ bs) reason v all ks in
        (w', rw (eq, stays_off (b ∷ bs) w' r) refl, rw all r, rw all o)
  ]

  pub sync_wake-Wakes :
      AllCanBeWoken w.sys w.blocks w.obj.que
      → (w' : World) × (sync_wake w reason ≡ done w')
        × Woken w (taken w.obj.policy w.obj.que) reason w'
        × (w'.obj ≡ record (w.obj) { que = left_over w.obj.policy w.obj.que })
  unfolding sync_wake
  sync_wake-Wakes ks = wake_from-Wakes w.obj.que refl ks
