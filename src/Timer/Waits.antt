-- ===== src/Timer/Waits.antt =====
-- tim/timer.c: how long a wait is, how it begins and how it ends.
use yatos.Prelude.{
  ℕ, ◌+◌, ◌/◌, ◌%◌, ◌^◌, ◌≤◌, ◌<◌, ◌≡◌, refl, sym, ap, ◌∙◌, inl, inr, arith, Bool, true, false, not,
  leb, ltb, ◌==◌, if◌then◌else◌, Bool-cases, List, [], ◌∷◌, length, none, Option, some, Exec, done,
  stop,
}
use yatos.Sync.{SyncReason, wai_delivev, is_wait_reason, unlist}
use yatos.Timer.{
  ms_to_ticks, inserted, tim_invoke_callout, set_callout, init_timer_callout, TimedWait, is_nil,
  finish_wait_time_obj,
}
use yatos.Timer.Trees.{Callout, Tree, IsTree, AllAbove, IsSorted, has_key, put, drop_key}
use yatos.Timer.Fire.{due, not_due, tim_invoke_callout-fires}

has_key-put : (c : Callout) (cs : List Callout) → has_key c.expire (put c cs) ≡ true
has_key-put c [] = ground arith
has_key-put c (d ∷ ds) = elim (Bool-cases (ltb c.expire d.expire)) [
  | inl e ↦ rw e (ground arith)
  | inr e ↦ rw e (ground (arith, has_key-put c ds))
]

has_key-drop_key : (e : ℕ) (cs : List Callout) → IsSorted cs → has_key e (drop_key e cs) ≡ false
has_key-drop_key e [] s = refl
has_key-drop_key e (c ∷ cs) s = elim (Bool-cases (c.expire == e)) [
  | inl i ↦ let it : c.expire ≡ e = ground arith in rw i (above e c cs it s.0)
  | inr i ↦ rw (i, i) (has_key-drop_key e cs s.1)
]
  where
    none_above : (e : ℕ) (cs : List Callout) → AllAbove e cs → has_key e cs ≡ false
    none_above e [] h = refl
    none_above e (d ∷ ds) h = ground (arith, h.0, none_above e ds h.1)

    above :
        (e : ℕ) (c : Callout) (cs : List Callout)
        → c.expire ≡ e
        → AllAbove c.expire cs
        → has_key e cs ≡ false
    above e c cs it h = ap (λ x. has_key x cs) (sym it) ∙ none_above c.expire cs h

not_due-put :
    (cur : ℕ) (c : Callout) (cs : List Callout) → cur < c.expire → due cur (put c cs) ≡ due cur cs
not_due-put cur c [] h = ground arith
not_due-put cur c (d ∷ ds) h = elim (Bool-cases (ltb c.expire d.expire)) [
  | inl e ↦ let later : leb c.expire cur ≡ false = ground arith in rw (e, later) refl
  | inr e ↦ rw (e, not_due-put cur c ds h) refl
]

has_key-not_due :
    (cur e : ℕ) (cs : List Callout) → cur < e → has_key e (not_due cur cs) ≡ has_key e cs
has_key-not_due cur e [] h = refl
has_key-not_due cur e (c ∷ cs) h = elim (Bool-cases (leb c.expire cur)) [
  | inl now ↦
      let other : (c.expire == e) ≡ false = ground arith in
      rw (now, other) (has_key-not_due cur e cs h)
  | inr later ↦ rw (later, has_key-not_due cur e cs h) refl
]

module _ (T : Tree) (laws : IsTree T) (que : T.Carrier) (uptime outms private_inf : ℕ) where
  abbrev pub expire_of : ℕ
  expire_of = (ms_to_ticks outms + uptime) % 2 ^ 64

  abbrev pub callout_of : Callout
  callout_of = record { tmout = outms; expire = expire_of; data_of = private_inf }

  -- A call-out at a tick that has one stops the kernel;
  taken_stops :
      has_key expire_of (T.items que) ≡ true → set_callout T que uptime outms private_inf ≡ stop
  unfolding set_callout init_timer_callout
  taken_stops e = ap inserted (laws.insert_old que callout_of e)

  -- any other is put in its place.
  set_callout-put :
      (q : T.Carrier)
      → set_callout T que uptime outms private_inf ≡ done q
      → T.items q ≡ put callout_of (T.items que)
  unfolding set_callout init_timer_callout
  set_callout-put q e = elim (Bool-cases (has_key expire_of (T.items que))) [
    | inl t ↦ absurd (never q (sym (taken_stops t) ∙ e))
    | inr f ↦
        let (q', eq, k) = laws.insert_new que callout_of f in
        ap T.items (sym (same_done q' q (sym (ap inserted eq) ∙ e))) ∙ k
  ]
    where
      never : (q : T.Carrier) → ◌≡◌ {A = Exec T.Carrier} stop (done q) → ⊥
      never q h = cc

      same_done : (a b : T.Carrier) → ◌≡◌ {A = Exec T.Carrier} (done a) (done b) → a ≡ b
      same_done a b h = cc

  -- A wait that could be begun, with a time that does not reach the end of the tick counter, does not end
  -- early: with as many rounds as there are call-outs, the ticks up to the requested time, counted from the one at which it
  -- began, call what they would call without it, and leave it in the tree.
  pub not_early :
      uptime + outms / 10 + 1 < 2 ^ 64
      → (q : T.Carrier) → set_callout T que uptime outms private_inf ≡ done q
      → (cur fuel : ℕ) → cur ≤ uptime + outms / 10
      → length (T.items q) ≤ fuel
      → (r : T.Carrier) × (tim_invoke_callout T fuel q cur ≡ some (due cur (T.items que), r))
        × (has_key expire_of (T.items r) ≡ true)
  unfolding ms_to_ticks
  not_early room q e cur fuel early enough =
      let later : cur < expire_of = omega arith in
      let (r, eq, k) = tim_invoke_callout-fires T laws cur fuel q enough in
      let shape : T.items q ≡ put callout_of (T.items que) = set_callout-put q e in
      let same : due cur (T.items q) ≡ due cur (T.items que) =
        ap (due cur) shape ∙ not_due-put cur callout_of (T.items que) later in
      (
        r,
        eq ∙ ap (λ l. some (l, r)) same,
        ap (has_key expire_of) (k ∙ ap (not_due cur) shape)
            ∙ has_key-not_due cur expire_of (put callout_of (T.items que)) later
            ∙ has_key-put callout_of (T.items que),
      )

-- Two waits that begin at the same tick and whose times fall into the same 10 ms stop the kernel: the
-- second one finds its tick taken.
pub set_callout-taken :
    (T : Tree) (laws : IsTree T) (que : T.Carrier) (uptime outms outms' inf inf' : ℕ)
    (q : T.Carrier)
    → outms / 10 ≡ outms' / 10
    → set_callout T que uptime outms inf ≡ done q
    → set_callout T q uptime outms' inf' ≡ stop
unfolding ms_to_ticks
set_callout-taken T laws que uptime outms outms' inf inf' q same e =
    let tick = expire_of T laws que uptime outms inf in
    let agree : expire_of T laws q uptime outms' inf' ≡ tick = omega (arith, same) in
    let there : has_key tick (T.items q) ≡ true =
      ap (has_key tick) (set_callout-put T laws que uptime outms inf q e)
      ∙ has_key-put (callout_of T laws que uptime outms inf) (T.items que) in
    taken_stops T laws q uptime outms' inf' (ap (λ x. has_key x (T.items q)) agree ∙ there)

-- the reason that a wait with a time-out ends with
abbrev pub reason_of : Bool → TimedWait → Option SyncReason
reason_of pending w =
    if not (is_wait_reason w.obj_reason)
    then some w.obj_reason
    else if not (is_wait_reason w.timer_reason)
    then some w.timer_reason
    else if pending
    then some wai_delivev
    else none

-- Where no other thread waits on the timer, the end of a wait with a time-out fails no assertion. Its
-- reason is that of the object, else that of the timer, else a pending event; with none of the three the
-- code returns a variable that it has not set. Its blocks leave the queues, and its call-out is not in
-- the tree afterwards where the timer has not called it; otherwise the tree is as it was.
pub finish_wait_time_obj-reason :
    (T : Tree) (laws : IsTree T) (que : T.Carrier) (pending : Bool) (w : TimedWait) (cb : Callout)
    → is_nil (unlist w.timer_blk w.timer_que) ≡ true
    → (w' : TimedWait) × (q : T.Carrier) × (finish_wait_time_obj T que pending w cb
        ≡ done (reason_of pending w, w', q))
      × (w'.obj_que ≡ unlist w.obj_blk w.obj_que)
      × (w'.timer_que ≡ [])
      × (if is_wait_reason w.timer_reason then has_key cb.expire (T.items q) ≡ false else q ≡ que)
unfolding finish_wait_time_obj
finish_wait_time_obj-reason T laws que pending w cb alone =
    elim (Bool-cases (is_wait_reason w.timer_reason)) [
      | inl t ↦
          let gone : has_key cb.expire (T.items (T.remove que cb)) ≡ false =
            ap (has_key cb.expire) (laws.remove_items que cb)
            ∙ has_key-drop_key cb.expire (T.items que) (laws.sorted que) in
          elim (Bool-cases (is_wait_reason w.obj_reason)) [
            | inl o ↦
                rw (alone, t, o)
                  (_, _, refl, refl, nil (unlist w.timer_blk w.timer_que) alone, gone)
            | inr o ↦
                rw (alone, t, o)
                  (_, _, refl, refl, nil (unlist w.timer_blk w.timer_que) alone, gone)
          ]
      | inr t ↦ elim (Bool-cases (is_wait_reason w.obj_reason)) [
        | inl o ↦
            rw (alone, t, o) (_, _, refl, refl, nil (unlist w.timer_blk w.timer_que) alone, refl)
        | inr o ↦
            rw (alone, t, o) (_, _, refl, refl, nil (unlist w.timer_blk w.timer_que) alone, refl)
      ]
    ]
  where
    nil : (l : List ℕ) → is_nil l ≡ true → l ≡ []
    nil [] e = refl
    nil (b ∷ bs) e = absurd (ground (arith, e))
