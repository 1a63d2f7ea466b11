-- ===== src/Sync/Finish.antt =====
-- thr/thread-sync.c: what a thread learns when its wait is over.
use yatos.Prelude.{
  ℕ, ◌≡◌, refl, ap, ◌∙◌, inl, inr, arith, Bool, true, false, not, ◌&&◌, ◌==◌, Bool-cases, List, [],
  ◌∷◌, done,
}
use yatos.Thread.State.{ti_dispatch_disabled}
use yatos.Thread.Queues.{IsValid}
use yatos.Sync.{
  SyncReason, wai_delivev, World, is_one, listed, unlist, finish_wait, sync_wake, SyncPol,
}
use yatos.Sync.Wake.{AllCanBeWoken, taken, left_over, sync_wake-Wakes}

-- No block is on the object twice.
abbrev pub AllOnce : List ℕ → Type 0
AllOnce [] = Unit {0}
AllOnce (b ∷ bs) = (listed b bs ≡ false) × AllOnce bs

listed-unlist :
    (b c : ℕ) (l : List ℕ) → AllOnce l → listed c (unlist b l) ≡ (listed c l && not (c == b))
listed-unlist b c [] o = refl
listed-unlist b c (d ∷ l) (out, o) = elim (Bool-cases (b == d)) [
  | inl e ↦
      let it : b ≡ d = ground arith in
      rw (e, it)
        (elim (Bool-cases (c == d)) [
          | inl i ↦ let at : c ≡ d = ground arith in rw (i, at) (ground (arith, out))
          | inr i ↦ rw i (ground arith)
        ])
  | inr e ↦
      rw (e, listed-unlist b c l o)
        (elim (Bool-cases (c == d)) [
          | inl i ↦ let at : c ≡ d = ground arith in rw (i, at) (ground arith)
          | inr i ↦ rw i refl
        ])
]

all_taken : (pol : SyncPol) (l : List ℕ) → is_one pol ≡ false → taken pol l ≡ l
all_taken pol [] e = refl
all_taken pol (b ∷ l) e = rw e refl

none_left : (pol : SyncPol) (l : List ℕ) → is_one pol ≡ false → left_over pol l ≡ []
none_left pol [] e = refl
none_left pol (b ∷ l) e = rw e refl

-- In a valid system with dispatching disabled, on an object that wakes all and whose waiting threads can all
-- be woken (none is current or idle, and each is in a state that may be woken), sync_wake fails no
-- assertion, and a thread that waited on the object finds the reason of the wake-up, also if an event is pending by then,
-- and leaves the object as it is.
pub finish_wait-sync_wake :
    (w : World) (reason : SyncReason) (blk : ℕ)
    → IsValid w.sys
    → ti_dispatch_disabled (w.sys.threads w.sys.current).ti ≡ true
    → AllCanBeWoken w.sys w.blocks w.obj.que
    → is_one w.obj.policy ≡ false
    → listed blk w.obj.que ≡ true
    → (w' : World) × (sync_wake w reason ≡ done w')
      × ((pending : Bool) → finish_wait w' blk pending ≡ (reason, w'))
unfolding finish_wait
finish_wait-sync_wake w reason blk v off k all on =
    let (w', e, r, o) = sync_wake-Wakes w reason v off k in
    let gone : w'.obj.que ≡ [] = ap (λ x. x.que) o ∙ none_left w.obj.policy w.obj.que all in
    let unlisted : listed blk w'.obj.que ≡ false = ap (listed blk) gone in
    let told : (w'.blocks blk).reason ≡ reason =
      r.reasons blk ∙ rw (all_taken w.obj.policy w.obj.que all, on) refl in
    (w', e, λ pending. rw (unlisted, both pending, told) refl)
  where
    both : (b : Bool) → (b && false) ≡ false
    both true = refl
    both false = refl

-- An event ends the wait of a thread that was not woken: it learns of the event, and its block alone
-- leaves the object.
pub finish_wait-delivev :
    (w : World) (blk : ℕ)
    → AllOnce w.obj.que
    → listed blk w.obj.que ≡ true
    → ((finish_wait w blk true).0 ≡ wai_delivev)
      × ((c : ℕ)
          → listed c (finish_wait w blk true).1.obj.que ≡ (listed c w.obj.que && not (c == blk)))
      × ((finish_wait w blk true).1.sys ≡ w.sys)
      × ((finish_wait w blk true).1.blocks ≡ w.blocks)
unfolding finish_wait
finish_wait-delivev w blk o on = rw on (refl, λ c. listed-unlist blk c w.obj.que o, refl, refl)
