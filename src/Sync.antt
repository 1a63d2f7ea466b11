-- ===== src/Sync.antt =====
-- thr/thread-sync.c and include/kern/thread-sync.h: objects that threads wait on. The part of a wait
-- before the thread gives up the CPU and the part after it has it again are functions of their own.
mod Wake
mod Finish
mod Tests
use yatos.Prelude.{
  ℕ, Bool, true, false, not, ◌&&◌, ◌||◌, ◌==◌, if◌then◌else◌, List, [], ◌∷◌, ◌++◌, Exec, done, stop,
  ◌>>=◌, ◌>>◌, kassert,
}
use yatos.Thread.State.{ThrState, valid_wait_status, ti_dispatch_disabled}
use yatos.Thread.Sched.{Sys, set_status, sched_wakeup, sched_schedule}

-- `sync_pol`
pub data SyncPol : Type 0 where
  wake_all wake_one : SyncPol

-- `sync_reason`
pub data SyncReason : Type 0 where
  wai_wait wai_released obj_destroyed wai_timeout wai_delivev : SyncReason

abbrev pub is_wait_reason : SyncReason → Bool
is_wait_reason wai_wait = true
is_wait_reason _ = false

abbrev pub is_one : SyncPol → Bool
is_one wake_all = false
is_one wake_one = true

-- `sync_block`; its link is its place in the queue of an object
pub record SyncBlock : Type 0 where
  pub thr : ℕ
  pub reason : SyncReason

-- `sync_obj`: the queue holds the numbers of blocks
pub record SyncObj : Type 0 where
  pub wait_kind : ThrState
  pub policy : SyncPol
  pub que : List ℕ

-- the threads, the blocks, and the one object that the calls are about
pub record World : Type 0 where
  pub sys : Sys
  pub blocks : ℕ → SyncBlock
  pub obj : SyncObj

abbrev pub set_block : World → ℕ → SyncBlock → World
set_block w b v = record w { blocks = λ c. if c == b then v else w.blocks c }

abbrev pub set_que : World → List ℕ → World
set_que w l = record w { obj = record (w.obj) { que = l } }

unfoldable pub sync_init_block : World → ℕ → World
sync_init_block w blk = set_block w blk (record { thr = w.sys.current; reason = wai_wait })

unfoldable pub sync_init_object : World → SyncPol → ThrState → Exec World
sync_init_object w pol wait_kind = do
  kassert (valid_wait_status wait_kind)
  done (record w { obj = record { wait_kind = wait_kind; policy = pol; que = [] } })

unfoldable pub wait_sync_obj_no_schedule : World → ℕ → Exec World
unfolding sync_init_block
wait_sync_obj_no_schedule w blk =
    kassert (valid_wait_status w.obj.wait_kind)
    >> (let w1 = sync_init_block w blk in
        let w2 = record w1 { sys = set_status w1.sys w1.sys.current w1.obj.wait_kind } in
        done (set_que w2 (w2.obj.que ++ (blk ∷ []))))

abbrev pub listed : ℕ → List ℕ → Bool
listed b [] = false
listed b (c ∷ cs) = (b == c) || listed b cs

-- `list_del` of the block's link
abbrev pub unlist : ℕ → List ℕ → List ℕ
unlist b [] = []
unlist b (c ∷ cs) = let rest = unlist b cs in if b == c then cs else c ∷ rest

-- `pending`: whether ev_has_pending_events says so of the current thread
unfoldable pub finish_wait : World → ℕ → Bool → SyncReason × World
finish_wait w blk pending =
    if pending && listed blk w.obj.que
    then (wai_delivev, set_que w (unlist blk w.obj.que))
    else ((w.blocks blk).reason, w)

-- one round of the loop of sync_wake, for the block that was first on the queue
unfoldable pub wake_block : World → ℕ → SyncReason → Exec World
wake_block w blk reason =
    let w1 = set_block w blk (record { thr = (w.blocks blk).thr; reason = reason }) in
    do sys ← sched_wakeup w1.sys (w1.blocks blk).thr; done (record w1 { sys = sys })

-- the loop, on the blocks that are still queued
unfoldable pub wake_blocks : World → List ℕ → SyncReason → Exec World
unfolding wake_block
wake_blocks w [] reason = done (set_que w [])
wake_blocks w (blk ∷ que) reason = wake_block (set_que w que) blk reason >>= λ w'.
    if is_one w'.obj.policy then done w' else wake_blocks w' que reason

-- the part of sync_wake behind the lock, on the blocks of the queue
unfoldable pub wake_from : World → List ℕ → SyncReason → Exec World
unfolding wake_blocks
wake_from w [] reason = done w
wake_from w (blk ∷ que) reason = wake_blocks w (blk ∷ que) reason >>= λ w'.
    if ti_dispatch_disabled (w'.sys.threads w'.sys.current).ti
    then done w'
    else (sched_schedule w'.sys >>= λ sys. done (record w' { sys = sys }))

unfoldable pub sync_wake : World → SyncReason → Exec World
unfolding wake_from
sync_wake w reason = wake_from w w.obj.que reason
