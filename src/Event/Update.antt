-- ===== src/Event/Update.antt =====
-- event/event-mask.c: one event put into a mask, taken out of it, or looked up.
use yatos.Prelude.{
  ℕ, ◌/◌, ◌%◌, ◌<◌, ◌≡◌, refl, ◌∙◌, inl, inr, arith, true, false, not, ◌&&◌, ◌==◌, if◌then◌else◌,
  Bool-cases, List, length, get_or, set, done, length-set, lt→ltb,
}
use yatos.Bits.{set_bit, clear_bit}
use yatos.Bits.Laws.{test_bit-eq-digit}
use yatos.IdBitmap.View.{bit_of-set_bit, bit_of-clear_bit, get_elem?-eq}
use yatos.Event.Mask.{
  EventMask, ev_sig_kill, word_at, ev_mask_set, ev_mask_set_impl, ev_mask_unset, ev_mask_unset_impl,
  ev_mask_test, ev_mask_test_impl,
}
use yatos.Event.Deliverable.{has, IsMask}

-- `word_at` inside the array
word_at-eq : (ws : List ℕ) (i : ℕ) → i < length ws → word_at ws i ≡ done (get_or ws i 0)
word_at-eq ws i h = ground (arith, get_elem?-eq ws i h)

pub ev_mask_test_lem :
    (m : EventMask) (id : ℕ) → IsMask m → id < 128 → ev_mask_test m id ≡ done (has m id)
unfolding ev_mask_test ev_mask_test_impl
ev_mask_test_lem m id h small =
    rw
      (
        lt→ltb id 128 small,
        lt→ltb (id / 64) 2 (omega arith),
        word_at-eq m.words (id / 64) (omega arith),
        test_bit-eq-digit (get_or m.words (id / 64) 0) (id % 64),
      )
      refl

-- Taking an event out of a mask takes out that event alone.
pub ev_mask_unset_lem :
    (m : EventMask) (id : ℕ)
    → IsMask m
    → id < 128
    → (m' : EventMask) × (ev_mask_unset m id ≡ done m')
      × IsMask m'
      × ((j : ℕ) → has m' j ≡ (if id == j then false else has m j))
unfolding ev_mask_unset ev_mask_unset_impl
ev_mask_unset_lem m id h small =
    let ws = m.words in
    let w = clear_bit (get_or ws (id / 64) 0) (id % 64) in
    (
      record { words = set ws (id / 64) w },
      rw
          (
            lt→ltb id 128 small,
            lt→ltb (id / 64) 2 (omega arith),
            word_at-eq ws (id / 64) (omega arith),
          )
          refl,
      length-set ws (id / 64) w ∙ h,
      λ j. bit_of-clear_bit ws id j (omega arith),
    )

-- Putting an event into a mask puts in that event alone, and EV_SIG_KILL never.
pub ev_mask_set_lem :
    (m : EventMask) (id : ℕ)
    → IsMask m
    → id < 128
    → (m' : EventMask) × (ev_mask_set m id ≡ done m')
      × IsMask m'
      × ((j : ℕ) → has m' j ≡ (if not (id == ev_sig_kill) && id == j then true else has m j))
unfolding ev_mask_set ev_mask_set_impl
ev_mask_set_lem m id h small = elim (Bool-cases (id == ev_sig_kill)) [
  | inl kill ↦ (m, rw (lt→ltb id 128 small, kill) refl, h, λ j. rw kill refl)
  | inr other ↦
      let ws = m.words in
      let w = set_bit (get_or ws (id / 64) 0) (id % 64) in
      (
        record { words = set ws (id / 64) w },
        rw
            (
              lt→ltb id 128 small,
              other,
              lt→ltb (id / 64) 2 (omega arith),
              word_at-eq ws (id / 64) (omega arith),
            )
            refl,
        length-set ws (id / 64) w ∙ h,
        λ j. rw other (bit_of-set_bit ws id j (omega arith)),
      )
]
