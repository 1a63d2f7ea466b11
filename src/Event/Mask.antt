-- ===== src/Event/Mask.antt =====
-- event/event-mask.c: sets of event numbers as arrays of 64-bit words.
use Prim.Native.Nat.{bit_and, bit_xor}
use yatos.Prelude.{
  ℕ, zero, suc, ◌+◌, ◌-◌, ◌*◌, ◌/◌, ◌%◌, ◌^◌, Bool, true, false, ltb, ◌==◌, if◌then◌else◌, List, [],
  ◌∷◌, Option, none, some, get_elem?, set, Exec, done, stop, ◌>>=◌, ◌>>◌, kassert,
}
use yatos.Bits.{test_bit, set_bit, clear_bit}

abbrev pub ev_nr_event : ℕ
ev_nr_event = 128

abbrev pub ev_map_len : ℕ
ev_map_len = 2

abbrev pub ev_sig_kill : ℕ
ev_sig_kill = 9

-- `event_mask`: the array `map` of EV_MAP_LEN words
pub record EventMask : Type 0 where
  pub words : List ℕ

-- `map[pos]`
abbrev pub word_at : List ℕ → ℕ → Exec ℕ
word_at ws i = elim (get_elem? ws i) [ none ↦ stop | some w ↦ done w ]

unfoldable pub event_map_clr_impl : List ℕ → List ℕ
event_map_clr_impl [] = []
event_map_clr_impl (w ∷ ws) = 0 ∷ event_map_clr_impl ws

unfoldable pub event_map_fill_impl : List ℕ → List ℕ
event_map_fill_impl [] = []
event_map_fill_impl (w ∷ ws) = (2 ^ 64 - 1) ∷ event_map_fill_impl ws

unfoldable pub ev_mask_test_impl : List ℕ → ℕ → Exec Bool
ev_mask_test_impl map id = do
  kassert (ltb id ev_nr_event)
  kassert (ltb (id / 64) ev_map_len)
  w ← word_at map (id / 64)
  done (test_bit w (id % 64))

unfoldable pub ev_mask_empty_impl : List ℕ → Bool
ev_mask_empty_impl [] = true
ev_mask_empty_impl (w ∷ ws) = let rest = ev_mask_empty_impl ws in if w == 0 then rest else false

unfoldable pub ev_mask_set_impl : List ℕ → ℕ → Exec (List ℕ)
ev_mask_set_impl map id = do
  kassert (ltb id ev_nr_event)
  kassert (ltb (id / 64) ev_map_len)
  w ← word_at map (id / 64)
  done (set map (id / 64) (set_bit w (id % 64)))

unfoldable pub ev_mask_unset_impl : List ℕ → ℕ → Exec (List ℕ)
ev_mask_unset_impl map id = do
  kassert (ltb id ev_nr_event)
  kassert (ltb (id / 64) ev_map_len)
  w ← word_at map (id / 64)
  done (set map (id / 64) (clear_bit w (id % 64)))

unfoldable pub ev_mask_clr : EventMask → EventMask
unfolding event_map_clr_impl
ev_mask_clr mask = record { words = event_map_clr_impl mask.words }

unfoldable pub ev_mask_fill : EventMask → Exec EventMask
unfolding event_map_fill_impl ev_mask_unset_impl
ev_mask_fill mask = do
  ws ← ev_mask_unset_impl (event_map_fill_impl mask.words) ev_sig_kill
  done (record { words = ws })

unfoldable pub ev_mask_test : EventMask → ℕ → Exec Bool
unfolding ev_mask_test_impl
ev_mask_test mask id = do kassert (ltb id ev_nr_event); ev_mask_test_impl mask.words id

unfoldable pub ev_mask_empty : EventMask → Bool
unfolding ev_mask_empty_impl
ev_mask_empty mask = ev_mask_empty_impl mask.words

-- The event that cannot be masked is refused here, whatever the mask is used for.
unfoldable pub ev_mask_set : EventMask → ℕ → Exec EventMask
unfolding ev_mask_set_impl
ev_mask_set mask id = do
  kassert (ltb id ev_nr_event)
  if id == ev_sig_kill
      then done mask
      else (ev_mask_set_impl mask.words id >>= λ ws. done (record { words = ws }))

unfoldable pub ev_mask_unset : EventMask → ℕ → Exec EventMask
unfolding ev_mask_unset_impl
ev_mask_unset mask id = do
  kassert (ltb id ev_nr_event)
  ws ← ev_mask_unset_impl mask.words id
  done (record { words = ws })

-- the inner loop: the first of the n bits of a word from bit j on that is set
unfoldable pub find_in_word : ℕ → ℕ → ℕ → Option ℕ
find_in_word w j zero = none
find_in_word w j (suc n) =
    let rest = find_in_word w (j + 1) n in if test_bit w j then some j else rest

abbrev pub first_hit : ℕ → Option ℕ → Option ℕ → Option ℕ
first_hit i none rest = rest
first_hit i (some j) rest = some (i * 64 + j)

-- the outer loop, from word i on
unfoldable pub find_in_words : List ℕ → ℕ → Option ℕ
find_in_words [] i = none
find_in_words (w ∷ ws) i = first_hit i (find_in_word w 0 64) (find_in_words ws (i + 1))

-- `none` is the answer -ENOENT.
unfoldable pub ev_mask_find_first_bit : EventMask → Option ℕ
unfolding find_in_words
ev_mask_find_first_bit mask = find_in_words mask.words 0

abbrev pub zip_words : (ℕ → ℕ → ℕ) → List ℕ → List ℕ → List ℕ
zip_words f [] ys = []
zip_words f (x ∷ xs) [] = []
zip_words f (x ∷ xs) (y ∷ ys) = f x y ∷ zip_words f xs ys

-- The words of both masks, one by one; the masks have the same number of words.
unfoldable pub ev_mask_xor : EventMask → EventMask → EventMask
ev_mask_xor mask1 mask2 = record { words = zip_words bit_xor mask1.words mask2.words }

unfoldable pub ev_mask_and : EventMask → EventMask → EventMask
ev_mask_and mask1 mask2 = record { words = zip_words bit_and mask1.words mask2.words }
