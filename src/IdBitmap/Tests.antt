-- ===== src/IdBitmap/Tests.antt =====
-- Runs of the id bitmap, and its theorems at concrete maps.
use yatos.Prelude.{
  ℕ, ◌+◌, ◌≡◌, refl, ◌⊎◌, ◌==◌, arith, Bool, true, false, if◌then◌else◌, [], ◌∷◌, Option, some, Rc,
  ok, ebusy, done,
}
use yatos.Bits
use yatos.IdBitmap.Map.{IdMap, find_free_id, resize_bitmap}
use yatos.IdBitmap.Api.{idbmap_put_id, idbmap_get_specified_id, get_id_loop}
use yatos.IdBitmap.View.{used, IsValid}
use yatos.IdBitmap.Find.{Finds, find_free_id-Finds}
use yatos.IdBitmap.Resize.{Resizes, resize_bitmap-Resizes}
use yatos.IdBitmap.Loop.{GivesUserId, get_id_loop_user}
use yatos.IdBitmap.Ids.{idbmap_put_id-used, idbmap_get_specified_id_covered}

-- 128 ids of which 2 are reserved; 0, 1 and 2 are in use
abbrev three_used : IdMap
three_used = record {
  ref_count = record { counter = 3; deleted = false };
  reserved_ids = 2;
  nr_ids = 128;
  max_array_idx = 2;
  words = some (7 ∷ 0 ∷ []);
}

abbrev always : ℕ → Bool
always n = true

three_used-IsValid : IsValid three_used
three_used-IsValid = record {
  shape = (refl, omega arith, omega arith, omega arith, omega arith, refl);
  range = omega arith;
}

find_free_id_run :
    find_free_id three_used 0 ≡ done (some 3, record three_used { words = some (15 ∷ 0 ∷ []) })
unfolding find_free_id Bits.test_bit Bits.set_bit
find_free_id_run = refl

find_free_id-Finds_example :
    (r : Option ℕ) × (m' : IdMap) × (find_free_id three_used 0 ≡ done (r, m'))
    × Finds three_used 0 r m'
find_free_id-Finds_example = find_free_id-Finds three_used 0 three_used-IsValid

resize_bitmap-Resizes_example :
    (rc : Rc) × (m' : IdMap) × (resize_bitmap always three_used 256 ≡ done (rc, m'))
    × Resizes always three_used 256 rc m'
resize_bitmap-Resizes_example =
    resize_bitmap-Resizes always three_used 256 three_used-IsValid (omega arith) (omega arith)

get_id_loop_user_example : GivesUserId always three_used 0 (get_id_loop always 2 three_used 0)
get_id_loop_user_example =
    get_id_loop_user always 0 three_used 0 refl three_used-IsValid (omega arith) (omega arith)
      (omega arith)

idbmap_put_id-used_example :
    (m' : IdMap) × (idbmap_put_id three_used 2 ≡ done (some m'))
    × IsValid m'
    × ((j : ℕ) → used m' j ≡ (if 2 == j then false else used three_used j))
    × (m'.ref_count.counter + 1 ≡ 3)
idbmap_put_id-used_example =
    idbmap_put_id-used three_used 2 three_used-IsValid (omega arith) (omega arith) refl
      (omega arith) (omega arith)

idbmap_get_specified_id_covered_example :
    ((used three_used 2 ≡ true)
      × (idbmap_get_specified_id always three_used 2 0 ≡ done (ebusy, some three_used)))
    ⊎ ((used three_used 2 ≡ false)
        × ((m' : IdMap) × (idbmap_get_specified_id always three_used 2 0 ≡ done (ok, some m'))
            × IsValid m'
            × ((j : ℕ) → used m' j ≡ (if 2 == j then true else used three_used j))
            × (m'.ref_count.counter ≡ 3 + 1)
            × (m'.nr_ids ≡ 128)))
idbmap_get_specified_id_covered_example =
    idbmap_get_specified_id_covered always three_used 2 0 three_used-IsValid
      (refl, omega arith, omega arith) refl (omega arith)
