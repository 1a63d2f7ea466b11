-- ===== src/Slab/Where.antt =====
-- page/page-kmcache.c: on how many queues of its cache a slab stands after it was moved.
use yatos.Prelude.{ℕ, ◌<◌, ◌≡◌, ◌≢◌, refl, ◌∙◌, inl, inr, arith, Bool-cases, ◌==◌}
use yatos.Buddy.{remove}
use yatos.Slab.Sizes.{Cache}
use yatos.Slab.Objects.{put_object}
use yatos.Slab.Occurs.{occ-append_self, occ-append_other, occ-remove_self, occ-remove_other}
use yatos.Slab.Valid.{queued, IsValid}
use yatos.Slab.Place.{Queue, in_part, in_full, in_free, placed}
use yatos.Slab.Put.{given, c1_of, put_object-free, put_object-part, put_object-stays}

-- A slab that is put on a queue stands on that one alone.
pub placed-queued : (c : Cache) (s : ℕ) (q : Queue) → queued (placed c s q) s ≡ 1
placed-queued c s in_part =
    let a = occ-append_self s (remove s c.partial) in
    let p = occ-remove_self s c.partial in
    let f = occ-remove_self s c.full in
    let e = occ-remove_self s c.free in omega (arith, a, p, f, e)
placed-queued c s in_full =
    let a = occ-append_self s (remove s c.full) in
    let p = occ-remove_self s c.partial in
    let f = occ-remove_self s c.full in
    let e = occ-remove_self s c.free in omega (arith, a, p, f, e)
placed-queued c s in_free =
    let a = occ-append_self s (remove s c.free) in
    let p = occ-remove_self s c.partial in
    let f = occ-remove_self s c.full in
    let e = occ-remove_self s c.free in omega (arith, a, p, f, e)

-- Where the others stand does not change.
pub placed-queued_other :
    (c : Cache) (s : ℕ) (q : Queue) (t : ℕ) → t ≢ s → queued (placed c s q) t ≡ queued c t
placed-queued_other c s in_part t h =
    let a = occ-append_other s t (remove s c.partial) h in
    let p = occ-remove_other s t c.partial h in
    let f = occ-remove_other s t c.full h in
    let e = occ-remove_other s t c.free h in omega (arith, a, p, f, e)
placed-queued_other c s in_full t h =
    let a = occ-append_other s t (remove s c.full) h in
    let p = occ-remove_other s t c.partial h in
    let f = occ-remove_other s t c.full h in
    let e = occ-remove_other s t c.free h in omega (arith, a, p, f, e)
placed-queued_other c s in_free t h =
    let a = occ-append_other s t (remove s c.free) h in
    let p = occ-remove_other s t c.partial h in
    let f = occ-remove_other s t c.full h in
    let e = occ-remove_other s t c.free h in omega (arith, a, p, f, e)

pub put_object-queued :
    (c : Cache) (s h : ℕ) → IsValid c → 0 < queued c s → queued (put_object c s h) s ≡ 1
put_object-queued c s h v on =
    let c1 = c1_of c s h in
    let once = (v.stands s).at_most_once in
    elim (Bool-cases ((given (c.slabs s) h).count == 0)) [
      | inl e ↦ elim (put_object-free c s h (ground (arith, e))) [
        | inl q ↦ rw q (placed-queued c1 s in_free)
        | inr q ↦ rw q (placed-queued (placed c1 s in_part) s in_free)
      ]
      | inr e ↦ elim (Bool-cases ((c.slabs s).count == c.objs_per_slab)) [
        | inl y ↦
            rw (put_object-part c s h (ground (arith, e)) (ground (arith, y)))
              (placed-queued c1 s in_part)
        | inr y ↦
            rw (put_object-stays c s h (ground (arith, e)) (ground (arith, y)))
              (omega (arith, once, on))
      ]
    ]

pub put_object-queued_other :
    (c : Cache) (s h t : ℕ) → t ≢ s → queued (put_object c s h) t ≡ queued c t
put_object-queued_other c s h t o =
    let c1 = c1_of c s h in
    elim (Bool-cases ((given (c.slabs s) h).count == 0)) [
      | inl e ↦ elim (put_object-free c s h (ground (arith, e))) [
        | inl q ↦ rw q (placed-queued_other c1 s in_free t o)
        | inr q ↦ rw q (
            placed-queued_other (placed c1 s in_part) s in_free t o
            ∙ placed-queued_other c1 s in_part t o)
      ]
      | inr e ↦ elim (Bool-cases ((c.slabs s).count == c.objs_per_slab)) [
        | inl y ↦
            rw (put_object-part c s h (ground (arith, e)) (ground (arith, y)))
              (placed-queued_other c1 s in_part t o)
        | inr y ↦ rw (put_object-stays c s h (ground (arith, e)) (ground (arith, y))) refl
      ]
    ]
