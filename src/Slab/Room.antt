-- ===== src/Slab/Room.antt =====
-- page/page-kmcache.c: the pages and the objects of a new slab.
use yatos.Prelude.{
  ℕ, zero, suc, ◌+◌, ◌*◌, ◌/◌, ◌%◌, ◌≤◌, ◌<◌, ◌≡◌, ◌⊎◌, refl, ◌∙◌, inl, inr, arith, true, false,
  ◌==◌, if◌then◌else◌, Bool-cases, Option, some, done,
}
use native.Mathlib.Nat.{mod-lt}
use yatos.Vm.Space.{page_size}
use yatos.Slab.Sizes.{
  Cache, slab_bytes, calc_slab_data_size, update_color_offset, default_l1_cache_byte,
}
use yatos.Slab.Objects.{new_slab, name_pages}
use yatos.Slab.Occurs.{length-heads_from, heads_from-once, heads_from-heads}
use yatos.Slab.Valid.{IsSlab, IsLaid}

pub name_pages-outside :
    (r : ℕ) (f : ℕ → Option ℕ) (n : ℕ) (s : Option ℕ) (k : ℕ)
    → (k < n) ⊎ (n + r ≤ k)
    → name_pages r f n s k ≡ f k
unfolding name_pages
name_pages-outside zero f n s k o = refl
name_pages-outside (suc r) f n s k o =
    let other : (k == n) ≡ false = elim o [
      | inl h ↦ ground (arith, h)
      | inr h ↦ ground (arith, h)
    ] in
    let later : (k < suc n) ⊎ (suc n + r ≤ k) = elim o [
      | inl h ↦ inl (omega arith)
      | inr h ↦ inr (omega arith)
    ] in
    name_pages-outside r (λ j. if j == n then s else f j) (suc n) s k later ∙ rw other refl

pub name_pages-inside :
    (r : ℕ) (f : ℕ → Option ℕ) (n : ℕ) (s : Option ℕ) (k : ℕ)
    → n ≤ k
    → k < n + r
    → name_pages r f n s k ≡ s
unfolding name_pages
name_pages-inside zero f n s k lo hi = absurd (omega arith)
name_pages-inside (suc r) f n s k lo hi = elim (Bool-cases (k == n)) [
  | inl e ↦
      let at : k < suc n = ground (arith, e) in
      name_pages-outside r (λ j. if j == n then s else f j) (suc n) s k (inl at) ∙ rw e refl
  | inr e ↦
      let later : suc n ≤ k = ground (arith, e, lo) in
      name_pages-inside r (λ j. if j == n then s else f j) (suc n) s k later (omega arith)
]

-- the offset of the next slab leaves room for its objects
pub update_color_offset-room :
    (c : Cache)
    → IsLaid c
    → c.registered ≡ true
    → (offset next : ℕ) × (update_color_offset c ≡ done (offset, record c { color_next = next }))
      × (offset + slab_bytes + c.objs_per_slab * calc_slab_data_size c ≤ c.slab_size)
      × IsLaid (record c { color_next = next })
unfolding update_color_offset
update_color_offset-room c l r = elim l.colors [
  | inl z ↦
      let e : (c.color_num == 0) ≡ true = ground (arith, z) in
      (0, c.color_next, rw (r, e) refl, omega (arith, l.fits), l)
  | inr (lt, room) ↦
      let e : (c.color_num == 0) ≡ false = ground (arith, lt) in
      let next : (c.color_next + 1) % c.color_num < c.color_num =
        mod-lt (c.color_next + 1) (omega (arith, lt)) in
      (
        c.color_next * default_l1_cache_byte,
        (c.color_next + 1) % c.color_num,
        rw (r, e) refl,
        omega (arith, lt, room),
        record {
          sized = l.sized;
          room = l.room;
          wide = l.wide;
          bounded = l.bounded;
          no_wrap = l.no_wrap;
          whole = l.whole;
          fits = l.fits;
          colors = inr (next, room);
        },
      )
]

pub new_slab-IsSlab :
    (c : Cache) (block offset : ℕ) (slab_of : ℕ → Option ℕ)
    → 0 < calc_slab_data_size c
    → offset + slab_bytes + c.objs_per_slab * calc_slab_data_size c ≤ c.slab_size
    → ((a : ℕ)
        → block ≤ a
        → a < block + c.slab_size
        → slab_of (a / page_size) ≡ some (block + offset))
    → IsSlab c.objs_per_slab
        (calc_slab_data_size c)
        c.slab_size
        slab_of
        (block + offset)
        (new_slab c block offset)
new_slab-IsSlab c block offset slab_of pos_size fits named =
    let base : ℕ = block + offset + slab_bytes in
    let size : ℕ = calc_slab_data_size c in
    record {
      balance = let e = length-heads_from c.objs_per_slab base size in omega (arith, e);
      once = λ h. heads_from-once c.objs_per_slab base size h pos_size;
      heads = λ h pos. heads_from-heads c.objs_per_slab base size h pos;
      inside = (omega arith, omega (arith, fits));
      owned = named;
    }
