-- ===== src/Slab/Place.antt =====
-- page/page-kmcache.c: a slab is moved from one queue of its cache to the end of another.
use yatos.Prelude.{
  ℕ, ◌≤◌, ◌<◌, ◌≡◌, ◌≢◌, refl, arith, true, false, Bool-cases, inl, inr, ◌∙◌, ◌==◌, List, [], ◌∷◌,
  ◌++◌, Option,
}
use yatos.Buddy.{remove}
use yatos.Slab.Sizes.{Slab, Cache, calc_slab_data_size}
use yatos.Slab.Objects.{set_slab, del_slab}
use yatos.Slab.Occurs.{occ-append_self, occ-append_other, occ-remove_self, occ-remove_other}
use yatos.Slab.Valid.{IsSlab, Stands, StandsIn, IsLaid, IsValid}

pub data Queue : Type 0 where
  in_part in_full in_free : Queue

-- The slab leaves the queue that it is on and goes to the end of the queue.
abbrev pub placed : Cache → ℕ → Queue → Cache
placed c s in_part = record (del_slab c s) { partial = (del_slab c s).partial ++ (s ∷ []) }
placed c s in_full = record (del_slab c s) { full = (del_slab c s).full ++ (s ∷ []) }
placed c s in_free = record (del_slab c s) { free = (del_slab c s).free ++ (s ∷ []) }

-- the count that a slab on the queue has
abbrev pub Suits : Queue → ℕ → ℕ → Type 0
Suits in_part n count = (1 ≤ count) × (count < n)
Suits in_full n count = count ≡ n
Suits in_free n count = count ≡ 0

abbrev pub IsSlabIn : Cache → ℕ → Type 0
IsSlabIn c s = IsSlab c.objs_per_slab (calc_slab_data_size c) c.slab_size c.slab_of s (c.slabs s)

same-Stands :
    {low n size bytes : ℕ} {slab_of : ℕ → Option ℕ} {s : ℕ} {x : Slab} {p f e p' f' e' : ℕ}
    → p' ≡ p
    → f' ≡ f
    → e' ≡ e
    → Stands low n size bytes slab_of s x p f e
    → Stands low n size bytes slab_of s x p' f' e'
same-Stands hp hf he st = rw (hp, hf, he) st

pub placed-others :
    (c : Cache) (s t : ℕ) (q : Queue) → t ≢ s → StandsIn c 1 t → StandsIn (placed c s q) 1 t
placed-others c s t in_part h st =
    same-Stands (occ-append_other s t (remove s c.partial) h ∙ occ-remove_other s t c.partial h)
      (occ-remove_other s t c.full h) (occ-remove_other s t c.free h) st
placed-others c s t in_full h st =
    same-Stands (occ-remove_other s t c.partial h)
      (occ-append_other s t (remove s c.full) h ∙ occ-remove_other s t c.full h)
      (occ-remove_other s t c.free h) st
placed-others c s t in_free h st =
    same-Stands (occ-remove_other s t c.partial h) (occ-remove_other s t c.full h)
      (occ-append_other s t (remove s c.free) h ∙ occ-remove_other s t c.free h) st

placed_self :
    (c : Cache) (s : ℕ) (q : Queue)
    → Suits q c.objs_per_slab (c.slabs s).count
    → IsSlabIn c s
    → StandsIn (placed c s q) 1 s
placed_self c s in_part h g =
    let here = occ-append_self s (remove s c.partial) in
    same-Stands here (occ-remove_self s c.full) (occ-remove_self s c.free) (
      let gone = occ-remove_self s c.partial in
      record {
        at_most_once = omega (arith, gone);
        partial_ok = λ pos. h;
        full_ok = λ pos. absurd (omega arith);
        free_ok = λ pos. absurd (omega arith);
        good = λ pos. g;
      })
placed_self c s in_full h g =
    let here = occ-append_self s (remove s c.full) in
    same-Stands (occ-remove_self s c.partial) here (occ-remove_self s c.free) (
      let gone = occ-remove_self s c.full in
      record {
        at_most_once = omega (arith, gone);
        partial_ok = λ pos. absurd (omega arith);
        full_ok = λ pos. h;
        free_ok = λ pos. absurd (omega arith);
        good = λ pos. g;
      })
placed_self c s in_free h g =
    let here = occ-append_self s (remove s c.free) in
    same-Stands (occ-remove_self s c.partial) (occ-remove_self s c.full) here (
      let gone = occ-remove_self s c.free in
      record {
        at_most_once = omega (arith, gone);
        partial_ok = λ pos. absurd (omega arith);
        full_ok = λ pos. absurd (omega arith);
        free_ok = λ pos. h;
        good = λ pos. g;
      })

pub IsLaid-queues :
    (c : Cache) (p f e : List ℕ) (g : ℕ → Slab)
    → IsLaid c
    → IsLaid (record c { partial = p; full = f; free = e; slabs = g })
IsLaid-queues c p f e g l = record {
  sized = l.sized;
  room = l.room;
  wide = l.wide;
  bounded = l.bounded;
  no_wrap = l.no_wrap;
  whole = l.whole;
  fits = l.fits;
  colors = l.colors;
}

pub placed-IsLaid : (c : Cache) (s : ℕ) (q : Queue) → IsLaid c → IsLaid (placed c s q)
placed-IsLaid c s in_part l =
    IsLaid-queues c (placed c s in_part).partial (placed c s in_part).full (placed c s in_part).free
      c.slabs l
placed-IsLaid c s in_full l =
    IsLaid-queues c (placed c s in_full).partial (placed c s in_full).full (placed c s in_full).free
      c.slabs l
placed-IsLaid c s in_free l =
    IsLaid-queues c (placed c s in_free).partial (placed c s in_free).full (placed c s in_free).free
      c.slabs l

-- Where all other slabs stand as they ought to, a slab that is moved to the queue that suits its count leaves the cache
-- in order.
pub placed-IsValid :
    (c : Cache) (s : ℕ) (q : Queue)
    → IsLaid c
    → ((t : ℕ) → t ≢ s → StandsIn c 1 t)
    → Suits q c.objs_per_slab (c.slabs s).count
    → IsSlabIn c s
    → IsValid (placed c s q)
placed-IsValid c s q l others suits g = record {
  laid = placed-IsLaid c s q l;
  stands = λ t. elim (Bool-cases (t == s)) [
    | inl e ↦ let same : t ≡ s = ground (arith, e) in rw same (placed_self c s q suits g)
    | inr e ↦ let other : t ≢ s = ground (arith, e) in placed-others c s t q other (others t other)
  ];
}

pub set_slab-others :
    (c : Cache) (s t : ℕ) (x : Slab) → t ≢ s → StandsIn c 1 t → StandsIn (set_slab c s x) 1 t
set_slab-others c s t x h st = let e : (t == s) ≡ false = ground (arith, h) in rw e st

pub set_slab_self : (c : Cache) (s : ℕ) (x : Slab) → (set_slab c s x).slabs s ≡ x
set_slab_self c s x = let e : (s == s) ≡ true = ground arith in rw e refl
