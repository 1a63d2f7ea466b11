-- ===== src/Vm/Create.antt =====
-- vm/vm.c: making an area: the test for overlaps, and the areas that stay apart.
use yatos.Prelude.{
  ℕ, ◌+◌, ◌-◌, ◌%◌, ◌^◌, ◌≤◌, ◌<◌, ◌≡◌, ◌↔◌, ◌∙◌, sym, refl, inl, inr, ◌⊎◌, arith, Bool, true,
  false, leb, Bool-cases, List, [], ◌∷◌, Option, some, done, ok, enomem, ebusy,
}
use yatos.Prelude.Sorted.{IsSorted, has_key, put}
use yatos.Vm.Space.{
  page_size, kern_vma_base, page_start, page_up, Vma, Vm, collides, overlap_loop, check_vma_overlap,
  vm_create_vma,
}
use yatos.Vm.Order.{
  IsArea, Below, AllApart, IsChain, page_up-bounds, page_start-bounds, page_up-le, le-page_start,
  put-IsChain, IsChain-IsSorted, AllApart-has_key,
}

-- What is relied on of RB_INSERT: an area whose start is not in the tree is put in at its place.
pub record IsInsert (insert : List Vma → Vma → Option (List Vma)) : Type 0 where
  pub insert_new :
      (l : List Vma) (v : Vma)
      → IsSorted (λ x. x.start) l
      → has_key (λ x. x.start) v.start l ≡ false
      → insert l v ≡ some (put (λ x. x.start) v l)

-- The pages from `s` up to `e` are free of the area: it starts behind `e`, or it ends at `s` or before.
abbrev pub IsFree : ℕ → ℕ → Vma → Type 0
IsFree s e r = (e < r.start) ⊎ ((r.start < s) × (r.end ≤ s))

abbrev pub AllFree : ℕ → ℕ → List Vma → Type 0
AllFree s e [] = Unit {0}
AllFree s e (r ∷ rs) = IsFree s e r × AllFree s e rs

collides-IsFree :
    (r : Vma) (s e : ℕ) → r.start ≤ r.end → s ≤ e → collides r s e ≡ false → IsFree s e r
collides-IsFree r s e h g c = ground arith

IsFree-collides :
    (r : Vma) (s e : ℕ) → r.start ≤ r.end → s < e → IsFree s e r → collides r s e ≡ false
IsFree-collides r s e h g (inl c) = ground arith
IsFree-collides r s e h g (inr c) = ground arith

IsFree-apart :
    (v r : Vma)
    → IsArea v
    → IsArea r
    → IsFree (page_start v.start) (page_up v.end) r
    → Below v r ⊎ Below r v
IsFree-apart v r a b (inl h) =
    let up = page_up-bounds v.end a.1 in
    inl (omega (arith, up, a.0, h), le-page_start r.start (page_up v.end) up.2 (omega (arith, h)))
IsFree-apart v r a b (inr h) =
    let low = page_start-bounds v.start in
    inr (omega (arith, low, h.0), page_up-le r.end (page_start v.start) b.1 low.2 h.1)

AllFree-AllApart :
    (v : Vma) (l : List Vma)
    → IsArea v
    → IsChain l
    → AllFree (page_start v.start) (page_up v.end) l
    → AllApart v l
AllFree-AllApart v [] a c f = tt
AllFree-AllApart v (r ∷ rs) a c f = (IsFree-apart v r a c.0 f.0, AllFree-AllApart v rs a c.2 f.1)

overlap_loop-AllFree :
    (l : List Vma) (s e : ℕ) → IsChain l → s ≤ e → overlap_loop l s e ≡ false → AllFree s e l
unfolding overlap_loop
overlap_loop-AllFree [] s e c h g = tt
overlap_loop-AllFree (r ∷ rs) s e c h g = elim (Bool-cases (collides r s e)) [
  | inl i ↦ let g1 = rw i at g in ground (arith, g1)
  | inr i ↦
      (collides-IsFree r s e c.0.0 h i, let g1 = rw i at g in overlap_loop-AllFree rs s e c.2 h g1)
]

AllFree-overlap_loop :
    (l : List Vma) (s e : ℕ) → IsChain l → s < e → AllFree s e l → overlap_loop l s e ≡ false
unfolding overlap_loop
AllFree-overlap_loop [] s e c h f = refl
AllFree-overlap_loop (r ∷ rs) s e c h f =
    rw (IsFree-collides r s e c.0.0 h f.0) (AllFree-overlap_loop rs s e c.2 h f.1)

-- the area that the code makes from its arguments
abbrev pub new_area : ℕ → ℕ → ℕ → ℕ → Vma
new_area start size prot vflags = record {
  start = start;
  end = (start + size) % 2 ^ 64;
  prot = prot;
  flags = vflags;
}

check_vma_overlap-ok :
    (space : Vm) (v : Vma)
    → v.start ≤ v.end
    → v.end + page_size ≤ 2 ^ 64 - 1
    → IsChain space.areas
    → check_vma_overlap space v ≡ ok
    → IsArea v × AllFree (page_start v.start) (page_up v.end) space.areas
unfolding check_vma_overlap
check_vma_overlap-ok space v h room c g = elim (Bool-cases (leb kern_vma_base (page_up v.end))) [
  | inl i ↦ let g1 = rw i at g in ground (arith, g1)
  | inr i ↦ elim (Bool-cases (overlap_loop space.areas (page_start v.start) (page_up v.end))) [
    | inl j ↦ let g1 = rw (i, j) at g in ground (arith, g1)
    | inr j ↦
        let e : (v.end ≤ page_up v.end) × (page_up v.end % page_size ≡ 0) = ground arith in
        let a : IsArea v = (h, ground (arith, i, e)) in
        let le : page_start v.start ≤ page_up v.end =
          let low = page_start-bounds v.start in omega (arith, low, e, h) in
        (a, overlap_loop-AllFree space.areas (page_start v.start) (page_up v.end) c le j)
  ]
]

check_vma_overlap-free :
    (space : Vm) (v : Vma)
    → v.start < v.end
    → IsChain space.areas
    → page_up v.end < kern_vma_base
    → v.end + page_size ≤ 2 ^ 64 - 1
    → AllFree (page_start v.start) (page_up v.end) space.areas
    → check_vma_overlap space v ≡ ok
unfolding check_vma_overlap
check_vma_overlap-free space v h c low room f =
    let i : leb kern_vma_base (page_up v.end) ≡ false = ground (arith, low) in
    let lt : page_start v.start < page_up v.end = ground arith in
    rw (i, AllFree-overlap_loop space.areas (page_start v.start) (page_up v.end) c lt f) refl

check_vma_overlap-cases :
    (space : Vm) (v : Vma) → (check_vma_overlap space v ≡ ok) ⊎ (check_vma_overlap space v ≡ ebusy)
unfolding check_vma_overlap
check_vma_overlap-cases space v = ground arith

vm_create_vma-ok :
    (insert : List Vma → Vma → Option (List Vma)) (law : IsInsert insert)
    → (space : Vm) (start size prot vflags : ℕ) → IsChain space.areas
    → let v : Vma = new_area start size prot vflags in
      AllApart v space.areas
      → check_vma_overlap space v ≡ ok
      → vm_create_vma insert true space start size prot vflags
        ≡ done (ok, record space { areas = put (λ x. x.start) v space.areas })
unfolding vm_create_vma
vm_create_vma-ok insert law space start size prot vflags c apart i =
    let v : Vma = new_area start size prot vflags in
    let place =
      law.insert_new space.areas v (IsChain-IsSorted space.areas c)
        (AllApart-has_key v space.areas apart) in
    rw (i, place) refl

vm_create_vma-ebusy :
    (insert : List Vma → Vma → Option (List Vma)) (space : Vm) (start size prot vflags : ℕ)
    → check_vma_overlap space (new_area start size prot vflags) ≡ ebusy
    → vm_create_vma insert true space start size prot vflags ≡ done (ebusy, space)
unfolding vm_create_vma
vm_create_vma-ebusy insert space start size prot vflags j = rw j refl

-- An area that the code is asked for ends in the address space, with a page to spare, the tree of areas is in order,
-- and its insertion puts a new start at its place: no assertion fails, and either the area is put in its place, apart from all others, or the address space is
-- as it was, for want of memory or because the area is refused.
pub vm_create_vma-IsChain :
    (insert : List Vma → Vma → Option (List Vma)) (law : IsInsert insert)
    → (memory : Bool) (space : Vm) (start size prot vflags : ℕ) → start + size + page_size < 2 ^ 64
    → IsChain space.areas
    → let v : Vma = new_area start size prot vflags in
      let grown : List Vma = put (λ x. x.start) v space.areas in
      ((vm_create_vma insert memory space start size prot vflags
          ≡ done (ok, record space { areas = grown }))
        × IsArea v
        × AllFree (page_start v.start) (page_up v.end) space.areas
        × IsChain grown)
      ⊎ (vm_create_vma insert memory space start size prot vflags ≡ done (enomem, space))
      ⊎ (vm_create_vma insert memory space start size prot vflags ≡ done (ebusy, space))
unfolding vm_create_vma
vm_create_vma-IsChain insert law false space start size prot vflags room c = inr (inl refl)
vm_create_vma-IsChain insert law true space start size prot vflags room c =
    let v : Vma = new_area start size prot vflags in
    elim (check_vma_overlap-cases space v) [
      | inr j ↦ inr (inr (vm_create_vma-ebusy insert space start size prot vflags j))
      | inl i ↦
          let e : v.end ≡ start + size = omega (arith, room) in
          let f = check_vma_overlap-ok space v (omega (arith, e)) (omega (arith, e, room)) c i in
          let apart = AllFree-AllApart v space.areas f.0 c f.1 in
          inl (
            vm_create_vma-ok insert law space start size prot vflags c apart i,
            f.0,
            f.1,
            put-IsChain v space.areas f.0 apart c,
          )
    ]

-- Where there is memory, with areas in order and such an insertion, an area that is not empty and has a page to spare
-- is made exactly if the end of its last page lies below the kernel's part and every other area starts behind that end,
-- or starts before its pages and ends at their start or before.
pub vm_create_vma-granted :
    (insert : List Vma → Vma → Option (List Vma)) (law : IsInsert insert)
    → (space : Vm) (start size prot vflags : ℕ) → 0 < size
    → start + size + page_size < 2 ^ 64
    → IsChain space.areas
    → let v : Vma = new_area start size prot vflags in
      (vm_create_vma insert true space start size prot vflags
        ≡ done (ok, record space { areas = put (λ x. x.start) v space.areas }))
      ↔ ((page_up v.end < kern_vma_base) × AllFree (page_start v.start) (page_up v.end) space.areas)
vm_create_vma-granted insert law space start size prot vflags pos room c =
    let v : Vma = new_area start size prot vflags in
    let e : v.end ≡ start + size = omega (arith, room) in
    let v_ok : v.start < v.end = omega (arith, e, pos) in
    let v_room : v.end + page_size ≤ 2 ^ 64 - 1 = omega (arith, e, room) in
    (
      λ p. elim (check_vma_overlap-cases space v) [
        | inl i ↦
            let f = check_vma_overlap-ok space v (omega (arith, v_ok)) v_room c i in
            let up = page_up-bounds v.end f.0.1 in (omega (arith, up, f.0.1), f.1)
        | inr j ↦
            let q = vm_create_vma-ebusy insert space start size prot vflags j in
            ground (arith, sym q ∙ p)
      ],
      λ f.
          let i = check_vma_overlap-free space v v_ok c f.0 v_room f.1 in
          let g = check_vma_overlap-ok space v (omega (arith, v_ok)) v_room c i in
          vm_create_vma-ok insert law space start size prot vflags c
            (AllFree-AllApart v space.areas g.0 c f.1) i,
    )
