-- ===== src/Vm/Access.antt =====
-- vm/vm.c and vm/vm-copy-inout.c: the area of an address is the only one, and what a passed access test says of every
-- byte of the range.
use yatos.Prelude.{
  ℕ, zero, suc, ◌+◌, ◌%◌, ◌^◌, ◌≤◌, ◌<◌, ◌≡◌, ◌↔◌, ◌≢◌, sym, refl, inl, inr, arith, true, false,
  not, ltb, ◌==◌, if◌then◌else◌, Bool-cases, List, [], ◌∷◌, get_elem?, Option, none, some,
}
use Prim.Native.Nat.{bit_and}
use yatos.Vm.Space.{
  page_size, page_start, page_up, Vma, Vm, contains, find_loop, vm_find_vma, user_area_can_access,
}
use yatos.Vm.Order.{IsArea, Below, AllBelow, IsChain, page_up-bounds, page_start-bounds}

Below-contains :
    (u v : Vma) (a : ℕ) → IsArea u → Below u v → contains u a ≡ true → contains v a ≡ false
Below-contains u v a au h c =
    let up = page_up-bounds u.end au.1 in
    let low = page_start-bounds v.start in ground (arith, up, low, h, c)

AllBelow-at :
    (u : Vma) (l : List Vma) (i : ℕ) (v : Vma) → AllBelow u l → get_elem? l i ≡ some v → Below u v
AllBelow-at u [] i v b h = ground (arith, h)
AllBelow-at u (w ∷ ws) zero v b h = let e : w ≡ v = cc in rw (sym e) b.0
AllBelow-at u (w ∷ ws) (suc i) v b h = AllBelow-at u ws i v b.1 h

find_loop-at :
    (l : List Vma) (i a : ℕ) (r : ℕ × Vma)
    → find_loop l i a ≡ some r
    → (k : ℕ) × (r.0 ≡ i + k) × (get_elem? l k ≡ some r.1) × (contains r.1 a ≡ true)
unfolding find_loop
find_loop-at [] i a r h = ground (arith, h)
find_loop-at (v ∷ vs) i a r h = elim (Bool-cases (contains v a)) [
  | inl y ↦ let h1 = rw y at h in let e : (i, v) ≡ r = cc in rw (sym e) (0, omega arith, refl, y)
  | inr n ↦
      let h1 = rw n at h in
      let (k, e, g, c) = find_loop-at vs (suc i) a r h1 in (suc k, omega (arith, e), g, c)
]

at-find_loop :
    (l : List Vma) (i a k : ℕ) (v : Vma)
    → IsChain l
    → get_elem? l k ≡ some v
    → contains v a ≡ true
    → find_loop l i a ≡ some (i + k, v)
unfolding find_loop
at-find_loop [] i a k v c h y = ground (arith, h)
at-find_loop (w ∷ ws) i a zero v c h y =
    let e : w ≡ v = cc in
    let here : contains w a ≡ true = rw e y in
    let z : i + 0 ≡ i = omega arith in rw (here, e, z) refl
at-find_loop (w ∷ ws) i a (suc k) v c h y = elim (Bool-cases (contains w a)) [
  | inl x ↦
      let other = Below-contains w v a c.0 (AllBelow-at w ws k v c.1 h) x in
      ground (arith, y, other)
  | inr x ↦
      let z : i + suc k ≡ suc i + k = omega arith in
      rw (x, z) (at-find_loop ws (suc i) a k v c.2 h y)
]

-- In an address space whose areas are in order, the search gives an area at a place exactly if that area stands there
-- and holds the address: no address is in two areas.
pub vm_find_vma-found :
    (space : Vm) (vaddr k : ℕ) (v : Vma)
    → IsChain space.areas
    → (vm_find_vma space vaddr ≡ some (k, v))
      ↔ ((get_elem? space.areas k ≡ some v) × (contains v vaddr ≡ true))
unfolding vm_find_vma
vm_find_vma-found space vaddr k v c = (
  λ h.
      let (j, e, g, y) = find_loop-at space.areas 0 vaddr (k, v) h in
      let same : j ≡ k = omega (arith, e) in (rw (sym same) g, y),
  λ p.
      let z : 0 + k ≡ k = omega arith in
      let found = at-find_loop space.areas 0 vaddr k v c p.0 p.1 in rw z at found,
)

user_area_can_access-area :
    (space : Vm) (start count prot : ℕ)
    → user_area_can_access space start count prot ≡ true
    → (k : ℕ) × (v : Vma) × (vm_find_vma space (page_start start) ≡ some (k, v))
      × (page_up ((start + count) % 2 ^ 64) ≤ v.end)
      × (bit_and v.prot prot ≢ 0)
unfolding user_area_can_access vm_find_vma
user_area_can_access-area space start count prot h =
    go (find_loop space.areas 0 (page_start start)) refl h
  where
    go :
        (o : Option (ℕ × Vma))
        → find_loop space.areas 0 (page_start start) ≡ o
        → (elim o [
          | none ↦ false
          | some (i, v) ↦
              if ltb v.end (page_up ((start + count) % 2 ^ 64))
              then false
              else not (bit_and v.prot prot == 0)
        ])
          ≡ true
        → (k : ℕ) × (v : Vma) × (find_loop space.areas 0 (page_start start) ≡ some (k, v))
          × (page_up ((start + count) % 2 ^ 64) ≤ v.end)
          × (bit_and v.prot prot ≢ 0)
    go none i h = ground (arith, h)
    go (some (k, v)) i h = (k, v, i, ground (arith, h), ground (arith, h))

le-page_up : (a : ℕ) → a + page_size < 2 ^ 64 → a ≤ page_up a
le-page_up a h = ground arith

contains-next :
    (v : Vma) (start a e : ℕ)
    → contains v (page_start start) ≡ true
    → start ≤ a
    → a < e
    → e ≤ v.end
    → contains v a ≡ true
contains-next v start a e y h g le = ground arith

-- Where the access test answers yes for a range that does not reach the last page of the address space, in an address
-- space whose areas are in order, every byte of the range lies in an area, and all in the same: the one that holds its
-- first page, and its protection has an access that was asked for.
pub user_area_can_access-bytes :
    (space : Vm) (start count prot a : ℕ)
    → IsChain space.areas
    → start + count + page_size < 2 ^ 64
    → user_area_can_access space start count prot ≡ true
    → start ≤ a
    → a < start + count
    → (k : ℕ) × (v : Vma) × (vm_find_vma space (page_start start) ≡ some (k, v))
      × (vm_find_vma space a ≡ some (k, v))
      × (a < v.end)
      × (bit_and v.prot prot ≢ 0)
user_area_can_access-bytes space start count prot a c room h from to =
    let (k, v, i, le, p) = user_area_can_access-area space start count prot h in
    let (g, y) = (vm_find_vma-found space (page_start start) k v c).0 i in
    let e : a < (start + count) % 2 ^ 64 = omega arith in
    let up : (start + count) % 2 ^ 64 ≤ page_up ((start + count) % 2 ^ 64) =
      le-page_up ((start + count) % 2 ^ 64) (omega arith) in
    let below : a < v.end = omega (arith, e, up, le) in
    let y2 = contains-next v start a (suc a) y from (omega arith) below in
    (k, v, i, (vm_find_vma-found space a k v c).1 (g, y2), below, p)
