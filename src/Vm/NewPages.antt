-- ===== src/Vm/NewPages.antt =====
-- vm/vm.c: map_newpage_range gives every page of the range a new page, or takes back those it has given.
use yatos.Prelude.{
  ℕ, zero, suc, ◌+◌, ◌*◌, ◌≤◌, ◌<◌, ◌≡◌, ◌≢◌, refl, sym, ◌∙◌, inl, inr, ◌⊎◌, arith, true, ltb,
  Bool-cases, List, [], ◌∷◌, length, get_or, drop, none, some, done, ok, enomem,
}
use yatos.Vm.Space.{page_size, Vm}
use yatos.Vm.Pages.{
  page_no, set_used, get_free_page, inc_page_map_count, page_rounds, unmap_range, map_loop,
  map_newpage_range,
}
use yatos.Vm.Ranges.{unmap_range-Unmaps, set_page-other}
use yatos.Vm.Mapping.{HasTables, entry_of, mapped, hal_map_user_page-maps, mapped-pages}

-- The `n` pages from the page number `p` on are mapped to the first `n` pages of the page allocator, in order, and
-- these are taken off; the areas and all other pages stay as they are.
pub record MapsNew (p n prot : ℕ) (s s' : Vm) : Type 0 where
  pub inside : (j : ℕ) → j < n → s'.pages (p + j) ≡ some (entry_of (get_or s.free_pages j 0) prot)
  pub outside : (k : ℕ) → (k < p) ⊎ (p + n ≤ k) → s'.pages k ≡ s.pages k
  pub areas_kept : s'.areas ≡ s.areas
  pub free_taken : s'.free_pages ≡ drop n s.free_pages

mapped-other :
    (s : Vm) (vaddr q prot k : ℕ) → k ≢ page_no vaddr → (mapped s vaddr q prot).pages k ≡ s.pages k
unfolding inc_page_map_count
mapped-other s vaddr q prot k h = set_page-other s (page_no vaddr) k (some (entry_of q prot)) h

-- the state behind one round, with `q` the page that was first
abbrev round_state : Vm → ℕ → List ℕ → ℕ → ℕ → Vm
round_state s q qs vaddr prot = mapped (set_used (record s { free_pages = qs }) q true) vaddr q prot

-- The pages that are left have their tables too.
next_tables :
    (s : Vm) (q : ℕ) (qs : List ℕ) (vaddr prot n : ℕ)
    → ((j : ℕ) → j < suc n → HasTables s (page_no vaddr + j))
    → (j : ℕ) → j < n
    → HasTables (round_state s q qs vaddr prot) (page_no (vaddr + page_size) + j)
unfolding inc_page_map_count
next_tables s q qs vaddr prot n t j lt =
    let e : page_no vaddr + suc j ≡ page_no (vaddr + page_size) + j = omega arith in
    let there = t (suc j) (omega arith) in rw e at there

first_tables :
    (s : Vm) (vaddr n : ℕ)
    → ((j : ℕ) → j < suc n → HasTables s (page_no vaddr + j))
    → HasTables s (page_no vaddr)
first_tables s vaddr n t =
    let e : page_no vaddr + 0 ≡ page_no vaddr = omega arith in
    let there = t 0 (omega arith) in rw e at there

map_loop-round :
    (n : ℕ) (s : Vm) (start vaddr prot q : ℕ) (qs : List ℕ)
    → prot ≢ 0
    → HasTables s (page_no vaddr)
    → s.free_pages ≡ q ∷ qs
    → map_loop (suc n) s start vaddr prot
      ≡ map_loop n (round_state s q qs vaddr prot) start (vaddr + page_size) prot
unfolding map_loop get_free_page
map_loop-round n s start vaddr prot q qs h t f =
    let taken = set_used (record s { free_pages = qs }) q true in
    rw (f, hal_map_user_page-maps taken vaddr q prot h t) refl

MapsNew-inside :
    (s : Vm) (vaddr prot q : ℕ) (qs : List ℕ) (n : ℕ) (s' : Vm)
    → MapsNew (page_no vaddr + 1) n prot (round_state s q qs vaddr prot) s'
    → (j : ℕ) → j < suc n
    → s'.pages (page_no vaddr + j) ≡ some (entry_of (get_or (q ∷ qs) j 0) prot)
unfolding inc_page_map_count
MapsNew-inside s vaddr prot q qs n s' r zero h =
    let e : page_no vaddr + 0 ≡ page_no vaddr = omega arith in
    let first = mapped-pages (set_used (record s { free_pages = qs }) q true) vaddr q prot in
    rw e (r.outside (page_no vaddr) (inl (omega arith)) ∙ first)
MapsNew-inside s vaddr prot q qs n s' r (suc j) h =
    let e : page_no vaddr + suc j ≡ page_no vaddr + 1 + j = omega arith in
    rw e (r.inside j (omega arith))

MapsNew-round :
    (s : Vm) (vaddr prot q : ℕ) (qs : List ℕ) (n : ℕ) (s' : Vm)
    → s.free_pages ≡ q ∷ qs
    → MapsNew (page_no vaddr + 1) n prot (round_state s q qs vaddr prot) s'
    → MapsNew (page_no vaddr) (suc n) prot s s'
unfolding inc_page_map_count
MapsNew-round s vaddr prot q qs n s' f r =
    let taken = set_used (record s { free_pages = qs }) q true in
    record {
      inside = rw f (MapsNew-inside s vaddr prot q qs n s' r);
      outside = λ k o. elim o [
        | inl h ↦ r.outside k (inl (omega arith)) ∙ mapped-other taken vaddr q prot k (omega arith)
        | inr h ↦ r.outside k (inr (omega arith)) ∙ mapped-other taken vaddr q prot k (omega arith)
      ];
      areas_kept = r.areas_kept;
      free_taken = rw f r.free_taken;
    }

list_head : (l : List ℕ) → (l ≡ []) ⊎ ((q : ℕ) × (qs : List ℕ) × (l ≡ q ∷ qs))
list_head [] = inl refl
list_head (q ∷ qs) = inr (q, qs, refl)

map_loop-MapsNew :
    (n : ℕ) (s : Vm) (start vaddr prot : ℕ)
    → ((j : ℕ) → j < n → HasTables s (page_no vaddr + j))
    → prot ≢ 0
    → n ≤ length s.free_pages
    → (s' : Vm) × (map_loop n s start vaddr prot ≡ done (ok, s'))
      × MapsNew (page_no vaddr) n prot s s'
unfolding map_loop
map_loop-MapsNew zero s start vaddr prot t h room = (
  s,
  refl,
  record {
    inside = λ j b. absurd (omega arith);
    outside = λ k o. refl;
    areas_kept = refl;
    free_taken = refl;
  },
)
map_loop-MapsNew (suc n) s start vaddr prot t h room = elim (list_head s.free_pages) [
  | inl e ↦ let none_left : length s.free_pages ≡ 0 = rw e refl in absurd (omega arith)
  | inr (q, qs, f) ↦
      let count : length s.free_pages ≡ suc (length qs) = rw f refl in
      let next : page_no (vaddr + page_size) ≡ page_no vaddr + 1 = omega arith in
      let s1 = round_state s q qs vaddr prot in
      let (s', run, r) =
        map_loop-MapsNew n s1 start (vaddr + page_size) prot (next_tables s q qs vaddr prot n t) h
          (omega arith) in
      let round = map_loop-round n s start vaddr prot q qs h (first_tables s vaddr n t) f in
      (s', round ∙ run, MapsNew-round s vaddr prot q qs n s' f (rw next at r))
]

-- The `n` pages from the page number `p` on are not mapped, the page allocator has no page left, and the areas and all
-- other pages stay as they are.
pub record RollsBack (p n : ℕ) (s s' : Vm) : Type 0 where
  pub inside : (k : ℕ) → p ≤ k → k < p + n → s'.pages k ≡ none
  pub outside : (k : ℕ) → (k < p) ⊎ (p + n ≤ k) → s'.pages k ≡ s.pages k
  pub areas_kept : s'.areas ≡ s.areas
  pub free_gone : s'.free_pages ≡ []

map_loop-empty :
    (n : ℕ) (s : Vm) (start vaddr prot : ℕ)
    → s.free_pages ≡ []
    → map_loop (suc n) s start vaddr prot ≡ done (enomem, (unmap_range s start vaddr).1)
unfolding map_loop get_free_page
map_loop-empty n s start vaddr prot f = rw f refl

map_loop-RollsBack :
    (n : ℕ) (s : Vm) (start m prot : ℕ)
    → ((j : ℕ) → j < n → HasTables s (page_no (start + page_size * m) + j))
    → prot ≢ 0
    → length s.free_pages < n
    → (s' : Vm) × (map_loop n s start (start + page_size * m) prot ≡ done (enomem, s'))
      × RollsBack (page_no start) (m + length s.free_pages) s s'
unfolding inc_page_map_count
map_loop-RollsBack zero s start m prot t h short = absurd (omega arith)
map_loop-RollsBack (suc n) s start m prot t h short =
    let vaddr : ℕ = start + page_size * m in
    elim (list_head s.free_pages) [
      | inl e ↦
          let u = unmap_range-Unmaps s start m in
          let size : m + length s.free_pages ≡ m = rw e (omega arith) in
          (
            (unmap_range s start vaddr).1,
            map_loop-empty n s start vaddr prot e,
            rw size (record {
              inside = u.inside;
              outside = u.outside;
              areas_kept = u.areas_kept;
              free_gone = u.free_kept ∙ e;
            }),
          )
      | inr (q, qs, f) ↦
          let count : length s.free_pages ≡ suc (length qs) = rw f refl in
          let next : start + page_size * m + page_size ≡ start + page_size * suc m = omega arith in
          let there : page_no (start + page_size * m) ≡ page_no start + m = omega arith in
          let size : suc m + length qs ≡ m + length s.free_pages = omega (arith, count) in
          let s1 = round_state s q qs vaddr prot in
          let taken = set_used (record s { free_pages = qs }) q true in
          let t1 : (j : ℕ) → j < n → HasTables s1 (page_no (start + page_size * suc m) + j) =
            rw (sym next) (next_tables s q qs vaddr prot n t) in
          let (s', run, r0) = map_loop-RollsBack n s1 start (suc m) prot t1 h (omega arith) in
          let r = rw size at r0 in
          let round = map_loop-round n s start vaddr prot q qs h (first_tables s vaddr n t) f in
          (
            s',
            round ∙ rw next run,
            record {
              inside = r.inside;
              outside = λ k o.
                  r.outside k o
                  ∙ mapped-other taken vaddr q prot k
                      (elim o [ inl g ↦ omega (arith, there) | inr g ↦ omega (arith, there) ]);
              areas_kept = r.areas_kept;
              free_gone = r.free_gone;
            },
          )
    ]

-- The loop that begins at its first page is that of map_newpage_range.
rolled_back :
    (n : ℕ) (s : Vm) (start prot : ℕ)
    → (s' : Vm) × (map_loop n s start (start + page_size * 0) prot ≡ done (enomem, s'))
      × RollsBack (page_no start) (0 + length s.free_pages) s s'
    → (s' : Vm) × (map_newpage_range s start (start + page_size * n) prot ≡ done (enomem, s'))
      × RollsBack (page_no start) (length s.free_pages) s s'
unfolding map_newpage_range
rolled_back n s start prot (s', run, r) =
    let e : page_rounds start (start + page_size * n) ≡ n = omega arith in
    let z : start + page_size * 0 ≡ start = omega arith in
    let size : 0 + length s.free_pages ≡ length s.free_pages = omega arith in
    let run0 = rw z at run in let r0 = rw size at r in (s', rw e run0, r0)

-- For a range of a whole number of pages, with a protection, and with the page tables above its entries: if the page allocator
-- has as many pages, each page of the range gets one of its own and the answer is 0; otherwise the answer is -ENOMEM,
-- and the pages of the range that had been given one are unmapped again, but the page allocator is left empty.
pub map_newpage_range-maps :
    (s : Vm) (start n prot : ℕ)
    → ((j : ℕ) → j < n → HasTables s (page_no start + j))
    → prot ≢ 0
    → ((n ≤ length s.free_pages)
        × (s' : Vm) × (map_newpage_range s start (start + page_size * n) prot ≡ done (ok, s'))
        × MapsNew (page_no start) n prot s s')
      ⊎ ((length s.free_pages < n)
          × (s' : Vm) × (map_newpage_range s start (start + page_size * n) prot ≡ done (enomem, s'))
          × RollsBack (page_no start) (length s.free_pages) s s')
unfolding map_newpage_range
map_newpage_range-maps s start n prot t h =
    let e : page_rounds start (start + page_size * n) ≡ n = omega arith in
    let z : start + page_size * 0 ≡ start = omega arith in
    elim (Bool-cases (ltb (length s.free_pages) n)) [
      | inl i ↦
          let short : length s.free_pages < n = ground (arith, i) in
          let t0 : (j : ℕ) → j < n → HasTables s (page_no (start + page_size * 0) + j) = rw z t in
          let (s', run, r) =
            rolled_back n s start prot (map_loop-RollsBack n s start 0 prot t0 h short) in
          inr (short, s', run, r)
      | inr i ↦
          let room : n ≤ length s.free_pages = ground (arith, i) in
          let (s', run, r) = map_loop-MapsNew n s start start prot t h room in
          inl (room, s', rw e run, r)
    ]
