-- ===== src/Timer/Fire.antt =====
-- tim/timer.c: which call-outs a tick calls.
use yatos.Prelude.{
  ℕ, zero, suc, ◌≤◌, ◌<◌, ◌≡◌, refl, sym, ap, ◌∙◌, inl, inr, arith, true, false, leb, ltb, ◌==◌,
  if◌then◌else◌, Bool-cases, List, [], ◌∷◌, ◌++◌, length, append_one, some,
}
use mathlib.Core.Path.{subst}
use yatos.Timer.{callout_loop, tim_invoke_callout}
use yatos.Timer.Trees.{Callout, Tree, IsTree, AllAbove, IsSorted, drop_key, first, first_above}

-- the call-outs that are due at a tick, and those that are not
abbrev pub due : ℕ → List Callout → List ℕ
due cur [] = []
due cur (c ∷ cs) = let rest = due cur cs in if leb c.expire cur then c.data_of ∷ rest else rest

abbrev pub not_due : ℕ → List Callout → List Callout
not_due cur [] = []
not_due cur (c ∷ cs) = let rest = not_due cur cs in if leb c.expire cur then rest else c ∷ rest

AllAbove-append :
    (e : ℕ) (pre : List Callout) (c : Callout) (cs : List Callout)
    → AllAbove e (pre ++ (c ∷ cs))
    → e < c.expire
AllAbove-append e [] c cs h = h.0
AllAbove-append e (p ∷ pre) c cs h = AllAbove-append e pre c cs h.1

first_above-first : (e : ℕ) (cs : List Callout) → AllAbove e cs → first_above e cs ≡ first cs
first_above-first e [] h = refl
first_above-first e (c ∷ cs) h = ground (arith, h.0)

-- In a sorted tree the element after c is the next one of the list,
first_above-next :
    (pre : List Callout) (c : Callout) (cs : List Callout)
    → IsSorted (pre ++ (c ∷ cs))
    → first_above c.expire (pre ++ (c ∷ cs)) ≡ first cs
first_above-next [] c cs s =
    let not_above : ltb c.expire c.expire ≡ false = ground arith in
    rw not_above (first_above-first c.expire cs s.0)
first_above-next (p ∷ pre) c cs s =
    let before = AllAbove-append p.expire pre c cs s.0 in
    let not_above : ltb c.expire p.expire ≡ false = ground (arith, before) in
    rw not_above (first_above-next pre c cs s.1)

-- and removing c leaves the others.
drop_key-here :
    (pre : List Callout) (c : Callout) (cs : List Callout)
    → IsSorted (pre ++ (c ∷ cs))
    → drop_key c.expire (pre ++ (c ∷ cs)) ≡ pre ++ cs
drop_key-here [] c cs s = let here : (c.expire == c.expire) ≡ true = ground arith in rw here refl
drop_key-here (p ∷ pre) c cs s =
    let before = AllAbove-append p.expire pre c cs s.0 in
    let other : (p.expire == c.expire) ≡ false = ground (arith, before) in
    rw other (ap (λ l. p ∷ l) (drop_key-here pre c cs s.1))

module _ (T : Tree) (laws : IsTree T) (cur : ℕ) where
  callout_loop-fires :
      (rest : List Callout) (fuel : ℕ) (que : T.Carrier) (pre : List Callout)
      → length rest ≤ fuel
      → T.items que ≡ pre ++ rest
      → (q : T.Carrier) × (callout_loop T fuel que (first rest) cur ≡ some (due cur rest, q))
        × (T.items q ≡ pre ++ not_due cur rest)
  unfolding callout_loop
  callout_loop-fires [] fuel que pre h e = (que, refl, e)
  callout_loop-fires (c ∷ rest) zero que pre h e = absurd (omega arith)
  callout_loop-fires (c ∷ rest) (suc fuel) que pre h e =
      let sorted = subst IsSorted e (laws.sorted que) in
      let after : T.next que c ≡ first rest =
        laws.next_items que c ∙ ap (first_above c.expire) e ∙ first_above-next pre c rest sorted in
      let removed : T.items (T.remove que c) ≡ pre ++ rest =
        laws.remove_items que c ∙ ap (drop_key c.expire) e ∙ drop_key-here pre c rest sorted in
      elim (Bool-cases (leb c.expire cur)) [
        | inl now ↦
            let (q, eq, k) =
              callout_loop-fires rest fuel (T.remove que c) pre (omega arith) removed in
            (q, rw (now, after, eq) refl, rw now k)
        | inr not_yet ↦
            let (q, eq, k) =
              callout_loop-fires rest fuel que (pre ++ (c ∷ [])) (omega arith)
                (e ∙ sym (append_one pre c rest)) in
            (q, rw (not_yet, after) eq, rw not_yet (k ∙ append_one pre c (not_due cur rest)))
      ]

  -- With as many rounds as there are call-outs, the loop of a tick ends: it calls every call-out that is
  -- due, once, in the order of their ticks, and no other; those that are not due stay in the tree.
  pub tim_invoke_callout-fires :
      (fuel : ℕ) (que : T.Carrier)
      → length (T.items que) ≤ fuel
      → (q : T.Carrier) × (tim_invoke_callout T fuel que cur ≡ some (due cur (T.items que), q))
        × (T.items q ≡ not_due cur (T.items que))
  unfolding tim_invoke_callout
  tim_invoke_callout-fires fuel que h =
      let (q, e, k) = callout_loop-fires (T.items que) fuel que [] h refl in
      (q, rw (laws.min_items que) e, k)
