-- ===== src/Timer/Trees.antt =====
-- include/kern/timer.h, and the part of the tree macros that tim/timer.c uses, as an interface.
use yatos.Prelude.{
  ℕ, ◌≡◌, Bool, true, false, ltb, ◌==◌, if◌then◌else◌, List, [], ◌∷◌, Option, none, some,
}
use yatos.Prelude.Sorted

-- `timer_callout`, with the argument of its function; every call-out of the code has the function
-- timeout_handler
pub record Callout : Type 0 where
  pub tmout : ℕ
  pub expire : ℕ
  pub data_of : ℕ

-- the tree as its elements in order: RB_INSERT, which gives `none` where the key is taken, RB_REMOVE,
-- RB_MIN and RB_NEXT
pub record Tree : Type 1 where
  pub Carrier : Type 0
  pub items : Carrier → List Callout
  pub insert : Carrier → Callout → Option Carrier
  pub remove : Carrier → Callout → Carrier
  pub min : Carrier → Option Callout
  pub next : Carrier → Callout → Option Callout

-- the tick of a call-out is its key
abbrev pub expiry : Callout → ℕ
expiry c = c.expire

abbrev pub AllAbove : ℕ → List Callout → Type 0
AllAbove e cs = Sorted.AllAbove expiry e cs

abbrev pub IsSorted : List Callout → Type 0
IsSorted cs = Sorted.IsSorted expiry cs

abbrev pub has_key : ℕ → List Callout → Bool
has_key e cs = Sorted.has_key expiry e cs

abbrev pub put : Callout → List Callout → List Callout
put c cs = Sorted.put expiry c cs

abbrev pub drop_key : ℕ → List Callout → List Callout
drop_key e [] = []
drop_key e (c ∷ cs) = let rest = drop_key e cs in if c.expire == e then cs else c ∷ rest

abbrev pub first : List Callout → Option Callout
first [] = none
first (c ∷ cs) = some c

abbrev pub first_above : ℕ → List Callout → Option Callout
first_above e [] = none
first_above e (c ∷ cs) = let rest = first_above e cs in if ltb e c.expire then some c else rest

-- What the code relies on: the macros do to the elements in order what their documentation says.
pub record IsTree (T : Tree) : Type 0 where
  pub sorted : (t : T.Carrier) → IsSorted (T.items t)
  pub insert_old :
      (t : T.Carrier) (c : Callout) → has_key c.expire (T.items t) ≡ true → T.insert t c ≡ none
  pub insert_new :
      (t : T.Carrier) (c : Callout)
      → has_key c.expire (T.items t) ≡ false
      → (t' : T.Carrier) × (T.insert t c ≡ some t') × (T.items t' ≡ put c (T.items t))
  pub remove_items :
      (t : T.Carrier) (c : Callout) → T.items (T.remove t c) ≡ drop_key c.expire (T.items t)
  pub min_items : (t : T.Carrier) → T.min t ≡ first (T.items t)
  pub next_items : (t : T.Carrier) (c : Callout) → T.next t c ≡ first_above c.expire (T.items t)
