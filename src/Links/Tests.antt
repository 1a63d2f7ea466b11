-- ===== src/Links/Tests.antt =====
-- Runs of the queue operations at concrete addresses.
use yatos.Prelude.{◌≡◌, refl, true, false, List, [], ◌∷◌, ◌==◌, if◌then◌else◌}
use yatos.Links.{Mem}
use yatos.Links.Paths.{IsQueue}
use yatos.Links.Refine.{
  Call, add, add_top, del, get_top, get_last, is_empty, Reply, unit, node, bool, run, run_spec,
  spec, run_refines,
}

-- the head of an empty queue at address 100; other nodes are linked to themselves
abbrev blank : Mem
blank = record { prev = λ p. p; next = λ p. p }

blank-IsQueue : IsQueue blank 100 []
blank-IsQueue = record { linked = tt; next_last = refl; prev_head = refl; distinct = (refl, tt) }

abbrev calls : List Call
calls = is_empty ∷ add 1 ∷ add 2 ∷ add_top 3 ∷ get_last ∷ del 3 ∷ is_empty ∷ get_top ∷ []

abbrev replies : List Reply
replies = bool true ∷ unit ∷ unit ∷ unit ∷ node 2 ∷ unit ∷ bool false ∷ node 1 ∷ []

run_refines_example : ((run blank 100 calls).0 ≡ replies) × IsQueue (run blank 100 calls).1 100 []
unfolding run_spec spec
run_refines_example = run_refines blank 100 [] calls replies [] blank-IsQueue refl

-- 100, 1, 2 in a ring
abbrev two_nodes : Mem
two_nodes = record {
  prev = λ p. if p == 100 then 2 else if p == 1 then 100 else if p == 2 then 1 else p;
  next = λ p. if p == 100 then 1 else if p == 1 then 2 else if p == 2 then 100 else p;
}

two_nodes-IsQueue : IsQueue two_nodes 100 (1 ∷ 2 ∷ [])
two_nodes-IsQueue = record {
  linked = (refl, refl, (refl, refl, tt));
  next_last = refl;
  prev_head = refl;
  distinct = (refl, (refl, (refl, tt)));
}
