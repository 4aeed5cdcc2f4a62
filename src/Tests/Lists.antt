-- ===== src/Tests/Lists.antt =====
-- Linked lists.
use dbms.Prelude.{◌≡◌, refl, arith, some, none, List, [], ◌∷◌}
use dbms.Common.LinkedList.{Nodes, empty}
use dbms.Common.LinkedList.Deque.{Represents}
use dbms.Common.LinkedList.Refinement.{
  Call, at_back, at_front, take_front, take_back, take, run, run_refines,
}

-- nodes without links
abbrev nodes : Nodes
nodes = record { prev = λ k. none; next = λ k. none }

empty-Represents : Represents nodes empty []
empty-Represents = record {
  at_head = refl;
  at_tail = refl;
  distinct = tt;
  linked = tt;
  free = λ z o. (refl, refl);
}

abbrev calls : List Call
calls = at_back 4 ∷ at_back 7 ∷ at_front 2 ∷ take 4 ∷ take_back ∷ take_front ∷ take_front ∷ []

run_refines_example :
    run calls empty nodes ≡ some (none ∷ none ∷ none ∷ none ∷ some 7 ∷ some 2 ∷ none ∷ [])
run_refines_example = run_refines calls nodes empty [] empty-Represents (omega arith)
