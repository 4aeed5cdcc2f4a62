-- ===== src/Common/LinkedList.antt =====
-- src/include/common/list.hpp: a doubly linked list whose nodes carry their links. A node is known by
-- its address, so a function that changes it changes it for every list and every pointer.
pub mod Segments
pub mod Unlinking
pub mod Deque
pub mod Removal
pub mod Refinement
use dbms.Prelude.{ℕ, zero, suc, Option, none, some, Bool, true, false, ◌&&◌, ◌==◌, if◌then◌else◌}

-- The members `prev_` and `next_` of the nodes; `none` is NULL. What a node inherits from `T` no
-- function here reads.
pub record Nodes : Type 0 where
  pub prev : ℕ → Option ℕ
  pub next : ℕ → Option ℕ

abbrev pub assign : (ℕ → Option ℕ) → ℕ → Option ℕ → ℕ → Option ℕ
assign f node p k = if k == node then p else f k

abbrev pub set_prev : ℕ → Option ℕ → Nodes → Nodes
set_prev node p n = record n { prev = assign n.prev node p }

abbrev pub set_next : ℕ → Option ℕ → Nodes → Nodes
set_next node p n = record n { next = assign n.next node p }

-- an assignment through a pointer that may be NULL, under the test that it is not
abbrev pub set_prev_of : Option ℕ → Option ℕ → Nodes → Nodes
set_prev_of none p n = n
set_prev_of (some node) p n = set_prev node p n

abbrev pub set_next_of : Option ℕ → Option ℕ → Nodes → Nodes
set_next_of none p n = n
set_next_of (some node) p n = set_next node p n

-- `LinkToRight` and `LinkToLeft`
abbrev pub link_to_right : ℕ → ℕ → Nodes → Nodes
link_to_right this right_node n =
    set_prev right_node (some this) (set_next this (some right_node) n)

abbrev pub link_to_left : ℕ → ℕ → Nodes → Nodes
link_to_left this left_node n = set_prev this (some left_node) (set_next left_node (some this) n)

-- `ListNode::Remove`; each member is read when it is used
unfoldable pub unlink : ℕ → Nodes → Nodes
unlink this n =
    let n₁ = set_next_of (n.prev this) (n.next this) n in
    let n₂ = set_prev_of (n₁.next this) (n₁.prev this) n₁ in
    set_next this none (set_prev this none n₂)

-- `First`: the loop goes to the left; none where its fuel is used up
unfoldable pub first : ℕ → ℕ → Nodes → Option ℕ
first zero p n = none
first (suc fuel) p n = elim (n.prev p) [ none ↦ some p | some q ↦ first fuel q n ]

-- `List`
pub record LinkedList : Type 0 where
  pub head : Option ℕ
  pub tail : Option ℕ

-- the constructor
abbrev pub empty : LinkedList
empty = record { head = none; tail = none }

-- the test of two pointers
abbrev pub same_node : Option ℕ → Option ℕ → Bool
same_node none none = true
same_node none (some q) = false
same_node (some p) none = false
same_node (some p) (some q) = p == q

-- A failed `assert` and a NULL that is followed are `none`.
unfoldable pub push_back : ℕ → LinkedList → Nodes → Option (LinkedList × Nodes)
push_back node l n = elim l.tail [
  | none ↦ elim l.head [
    | none ↦ some (record { head = some node; tail = some node }, n)
    | some h ↦ none
  ]
  | some t ↦ some (record l { tail = some node }, link_to_right t node n)
]

unfoldable pub push_front : ℕ → LinkedList → Nodes → Option (LinkedList × Nodes)
push_front node l n = elim l.head [
  | none ↦ elim l.tail [
    | none ↦ some (record { head = some node; tail = some node }, n)
    | some t ↦ none
  ]
  | some h ↦ some (record l { head = some node }, link_to_left h node n)
]

-- the asserts where head and tail are one node: it has no neighbours
abbrev pub is_alone : Option ℕ → Nodes → Bool
is_alone none n = true
is_alone (some p) n = same_node (n.next p) none && same_node (n.prev p) none

-- The last statements of the two functions: where there is a node, it is cut off.
abbrev pub cut_off : Option ℕ → LinkedList → Nodes → Option (Option ℕ × LinkedList × Nodes)
cut_off none l n = some (none, l, n)
cut_off (some node) l n = some (some node, l, unlink node n)

unfoldable pub pop_front : LinkedList → Nodes → Option (Option ℕ × LinkedList × Nodes)
unfolding unlink
pop_front l n =
    if same_node l.head l.tail
    then (if is_alone l.head n then cut_off l.head empty n else none)
    else elim l.head [ none ↦ none | some h ↦ cut_off l.head (record l { head = n.next h }) n ]

unfoldable pub pop_back : LinkedList → Nodes → Option (Option ℕ × LinkedList × Nodes)
unfolding unlink
pop_back l n =
    if same_node l.head l.tail
    then (if is_alone l.tail n then cut_off l.tail empty n else none)
    else elim l.tail [ none ↦ none | some t ↦ cut_off l.tail (record l { tail = n.prev t }) n ]

-- `List::Remove`
unfoldable pub remove : ℕ → LinkedList → Nodes → LinkedList × Nodes
unfolding unlink
remove node l n =
    let head = if same_node (some node) l.head then n.next node else l.head in
    let tail = if same_node (some node) l.tail then n.prev node else l.tail in
    (record { head = head; tail = tail }, unlink node n)
