-- ===== src/Common/LinkedList/Deque.antt =====
-- `List` as a sequence of nodes.
use dbms.Prelude.{ℕ, ◌≡◌, ◌≢◌, refl, sym, ◌∙◌, Option, none, some, List, [], ◌∷◌, ◌++◌}
use dbms.Common.LinkedList.{
  Nodes, LinkedList, set_next, push_back, push_front, link_to_right, link_to_left,
}
use dbms.Common.LinkedList.Segments.{
  Seg, Outside, AreDistinct, first_or, last_or, assign-same, assign-other, Seg-append, set_prev-Seg,
  set_next-Seg, set_prev-Seg_first, set_next-Seg_last, Outside-append,
}
use dbms.Common.LinkedList.Unlinking.{
  IsFree, AreApart-one, AreDistinct-append, last_exists, Outside-last,
}

-- The list has these nodes in this order, linked in both directions, and all other nodes are free.
pub record Represents (n : Nodes) (l : LinkedList) (xs : List ℕ) : Type 0 where
  pub at_head : l.head ≡ first_or xs none
  pub at_tail : l.tail ≡ last_or none xs
  pub distinct : AreDistinct xs
  pub linked : Seg n none xs none
  pub free : (z : ℕ) → Outside z xs → IsFree n z

-- what a function leaves: the list represents these nodes
abbrev pub Leaves : Option (LinkedList × Nodes) → List ℕ → Type 0
Leaves r xs = (l : LinkedList) × (n : Nodes) × (r ≡ some (l, n)) × Represents n l xs

abbrev pub Yields : Option (Option ℕ × LinkedList × Nodes) → Option ℕ → List ℕ → Type 0
Yields r p xs = (l : LinkedList) × (n : Nodes) × (r ≡ some (p, l, n)) × Represents n l xs

pub last_or-append :
    (start : Option ℕ) (xs : List ℕ) (y : ℕ) → last_or start (xs ++ y ∷ []) ≡ some y
last_or-append start [] y = refl
last_or-append start (x ∷ xs) y = last_or-append (some x) xs y

-- a node that is alone in its list
one-Represents :
    (n : Nodes) (y : ℕ)
    → ((z : ℕ) → IsFree n z)
    → Represents n (record { head = some y; tail = some y }) (y ∷ [])
one-Represents n y free = record {
  at_head = refl;
  at_tail = refl;
  distinct = (tt, tt);
  linked = ((free y).0, (free y).1, tt);
  free = λ z o. free z;
}

link_to_right-Represents :
    (n : Nodes) (l : LinkedList) (x t y : ℕ) (xs : List ℕ)
    → Represents n l (x ∷ xs)
    → last_or (some x) xs ≡ some t
    → Outside y (x ∷ xs)
    → Represents (link_to_right t y n) (record l { tail = some y }) ((x ∷ xs) ++ y ∷ [])
link_to_right-Represents n l x t y xs r e o =
    let n₁ = set_next t (some y) n in
    let xs' = x ∷ xs in
    let ty : t ≢ y = λ f. Outside-last y x t xs o e (sym f) in
    record {
      at_head = r.at_head;
      at_tail = sym (last_or-append none xs' y);
      distinct = AreDistinct-append xs' (y ∷ []) r.distinct (tt, tt) (AreApart-one xs' y o);
      linked =
          Seg-append (link_to_right t y n) none none xs' (y ∷ [])
            (set_prev-Seg n₁ y (some t) none (some y) xs' o
              (set_next-Seg_last n x t (some y) none none xs r.distinct e r.linked))
            (
              assign-same n.prev y (some t) ∙ sym e,
              assign-other n.next t y (some y) ty ∙ (r.free y o).1,
              tt,
            );
      free = λ z oz.
          let (ox, (ne, oy)) = Outside-append z xs' (y ∷ []) oz in
          let (p, q) = r.free z ox in
          (
            assign-other n.prev y z (some t) (λ f. ne (sym f)) ∙ p,
            assign-other n.next t z (some y) (λ f. Outside-last z x t xs ox e (sym f)) ∙ q,
          );
    }

-- `PushBack` on a node that is not in the list puts it behind all others.
pub push_back-Represents :
    (n : Nodes) (l : LinkedList) (y : ℕ) (xs : List ℕ)
    → Represents n l xs
    → Outside y xs
    → Leaves (push_back y l n) (xs ++ y ∷ [])
unfolding push_back
push_back-Represents n l y [] r o = (
  record { head = some y; tail = some y },
  n,
  rw (push_back, r.at_tail) (rw r.at_head refl),
  one-Represents n y (λ z. r.free z tt),
)
push_back-Represents n l y (x ∷ xs) r o =
    let (t, e) = last_exists x xs in
    (
      record l { tail = some y },
      link_to_right t y n,
      rw (push_back, r.at_tail ∙ e) refl,
      link_to_right-Represents n l x t y xs r e o,
    )

-- `PushFront` puts it before all others.
pub push_front-Represents :
    (n : Nodes) (l : LinkedList) (y : ℕ) (xs : List ℕ)
    → Represents n l xs
    → Outside y xs
    → Leaves (push_front y l n) (y ∷ xs)
unfolding push_front
push_front-Represents n l y [] r o = (
  record { head = some y; tail = some y },
  n,
  rw (push_front, r.at_head) (rw r.at_tail refl),
  one-Represents n y (λ z. r.free z tt),
)
push_front-Represents n l y (x ∷ xs) r (ne, o) =
    let n₁ = set_next y (some x) n in
    let (ox, d) = r.distinct in
    (
      record l { head = some y },
      link_to_left x y n,
      rw (push_front, r.at_head) refl,
      record {
        at_head = refl;
        at_tail = r.at_tail;
        distinct = ((ne, o), r.distinct);
        linked = (
          assign-other n.prev x y (some y) (λ f. ne (sym f)) ∙ (r.free y (ne, o)).0,
          assign-same n.next y (some x),
          set_prev-Seg_first n₁ x (some y) none none xs ox
              (set_next-Seg n y (some x) none none (x ∷ xs) (ne, o) r.linked),
        );
        free = λ z oz.
            let (zy, (zx, oz')) = oz in
            let (p, q) = r.free z (zx, oz') in
            (
              assign-other n.prev x z (some y) (λ f. zx (sym f)) ∙ p,
              assign-other n.next y z (some x) (λ f. zy (sym f)) ∙ q,
            );
      },
    )
