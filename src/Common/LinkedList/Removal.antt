-- ===== src/Common/LinkedList/Removal.antt =====
-- `Remove`, `PopFront`, `PopBack` and `First` on a list that represents a sequence of nodes.
use dbms.Prelude.{
  ℕ, ◌≡◌, ◌≢◌, refl, sym, ap, ◌∙◌, subst, Option, none, some, List, [], ◌∷◌, ◌++◌, ◌==◌, ==_iff,
  Bool-cases, inl, inr, if◌then◌else◌, true, false,
}
use mathlib.Core.List.{append-nil}
use dbms.Common.LinkedList.{
  Nodes, LinkedList, empty, unlink, pop_front, pop_back, remove, same_node,
}
use dbms.Common.LinkedList.Segments.{AreDistinct, first_or, last_or, Seg-split}
use dbms.Common.LinkedList.Unlinking.{
  AreDistinct-split, AreApart-head, last_exists, Outside-last, unlink-Seg, unlink-AreDistinct,
  unlink-IsFree,
}
use dbms.Common.LinkedList.Deque.{Represents, Yields, last_or-append}

same_refl : (p : ℕ) → same_node (some p) (some p) ≡ true
same_refl p = (==_iff p p).1 refl

same_ne : (p q : ℕ) → p ≢ q → same_node (some p) (some q) ≡ false
same_ne p q ne = elim (Bool-cases (p == q)) [ inl e ↦ absurd (ne ((==_iff p q).0 e)) | inr e ↦ e ]

last_or-split :
    (start : Option ℕ) (xs ys : List ℕ) → last_or start (xs ++ ys) ≡ last_or (last_or start xs) ys
last_or-split start [] ys = refl
last_or-split start (x ∷ xs) ys = last_or-split (some x) xs ys

-- A node is cut out of a list whose ends are set right.
unlink-Represents :
    (n : Nodes) (l l' : LinkedList) (y : ℕ) (xs ys : List ℕ)
    → Represents n l (xs ++ y ∷ ys)
    → l'.head ≡ first_or (xs ++ ys) none
    → l'.tail ≡ last_or none (xs ++ ys)
    → Represents (unlink y n) l' (xs ++ ys)
unlink-Represents n l l' y xs ys r h t = record {
  at_head = h;
  at_tail = t;
  distinct = unlink-AreDistinct y xs ys r.distinct;
  linked = unlink-Seg n y xs ys r.distinct r.linked;
  free = unlink-IsFree n y xs ys r.distinct r.linked r.free;
}

head_after :
    (y : ℕ) (xs ys : List ℕ)
    → AreDistinct (xs ++ y ∷ ys)
    → (if same_node (some y) (first_or (xs ++ y ∷ ys) none)
        then first_or ys none
        else first_or (xs ++ y ∷ ys) none)
      ≡ first_or (xs ++ ys) none
head_after y [] ys d = rw (same_refl y) refl
head_after y (x ∷ xs) ys d =
    let (ne, o) = (AreApart-head (x ∷ xs) y ys (AreDistinct-split (x ∷ xs) (y ∷ ys) d).2).0 in
    rw (same_ne y x ne) refl

tail_after :
    (y : ℕ) (xs ys : List ℕ)
    → AreDistinct (xs ++ y ∷ ys)
    → (if same_node (some y) (last_or none (xs ++ y ∷ ys))
        then last_or none xs
        else last_or none (xs ++ y ∷ ys))
      ≡ last_or none (xs ++ ys)
tail_after y xs [] d = rw (last_or-append none xs y) (rw (same_refl y) (rw (append-nil xs) refl))
tail_after y xs (z ∷ ys) d =
    let (dx, (o, dy), a) = AreDistinct-split xs (y ∷ z ∷ ys) d in
    let (t, e) = last_exists z ys in
    let e₁ = last_or-split none xs (y ∷ z ∷ ys) ∙ e in
    let e₂ = last_or-split none xs (z ∷ ys) ∙ e in
    rw e₁ (rw e₂ (rw (same_ne y t (Outside-last y z t ys o e)) refl))

-- `Remove` takes a node out of the list, wherever it stands.
pub remove-Represents :
    (n : Nodes) (l : LinkedList) (y : ℕ) (xs ys : List ℕ)
    → Represents n l (xs ++ y ∷ ys)
    → Represents (remove y l n).1 (remove y l n).0 (xs ++ ys)
unfolding remove
remove-Represents n l y xs ys r =
    let (hx, (hp, hn, hy)) = Seg-split n none none xs (y ∷ ys) r.linked in
    unlink-Represents n l (remove y l n).0 y xs ys r
      (rw (r.at_head, hn) (head_after y xs ys r.distinct))
      (rw (r.at_tail, hp) (tail_after y xs ys r.distinct))

-- Where head and tail differ, the end moves to the neighbour.
pop_front-moves :
    (n : Nodes) (l : LinkedList) (x : ℕ)
    → l.head ≡ some x
    → same_node (some x) l.tail ≡ false
    → pop_front l n ≡ some (some x, record l { head = n.next x }, unlink x n)
unfolding pop_front
pop_front-moves n l x h s = rw (pop_front, h) (rw s (rw h refl))

pop_back-moves :
    (n : Nodes) (l : LinkedList) (y : ℕ)
    → l.tail ≡ some y
    → same_node l.head (some y) ≡ false
    → pop_back l n ≡ some (some y, record l { tail = n.prev y }, unlink y n)
unfolding pop_back
pop_back-moves n l y h s = rw (pop_back, h) (rw s (rw h refl))

pub pop_front-Represents :
    (n : Nodes) (l : LinkedList) (x : ℕ) (xs : List ℕ)
    → Represents n l (x ∷ xs)
    → Yields (pop_front l n) (some x) xs
unfolding pop_front
pop_front-Represents n l x [] r =
    let (p, q, s) = r.linked in
    (
      empty,
      unlink x n,
      rw (pop_front, r.at_head) (rw r.at_tail (rw (same_refl x) (rw q (rw p refl)))),
      unlink-Represents n l empty x [] [] r refl refl,
    )
pop_front-Represents n l x (y ∷ xs) r =
    let (p, q, s) = r.linked in
    let (t, e) = last_exists y xs in
    let (o, d) = r.distinct in
    let l' = record l { head = some y } in
    (
      l',
      unlink x n,
      pop_front-moves n l x r.at_head
            (ap (same_node (some x)) (r.at_tail ∙ e) ∙ same_ne x t (Outside-last x y t xs o e))
          ∙ ap (λ h. some (some x, record l { head = h }, unlink x n)) q,
      unlink-Represents n l l' x [] (y ∷ xs) r refl r.at_tail,
    )

pub pop_back-Represents :
    (n : Nodes) (l : LinkedList) (y : ℕ) (xs : List ℕ)
    → Represents n l (xs ++ y ∷ [])
    → Yields (pop_back l n) (some y) xs
unfolding pop_back
pop_back-Represents n l y [] r =
    let (p, q, s) = r.linked in
    (
      empty,
      unlink y n,
      rw (pop_back, r.at_head) (rw r.at_tail (rw (same_refl y) (rw q (rw p refl)))),
      unlink-Represents n l empty y [] [] r refl refl,
    )
pop_back-Represents n l y (x ∷ xs) r =
    let xs' = x ∷ xs in
    let (hx, (hp, hn, hy)) = Seg-split n none none xs' (y ∷ []) r.linked in
    let e = append-nil xs' in
    let (ne, o) = (AreApart-head xs' y [] (AreDistinct-split xs' (y ∷ []) r.distinct).2).0 in
    let l' = record l { tail = last_or none xs' } in
    (
      l',
      unlink y n,
      pop_back-moves n l y (r.at_tail ∙ last_or-append none xs' y)
            (ap (λ h. same_node h (some y)) r.at_head ∙ same_ne x y (λ f. ne (sym f)))
          ∙ ap (λ t. some (some y, record l { tail = t }, unlink y n)) hp,
      subst (Represents (unlink y n) l') e
          (unlink-Represents n l l' y xs' [] r (r.at_head) (ap (last_or none) (sym e))),
    )

pub pop_front-empty :
    (n : Nodes) (l : LinkedList) → Represents n l [] → Yields (pop_front l n) none []
unfolding pop_front
pop_front-empty n l r = (
  empty,
  n,
  rw (pop_front, r.at_head) (rw r.at_tail refl),
  record { at_head = refl; at_tail = refl; distinct = tt; linked = tt; free = r.free },
)

pub pop_back-empty :
    (n : Nodes) (l : LinkedList) → Represents n l [] → Yields (pop_back l n) none []
unfolding pop_back
pop_back-empty n l r = (
  empty,
  n,
  rw (pop_back, r.at_head) (rw r.at_tail refl),
  record { at_head = refl; at_tail = refl; distinct = tt; linked = tt; free = r.free },
)
