-- ===== src/Common/LinkedList/Unlinking.antt =====
-- `ListNode::Remove` on a node of a list.
use dbms.Prelude.{
  ℕ, ◌≡◌, ◌≢◌, refl, sym, ap, ◌∙◌, subst, Option, none, some, List, [], ◌∷◌, ◌++◌, ◌==◌, ==_iff,
  Bool-cases, inl, inr, arith,
}
use dbms.Common.LinkedList.{Nodes, set_prev, set_next, set_prev_of, set_next_of, unlink}
use dbms.Common.LinkedList.Segments.{
  Seg, Outside, AreDistinct, first_or, last_or, assign-other, Seg-append, Seg-split, set_prev-Seg,
  set_next-Seg, set_prev-Seg_first, set_next-Seg_last, Outside-append, append-Outside,
}

-- no node of the first list is in the second
abbrev pub AreApart : List ℕ → List ℕ → Type 0
AreApart [] ys = Unit
AreApart (x ∷ xs) ys = Outside x ys × AreApart xs ys

pub AreDistinct-split :
    (xs ys : List ℕ) → AreDistinct (xs ++ ys) → AreDistinct xs × AreDistinct ys × AreApart xs ys
AreDistinct-split [] ys d = (tt, d, tt)
AreDistinct-split (x ∷ xs) ys (o, d) =
    let (ox, oy) = Outside-append x xs ys o in
    let (dx, dy, a) = AreDistinct-split xs ys d in ((ox, dx), dy, (oy, a))

pub AreDistinct-append :
    (xs ys : List ℕ) → AreDistinct xs → AreDistinct ys → AreApart xs ys → AreDistinct (xs ++ ys)
AreDistinct-append [] ys dx dy a = dy
AreDistinct-append (x ∷ xs) ys (o, dx) dy (oy, a) =
    (append-Outside x xs ys o oy, AreDistinct-append xs ys dx dy a)

pub AreApart-head :
    (xs : List ℕ) (y : ℕ) (ys : List ℕ) → AreApart xs (y ∷ ys) → Outside y xs × AreApart xs ys
AreApart-head [] y ys a = (tt, tt)
AreApart-head (x ∷ xs) y ys ((ne, o), a) =
    let (oy, a') = AreApart-head xs y ys a in ((λ e. ne (sym e), oy), (o, a'))

pub AreApart-one : (xs : List ℕ) (y : ℕ) → Outside y xs → AreApart xs (y ∷ [])
AreApart-one [] y o = tt
AreApart-one (x ∷ xs) y (ne, o) = ((λ e. ne (sym e), tt), AreApart-one xs y o)

pub last_exists : (x : ℕ) (xs : List ℕ) → (t : ℕ) × (last_or (some x) xs ≡ some t)
last_exists x [] = (x, refl)
last_exists x (y ∷ xs) = last_exists y xs

pub last-Outside :
    (x t : ℕ) (xs ys : List ℕ) → AreApart (x ∷ xs) ys → last_or (some x) xs ≡ some t → Outside t ys
last-Outside x t [] ys (o, a) e =
    let e' : x ≡ t = ground (arith, e) in subst (λ k. Outside k ys) e' o
last-Outside x t (y ∷ xs) ys (o, a) e = last-Outside y t xs ys a e

pub Outside-last :
    (z x t : ℕ) (xs : List ℕ) → Outside z (x ∷ xs) → last_or (some x) xs ≡ some t → z ≢ t
Outside-last z x t [] (ne, o) e = λ f. ne (ground (arith, f, e))
Outside-last z x t (y ∷ xs) (ne, o) e = Outside-last z y t xs o e

-- What `Remove` does to a node, in the links that it had.
unlink_lem :
    (n : Nodes) (y : ℕ) (a b : Option ℕ)
    → n.prev y ≡ a
    → n.next y ≡ b
    → unlink y n ≡ set_next y none (set_prev y none (set_prev_of b a (set_next_of a b n)))
unfolding unlink
unlink_lem n y none b p q = rw (unlink, p) (rw q (rw p refl))
unlink_lem n y (some a) b p q = elim (Bool-cases (y == a)) [
  | inl e ↦ rw (unlink, p) (rw q (rw e (rw p refl)))
  | inr e ↦ rw (unlink, p) (rw q (rw e (rw p refl)))
]

-- The neighbours of the node are linked to each other.
bridge_next :
    (n : Nodes) (y : ℕ) (b : Option ℕ) (xs ys : List ℕ)
    → AreDistinct xs
    → AreApart xs ys
    → Seg n none xs (some y)
    → Seg n (some y) ys none
    → Seg (set_next_of (last_or none xs) b n) none xs b
      × Seg (set_next_of (last_or none xs) b n) (some y) ys none
bridge_next n y b [] ys d a h k = (tt, k)
bridge_next n y b (x ∷ xs) ys d a h k =
    let (t, e) = last_exists x xs in
    subst (λ l. Seg (set_next_of l b n) none (x ∷ xs) b × Seg (set_next_of l b n) (some y) ys none)
      (sym e)
      (
        set_next-Seg_last n x t b none (some y) xs d e h,
        set_next-Seg n t b (some y) none ys (last-Outside x t xs ys a e) k,
      )

bridge_prev :
    (n : Nodes) (y : ℕ) (a : Option ℕ) (xs ys : List ℕ)
    → AreDistinct ys
    → AreApart xs ys
    → Seg n none xs (first_or ys none)
    → Seg n (some y) ys none
    → Seg (set_prev_of (first_or ys none) a n) none xs (first_or ys none)
      × Seg (set_prev_of (first_or ys none) a n) a ys none
bridge_prev n y a xs [] d ap h k = (h, tt)
bridge_prev n y a xs (z ∷ ys) (o, d) ap h k = (
  set_prev-Seg n z a none (some z) xs (AreApart-head xs z ys ap).0 h,
  set_prev-Seg_first n z a (some y) none ys o k,
)

cut-Seg :
    (n : Nodes) (y : ℕ) (start stop : Option ℕ) (xs : List ℕ)
    → Outside y xs
    → Seg n start xs stop
    → Seg (set_next y none (set_prev y none n)) start xs stop
cut-Seg n y start stop xs o h =
    set_next-Seg (set_prev y none n) y none start stop xs o
      (set_prev-Seg n y none start stop xs o h)

last-ne : (y : ℕ) (xs : List ℕ) → Outside y xs → (p : ℕ) → last_or none xs ≡ some p → p ≢ y
last-ne y [] o p e = absurd (ground (arith, e))
last-ne y (x ∷ xs) o p e = λ f. Outside-last y x p xs o e (sym f)

-- What is known of a node in a list, and of its neighbours.
pub unlink-explicit :
    (n : Nodes) (y : ℕ) (xs ys : List ℕ)
    → Seg n none (xs ++ y ∷ ys) none
    → unlink y n
      ≡ set_next y none (
          set_prev y none (
            set_prev_of
              (first_or ys none)
              (last_or none xs)
              (set_next_of (last_or none xs) (first_or ys none) n)))
unlink-explicit n y xs ys h =
    let (hx, (hp, hn, hy)) = Seg-split n none none xs (y ∷ ys) h in
    unlink_lem n y (last_or none xs) (first_or ys none) hp hn

pub unlink-Seg :
    (n : Nodes) (y : ℕ) (xs ys : List ℕ)
    → AreDistinct (xs ++ y ∷ ys)
    → Seg n none (xs ++ y ∷ ys) none
    → Seg (unlink y n) none (xs ++ ys) none
unlink-Seg n y xs ys d h =
    let (dx, (oy, dy), a) = AreDistinct-split xs (y ∷ ys) d in
    let (hx, (hp, hn, hy)) = Seg-split n none none xs (y ∷ ys) h in
    let (ox, a') = AreApart-head xs y ys a in
    let b = first_or ys none in
    let l = last_or none xs in
    let n₁ = set_next_of l b n in
    let (x₁, y₁) = bridge_next n y b xs ys dx a' hx hy in
    let (x₂, y₂) = bridge_prev n₁ y l xs ys dy a' x₁ y₁ in
    let n₂ = set_prev_of b l n₁ in
    subst (λ n'. Seg n' none (xs ++ ys) none) (sym (unlink-explicit n y xs ys h))
      (Seg-append (set_next y none (set_prev y none n₂)) none none xs ys
        (cut-Seg n₂ y none b xs ox x₂) (cut-Seg n₂ y l none ys oy y₂))

pub unlink-AreDistinct :
    (y : ℕ) (xs ys : List ℕ) → AreDistinct (xs ++ y ∷ ys) → AreDistinct (xs ++ ys)
unlink-AreDistinct y xs ys d =
    let (dx, (oy, dy), a) = AreDistinct-split xs (y ∷ ys) d in
    AreDistinct-append xs ys dx dy (AreApart-head xs y ys a).1

-- A node without neighbours.
abbrev pub IsFree : Nodes → ℕ → Type 0
IsFree n z = (n.prev z ≡ none) × (n.next z ≡ none)

set_next_of-prev :
    (p : Option ℕ) (q : Option ℕ) (n : Nodes) (z : ℕ) → (set_next_of p q n).prev z ≡ n.prev z
set_next_of-prev none q n z = refl
set_next_of-prev (some p) q n z = refl

set_prev_of-next :
    (p : Option ℕ) (q : Option ℕ) (n : Nodes) (z : ℕ) → (set_prev_of p q n).next z ≡ n.next z
set_prev_of-next none q n z = refl
set_prev_of-next (some p) q n z = refl

set_next_of-other :
    (p q : Option ℕ) (n : Nodes) (z : ℕ)
    → ((k : ℕ) → p ≡ some k → k ≢ z)
    → (set_next_of p q n).next z ≡ n.next z
set_next_of-other none q n z ne = refl
set_next_of-other (some k) q n z ne = assign-other n.next k z q (ne k refl)

set_prev_of-other :
    (p q : Option ℕ) (n : Nodes) (z : ℕ)
    → ((k : ℕ) → p ≡ some k → k ≢ z)
    → (set_prev_of p q n).prev z ≡ n.prev z
set_prev_of-other none q n z ne = refl
set_prev_of-other (some k) q n z ne = assign-other n.prev k z q (ne k refl)

first-ne : (z : ℕ) (ys : List ℕ) → Outside z ys → (p : ℕ) → first_or ys none ≡ some p → p ≢ z
first-ne z [] o p e = absurd (ground (arith, e))
first-ne z (y ∷ ys) (ne, o) p e = λ f. ne (ground (arith, e, f))

-- The node is free then, and the nodes that were free stay so.
pub unlink-IsFree :
    (n : Nodes) (y : ℕ) (xs ys : List ℕ)
    → AreDistinct (xs ++ y ∷ ys)
    → Seg n none (xs ++ y ∷ ys) none
    → ((z : ℕ) → Outside z (xs ++ y ∷ ys) → IsFree n z)
    → (z : ℕ) → Outside z (xs ++ ys)
    → IsFree (unlink y n) z
unlink-IsFree n y xs ys d h free z o =
    let b = first_or ys none in
    let l = last_or none xs in
    let n₁ = set_next_of l b n in
    let n₂ = set_prev_of b l n₁ in
    let (ox, oy) = Outside-append z xs ys o in
    subst (λ n'. IsFree n' z) (sym (unlink-explicit n y xs ys h))
      (elim (Bool-cases (z == y)) [
        | inl e ↦ (rw e refl, rw e refl)
        | inr e ↦
            let ne : y ≢ z = λ f. ground (arith, e, f, ==_iff z y) in
            let (p, q) = free z (append-Outside z xs (y ∷ ys) ox ((λ f. ne (sym f)), oy)) in
            (
              assign-other n₂.prev y z none ne
                  ∙ set_prev_of-other b l n₁ z (first-ne z ys oy)
                  ∙ set_next_of-prev l b n z
                  ∙ p,
              assign-other n₂.next y z none ne
                  ∙ set_prev_of-next b l n₁ z
                  ∙ set_next_of-other l b n z (last-ne z xs ox)
                  ∙ q,
            )
      ])
