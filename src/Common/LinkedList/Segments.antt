-- ===== src/Common/LinkedList/Segments.antt =====
-- Segments of a doubly linked list.
use dbms.Prelude.{
  ℕ, ◌≡◌, ◌≢◌, refl, sym, ◌∙◌, subst, Option, some, List, [], ◌∷◌, ◌++◌, ◌==◌, ==_iff, Bool-cases,
  inl, inr, arith,
}
use dbms.Common.LinkedList.{Nodes, assign, set_prev, set_next}

-- the first node of these, or the one behind them
abbrev pub first_or : List ℕ → Option ℕ → Option ℕ
first_or [] stop = stop
first_or (x ∷ xs) stop = some x

-- the last node of these, or the one before them
abbrev pub last_or : Option ℕ → List ℕ → Option ℕ
last_or start [] = start
last_or start (x ∷ xs) = last_or (some x) xs

-- These nodes are linked in this order, between the two others.
abbrev pub Seg : Nodes → Option ℕ → List ℕ → Option ℕ → Type 0
Seg n start [] stop = Unit
Seg n start (x ∷ xs) stop =
    (n.prev x ≡ start) × (n.next x ≡ first_or xs stop) × Seg n (some x) xs stop

abbrev pub Outside : ℕ → List ℕ → Type 0
Outside y [] = Unit
Outside y (x ∷ xs) = (y ≢ x) × Outside y xs

abbrev pub AreDistinct : List ℕ → Type 0
AreDistinct [] = Unit
AreDistinct (x ∷ xs) = Outside x xs × AreDistinct xs

pub assign-same : (f : ℕ → Option ℕ) (y : ℕ) (p : Option ℕ) → assign f y p y ≡ p
assign-same f y p = rw ((==_iff y y).1 refl) refl

pub assign-other : (f : ℕ → Option ℕ) (y k : ℕ) (p : Option ℕ) → y ≢ k → assign f y p k ≡ f k
assign-other f y k p ne = elim (Bool-cases (k == y)) [
  | inl e ↦ absurd (ne (sym ((==_iff k y).0 e)))
  | inr e ↦ rw e refl
]

pub Outside-append : (y : ℕ) (xs ys : List ℕ) → Outside y (xs ++ ys) → Outside y xs × Outside y ys
Outside-append y [] ys h = (tt, h)
Outside-append y (x ∷ xs) ys (ne, h) = let (a, b) = Outside-append y xs ys h in ((ne, a), b)

pub append-Outside : (y : ℕ) (xs ys : List ℕ) → Outside y xs → Outside y ys → Outside y (xs ++ ys)
append-Outside y [] ys a b = b
append-Outside y (x ∷ xs) ys (ne, a) b = (ne, append-Outside y xs ys a b)

-- Segments are put together, and taken apart.
pub Seg-append :
    (n : Nodes) (start stop : Option ℕ) (xs ys : List ℕ)
    → Seg n start xs (first_or ys stop)
    → Seg n (last_or start xs) ys stop
    → Seg n start (xs ++ ys) stop
Seg-append n start stop [] ys a b = b
Seg-append n start stop (x ∷ []) ys (p, q, a) b = (p, q, b)
Seg-append n start stop (x ∷ y ∷ xs) ys (p, q, a) b =
    (p, q, Seg-append n (some x) stop (y ∷ xs) ys a b)

pub Seg-split :
    (n : Nodes) (start stop : Option ℕ) (xs ys : List ℕ)
    → Seg n start (xs ++ ys) stop
    → Seg n start xs (first_or ys stop) × Seg n (last_or start xs) ys stop
Seg-split n start stop [] ys h = (tt, h)
Seg-split n start stop (x ∷ []) ys (p, q, h) = ((p, q, tt), h)
Seg-split n start stop (x ∷ y ∷ xs) ys (p, q, h) =
    let (a, b) = Seg-split n (some x) stop (y ∷ xs) ys h in ((p, q, a), b)

-- Writes to a node outside a segment leave it alone.
pub set_prev-Seg :
    (n : Nodes) (y : ℕ) (p start stop : Option ℕ) (xs : List ℕ)
    → Outside y xs
    → Seg n start xs stop
    → Seg (set_prev y p n) start xs stop
set_prev-Seg n y p start stop [] o h = tt
set_prev-Seg n y p start stop (x ∷ xs) (ne, o) (a, b, h) =
    (assign-other n.prev y x p ne ∙ a, b, set_prev-Seg n y p (some x) stop xs o h)

pub set_next-Seg :
    (n : Nodes) (y : ℕ) (p start stop : Option ℕ) (xs : List ℕ)
    → Outside y xs
    → Seg n start xs stop
    → Seg (set_next y p n) start xs stop
set_next-Seg n y p start stop [] o h = tt
set_next-Seg n y p start stop (x ∷ xs) (ne, o) (a, b, h) =
    (a, assign-other n.next y x p ne ∙ b, set_next-Seg n y p (some x) stop xs o h)

-- A write to the first node changes where a segment starts.
pub set_prev-Seg_first :
    (n : Nodes) (x : ℕ) (p start stop : Option ℕ) (xs : List ℕ)
    → Outside x xs
    → Seg n start (x ∷ xs) stop
    → Seg (set_prev x p n) p (x ∷ xs) stop
set_prev-Seg_first n x p start stop xs o (a, b, h) =
    (assign-same n.prev x p, b, set_prev-Seg n x p (some x) stop xs o h)

last_or-mem :
    (y t : ℕ) (xs : List ℕ) → Outside y (t ∷ xs) → (z : ℕ) → last_or (some t) xs ≡ some z → y ≢ z
last_or-mem y t [] (ne, o) z e = λ f. ne (grind (arith, f, e))
last_or-mem y t (x ∷ xs) (ne, o) z e = last_or-mem y x xs o z e

-- A write to the last node changes where it stops.
pub set_next-Seg_last :
    (n : Nodes) (x t : ℕ) (p start stop : Option ℕ) (xs : List ℕ)
    → AreDistinct (x ∷ xs)
    → last_or (some x) xs ≡ some t
    → Seg n start (x ∷ xs) stop
    → Seg (set_next t p n) start (x ∷ xs) p
set_next-Seg_last n x t p start stop [] d e (a, b, h) =
    let e' : x ≡ t = ground (arith, e) in
    (a, subst (λ k. assign n.next k p x ≡ p) e' (assign-same n.next x p), tt)
set_next-Seg_last n x t p start stop (y ∷ xs) (o, d) e (a, b, h) = (
  a,
  assign-other n.next t x p (λ f. last_or-mem x y xs o t e (sym f)) ∙ b,
  set_next-Seg_last n y t p (some x) stop xs d e h,
)
