-- ===== src/Common/LinkedList/Refinement.antt =====
-- A `List` and the sequence that it stands for, under any calls that the sequence allows.
use dbms.Prelude.{
  ℕ, suc, ◌+◌, ◌≡◌, refl, sym, ap, ◌∙◌, subst, Option, none, some, List, [], ◌∷◌, ◌++◌, ◌==◌,
  ==_iff, ◌≢◌, Bool-cases, inl, inr, arith, if◌then◌else◌, length,
}
use dbms.Common.Memory.{◌>>=◌}
use dbms.Common.LinkedList.{
  Nodes, LinkedList, push_back, push_front, pop_front, pop_back, remove, first,
}
use dbms.Common.LinkedList.Segments.{Seg, Outside, first_or, last_or}
use dbms.Common.LinkedList.Unlinking.{last_exists}
use dbms.Common.LinkedList.Deque.{Represents, Yields, push_back-Represents, push_front-Represents}
use dbms.Common.LinkedList.Removal.{
  remove-Represents, pop_front-Represents, pop_back-Represents, pop_front-empty, pop_back-empty,
}

pub data Call : Type 0 where
  at_back : ℕ → Call
  at_front : ℕ → Call
  take_front : Call
  take_back : Call
  take : ℕ → Call

-- a call of a member function, and the node that it returns
abbrev pub call : Call → LinkedList → Nodes → Option (Option ℕ × LinkedList × Nodes)
call (at_back y) l n = push_back y l n >>= λ r. some (none, r.0, r.1)
call (at_front y) l n = push_front y l n >>= λ r. some (none, r.0, r.1)
call take_front l n = pop_front l n
call take_back l n = pop_back l n
call (take y) l n = some (none, (remove y l n).0, (remove y l n).1)

-- The nodes that a run of calls returns.
abbrev pub run : List Call → LinkedList → Nodes → Option (List (Option ℕ))
run [] l n = some []
run (c ∷ cs) l n = call c l n >>= λ r. run cs r.1 r.2 >>= λ rest. some (r.0 ∷ rest)

-- The same on a sequence.
abbrev pub drop_last : List ℕ → List ℕ
drop_last [] = []
drop_last (x ∷ []) = []
drop_last (x ∷ y ∷ xs) = x ∷ drop_last (y ∷ xs)

abbrev pub drop_first : List ℕ → List ℕ
drop_first [] = []
drop_first (x ∷ xs) = xs

abbrev pub erase : ℕ → List ℕ → List ℕ
erase y [] = []
erase y (x ∷ xs) = if y == x then xs else x ∷ erase y xs

abbrev pub step : Call → List ℕ → Option ℕ × List ℕ
step (at_back y) xs = (none, xs ++ y ∷ [])
step (at_front y) xs = (none, y ∷ xs)
step take_front xs = (first_or xs none, drop_first xs)
step take_back xs = (last_or none xs, drop_last xs)
step (take y) xs = (none, erase y xs)

abbrev pub run_sequence : List Call → List ℕ → List (Option ℕ)
run_sequence [] xs = []
run_sequence (c ∷ cs) xs = let (p, ys) = step c xs in p ∷ run_sequence cs ys

-- A node is put in that is not there, and is taken out that is there.
abbrev pub IsAllowed : Call → List ℕ → Type 0
IsAllowed (at_back y) xs = Outside y xs
IsAllowed (at_front y) xs = Outside y xs
IsAllowed take_front xs = Unit
IsAllowed take_back xs = Unit
IsAllowed (take y) xs = ¬ Outside y xs

abbrev pub AreAllowed : List Call → List ℕ → Type 0
AreAllowed [] xs = Unit
AreAllowed (c ∷ cs) xs = IsAllowed c xs × AreAllowed cs (step c xs).1

erase-split :
    (y : ℕ) (xs : List ℕ)
    → ¬ Outside y xs
    → (before : List ℕ) × (after : List ℕ) × (xs ≡ before ++ y ∷ after)
      × (erase y xs ≡ before ++ after)
erase-split y [] h = absurd (h tt)
erase-split y (x ∷ xs) h = elim (Bool-cases (y == x)) [
  | inl e ↦ ([], xs, ap (λ k. k ∷ xs) (sym ((==_iff y x).0 e)), rw e refl)
  | inr e ↦
      let ne : y ≢ x = λ f. ground (arith, e, f, ==_iff y x) in
      let (before, after, p, q) = erase-split y xs (λ o. h (ne, o)) in
      (x ∷ before, after, ap (λ l. x ∷ l) p, rw e (ap (λ l. x ∷ l) q))
]

drop_last-append :
    (x t : ℕ) (xs : List ℕ) → last_or (some x) xs ≡ some t → drop_last (x ∷ xs) ++ t ∷ [] ≡ x ∷ xs
drop_last-append x t [] e = ap (λ k. k ∷ []) (ground (arith, e))
drop_last-append x t (y ∷ xs) e = ap (λ l. x ∷ l) (drop_last-append y t xs e)

-- Each call does to the list what it does to the sequence.
call-Yields :
    (c : Call) (n : Nodes) (l : LinkedList) (xs : List ℕ)
    → Represents n l xs
    → IsAllowed c xs
    → Yields (call c l n) (step c xs).0 (step c xs).1
call-Yields (at_back y) n l xs r o =
    let (l', n', e, r') = push_back-Represents n l y xs r o in (l', n', rw e refl, r')
call-Yields (at_front y) n l xs r o =
    let (l', n', e, r') = push_front-Represents n l y xs r o in (l', n', rw e refl, r')
call-Yields take_front n l [] r o = pop_front-empty n l r
call-Yields take_front n l (x ∷ xs) r o = pop_front-Represents n l x xs r
call-Yields take_back n l [] r o = pop_back-empty n l r
call-Yields take_back n l (x ∷ xs) r o =
    let (t, e) = last_exists x xs in
    let d = drop_last (x ∷ xs) in
    subst (λ p. Yields (pop_back l n) p d) (sym e)
      (pop_back-Represents n l t d (subst (Represents n l) (sym (drop_last-append x t xs e)) r))
call-Yields (take y) n l xs r o =
    let (before, after, p, q) = erase-split y xs o in
    (
      (remove y l n).0,
      (remove y l n).1,
      refl,
      subst (Represents (remove y l n).1 (remove y l n).0) (sym q)
          (remove-Represents n l y before after (subst (Represents n l) p r)),
    )

-- A list that represents a sequence of nodes returns, under any calls that put in only nodes that
-- are not there and take out only nodes that are there, what the sequence returns; no pointer that
-- is NULL is followed, and no assertion fails.
pub run_refines :
    (cs : List Call) (n : Nodes) (l : LinkedList) (xs : List ℕ)
    → Represents n l xs
    → AreAllowed cs xs
    → run cs l n ≡ some (run_sequence cs xs)
run_refines [] n l xs r a = refl
run_refines (c ∷ cs) n l xs r (o, a) =
    let (l', n', e, r') = call-Yields c n l xs r o in
    rw e (rw (run_refines cs n' l' (step c xs).1 r' a) refl)

-- From a node the loop of `First` goes to the head, a step for each node between.
first-walks :
    (fuel x y : ℕ) (n : Nodes) (start stop : Option ℕ) (xs ys : List ℕ)
    → Seg n start (x ∷ xs ++ y ∷ ys) stop
    → first (length (x ∷ xs) + fuel) y n ≡ first fuel x n
unfolding first
first-walks fuel x y n start stop [] ys (p, q, (p', q', s)) =
    let e : length (x ∷ []) + fuel ≡ suc fuel = omega arith in rw e (rw (first, p') refl)
first-walks fuel x y n start stop (z ∷ zs) ys (p, q, s) =
    let e : length (x ∷ z ∷ zs) + fuel ≡ length (z ∷ zs) + suc fuel = omega arith in
    let ih = first-walks (suc fuel) z y n (some x) stop zs ys s in rw e (ih ∙ rw (first, s.0) refl)

-- `First` of any node of a list returns the head, with a round for each node before it and one
-- more.
pub first-head :
    (n : Nodes) (l : LinkedList) (y fuel : ℕ) (before after : List ℕ)
    → Represents n l (before ++ y ∷ after)
    → first (length before + suc fuel) y n ≡ l.head
unfolding first
first-head n l y fuel [] after r =
    let e : length {A = ℕ} [] + suc fuel ≡ suc fuel = omega arith in
    rw e (rw (first, r.linked.0) (sym r.at_head))
first-head n l y fuel (x ∷ before) after r =
    first-walks (suc fuel) x y n none none before after r.linked
    ∙ rw (first, r.linked.0) (sym r.at_head)
