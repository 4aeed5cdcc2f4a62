-- ===== src/Executor/Plan/Iterators.antt =====
-- The documented behaviour of an iterator: `SeekToFirst` leads to the first row of the table, `Next` to
-- the next, and behind the last row the iterator is not valid.
use dbms.Prelude.{
  ℕ, ◌≡◌, ◌≢◌, refl, sym, subst, List, [], ◌∷◌, true, false, Bytes, ◌==◌, ==_iff, ==_refl,
  Bool-cases, inl, inr,
}
use dbms.Executor.Plan.{Iterator, Cursor, Cursors, move, advance, rewind}

-- From a position on the iterator goes over these rows.
abbrev pub Leads : Iterator → ℕ → List Bytes → Type 0
Leads it p [] = it.valid p ≡ false
Leads it p (t ∷ ts) = (it.valid p ≡ true) × (it.value p ≡ t) × Leads it (it.next p) ts

-- The handler has these rows still to go over.
abbrev pub IsAt : Cursor → List Bytes → Type 0
IsAt c ts = Leads c.iterator c.position ts

-- The table of the handler has these rows: wherever the iterator is, it finds them from the first
-- on.
abbrev pub Holds : Cursor → List Bytes → Type 0
Holds c ts = (p : ℕ) → Leads c.iterator (c.iterator.seek_to_first p) ts

move-same : (h p : ℕ) (cs : Cursors) → move h p cs h ≡ record (cs h) { position = p }
move-same h p cs = rw (==_refl h) refl

move-other : (h k p : ℕ) (cs : Cursors) → k ≢ h → move h p cs k ≡ cs k
move-other h k p cs ne = elim (Bool-cases (k == h)) [
  | inl e ↦ absurd (ne ((==_iff k h).0 e))
  | inr e ↦ rw e refl
]

pub move-Holds :
    (h k p : ℕ) (cs : Cursors) (ts : List Bytes) → Holds (cs k) ts → Holds (move h p cs k) ts
move-Holds h k p cs ts r = elim (Bool-cases (k == h)) [
  | inl e ↦ rw e (subst (λ l. Holds (cs l) ts) ((==_iff k h).0 e) r)
  | inr e ↦ rw e r
]

pub move-IsAt_ne :
    (h k p : ℕ) (cs : Cursors) (ts : List Bytes) → k ≢ h → IsAt (cs k) ts → IsAt (move h p cs k) ts
move-IsAt_ne h k p cs ts ne a = subst (λ c. IsAt c ts) (sym (move-other h k p cs ne)) a

pub advance-IsAt :
    (h : ℕ) (cs : Cursors) (t : Bytes) (ts : List Bytes)
    → IsAt (cs h) (t ∷ ts)
    → IsAt (advance h cs h) ts
advance-IsAt h cs t ts (v, e, rest) =
    let c = cs h in subst (λ c. IsAt c ts) (sym (move-same h (c.iterator.next c.position) cs)) rest

pub rewind-IsAt :
    (h : ℕ) (cs : Cursors) (ts : List Bytes) → Holds (cs h) ts → IsAt (rewind h cs h) ts
rewind-IsAt h cs ts r =
    let c = cs h in
    subst (λ c. IsAt c ts) (sym (move-same h (c.iterator.seek_to_first c.position) cs))
      (r c.position)
