-- ===== src/Common/Memory/Writes.antt =====
-- Laws of `write` and `read`, and sequences of writes.
use dbms.Prelude.{
  ℕ, zero, suc, ◌+◌, ◌≤◌, ◌<◌, ◌≡◌, refl, ap, ◌∙◌, ◌⊎◌, inl, inr, Option, none, some, List, [], ◌∷◌,
  ◌++◌, arith, Bytes, leb, if◌then◌else◌, length, take, drop, get_elem?, length-append, length-take,
  length-drop, Option-cases,
}
use dbms.Common.Memory.{write, read, ◌>>=◌}

pub take-append-before :
    (n o : ℕ) (b x : Bytes) → n ≤ o → o ≤ length b → take n (take o b ++ x) ≡ take n b
take-append-before zero o b x h k = refl
take-append-before (suc n) zero b x h k = absurd (omega arith)
take-append-before (suc n) (suc o) [] x h k = absurd (omega arith)
take-append-before (suc n) (suc o) (y ∷ b) x h k =
    ap (◌∷◌ y) (take-append-before n o b x (omega arith) (omega arith))

take-drop-before :
    (p n o : ℕ) (b x : Bytes)
    → p + n ≤ o
    → o ≤ length b
    → take n (drop p (take o b ++ x)) ≡ take n (drop p b)
take-drop-before zero n o b x h k = take-append-before n o b x (omega arith) k
take-drop-before (suc p) n zero b x h k = absurd (omega arith)
take-drop-before (suc p) n (suc o) [] x h k = absurd (omega arith)
take-drop-before (suc p) n (suc o) (y ∷ b) x h k =
    take-drop-before p n o b x (omega arith) (omega arith)

drop-append-after :
    (p : ℕ) (s b : Bytes)
    → length s ≤ p
    → length s ≤ length b
    → drop p (s ++ drop (length s) b) ≡ drop p b
drop-append-after p [] b h k = refl
drop-append-after zero (x ∷ s) b h k = absurd (omega arith)
drop-append-after (suc p) (x ∷ s) [] h k = absurd (omega arith)
drop-append-after (suc p) (x ∷ s) (y ∷ b) h k = drop-append-after p s b (omega arith) (omega arith)

drop-after :
    (p o m : ℕ) (s b : Bytes)
    → m ≡ o + length s
    → m ≤ p
    → m ≤ length b
    → drop p (take o b ++ (s ++ drop m b)) ≡ drop p b
drop-after p zero m s b e h k =
    let e' : m ≡ length s = omega arith in
    rw e' (drop-append-after p s b (omega arith) (omega arith))
drop-after p (suc o) zero s b e h k = absurd (omega arith)
drop-after zero (suc o) (suc m) s b e h k = absurd (omega arith)
drop-after (suc p) (suc o) (suc m) s [] e h k = absurd (omega arith)
drop-after (suc p) (suc o) (suc m) s (y ∷ b) e h k =
    drop-after p o m s b (omega arith) (omega arith) (omega arith)

drop-take_append : (o : ℕ) (b x : Bytes) → o ≤ length b → drop o (take o b ++ x) ≡ x
drop-take_append zero b x h = refl
drop-take_append (suc o) [] x h = absurd (omega arith)
drop-take_append (suc o) (y ∷ b) x h = drop-take_append o b x (omega arith)

take-append_self : (s x : Bytes) → take (length s) (s ++ x) ≡ s
take-append_self [] x = refl
take-append_self (y ∷ s) x = ap (◌∷◌ y) (take-append_self s x)

-- the block after a write that stays inside it
abbrev pub patch : ℕ → Bytes → Bytes → Bytes
patch o s b = take o b ++ (s ++ drop (o + length s) b)

pub length-patch : (o : ℕ) (s b : Bytes) → o + length s ≤ length b → length (patch o s b) ≡ length b
length-patch o s b h = omega (
  arith,
  length-append (take o b) (s ++ drop (o + length s) b),
  length-append s (drop (o + length s) b),
  length-take o b,
  length-drop (o + length s) b,
)

pub write-some : (o : ℕ) (s b : Bytes) → o + length s ≤ length b → write o s b ≡ some (patch o s b)
unfolding write
write-some o s b h = ground arith

write-inv :
    (o : ℕ) (s b : Bytes) {c : Bytes}
    → write o s b ≡ some c
    → (o + length s ≤ length b) × (c ≡ patch o s b)
unfolding write
write-inv o s b h = ground arith

read-some : (p n : ℕ) (b : Bytes) → p + n ≤ length b → read p n b ≡ some (take n (drop p b))
unfolding read
read-some p n b h = ground arith

-- A write does not change the size of a block.
pub length-write : (o : ℕ) (s b : Bytes) {c : Bytes} → write o s b ≡ some c → length c ≡ length b
length-write o s b h = let w = write-inv o s b h in rw w.1 (length-patch o s b w.0)

-- What was written is read back.
pub read-write_self :
    (o : ℕ) (s b : Bytes) {c : Bytes} → write o s b ≡ some c → read o (length s) c ≡ some s
read-write_self o s b {c} h =
    let w = write-inv o s b h in
    read-some o (length s) c (omega (arith, length-write o s b h, w.0))
    ∙ ap some (
        rw w.1 (
          rw (drop-take_append o b (s ++ drop (o + length s) b) (omega (arith, w.0)))
            (take-append_self s (drop (o + length s) b))))

patch-elsewhere :
    (o p n : ℕ) (s b : Bytes)
    → o + length s ≤ length b
    → (p + n ≤ o) ⊎ (o + length s ≤ p)
    → take n (drop p (patch o s b)) ≡ take n (drop p b)
patch-elsewhere o p n s b h (inl d) =
    take-drop-before p n o b (s ++ drop (o + length s) b) d (omega arith)
patch-elsewhere o p n s b h (inr d) = ap (take n) (drop-after p o (o + length s) s b refl d h)

-- A read elsewhere is not changed.
pub read-write_ne :
    (o p n : ℕ) (s b : Bytes) {c : Bytes}
    → write o s b ≡ some c
    → (p + n ≤ o) ⊎ (o + length s ≤ p)
    → read p n c ≡ read p n b
unfolding read
read-write_ne o p n s b {c} h d =
    let w = write-inv o s b h in
    let l : length c ≡ length b = length-write o s b h in
    rw l (
      ap (λ (x : Bytes). if leb (p + n) (length b) then some x else none)
        (rw w.1 (patch-elsewhere o p n s b w.0 d)))

-- A sequence of `memcpy` calls into one block, each an offset and its bytes, in source order.
unfoldable pub write_all : List (ℕ × Bytes) → Bytes → Option Bytes
write_all [] block = some block
write_all ((offset, bytes) ∷ later) block = write offset bytes block >>= write_all later

-- Every write of the sequence stays inside a block of `size` bytes.
abbrev pub Within : ℕ → List (ℕ × Bytes) → Type 0
Within size [] = Unit {0}
Within size ((offset, bytes) ∷ later) = (offset + length bytes ≤ size) × Within size later

-- No write of the sequence touches the `n` bytes from `p` on.
abbrev pub Apart : ℕ → ℕ → List (ℕ × Bytes) → Type 0
Apart p n [] = Unit {0}
Apart p n ((offset, bytes) ∷ later) =
    ((p + n ≤ offset) ⊎ (offset + length bytes ≤ p)) × Apart p n later

-- A sequence of writes inside the block succeeds.
pub write_all-some :
    (ws : List (ℕ × Bytes)) (b : Bytes)
    → Within (length b) ws
    → (c : Bytes) × (write_all ws b ≡ some c) × (length c ≡ length b)
unfolding write_all
write_all-some [] b h = (b, refl, refl)
write_all-some ((o, s) ∷ ws) b h =
    let e = write-some o s b h.0 in
    let l = length-write o s b e in
    let (c, f, k) = write_all-some ws (patch o s b) (rw l h.1) in (c, rw e f, k ∙ l)

pub read-write_all_ne :
    (ws : List (ℕ × Bytes)) (p n : ℕ) (b : Bytes) {c : Bytes}
    → write_all ws b ≡ some c
    → Apart p n ws
    → read p n c ≡ read p n b
unfolding write_all
read-write_all_ne [] p n b h d = ground arith
read-write_all_ne ((o, s) ∷ ws) p n b {c} h d = elim (Option-cases (write o s b)) [
  | inl e ↦ ground arith
  | inr (x, e) ↦ read-write_all_ne ws p n x (rw e at h) d.1 ∙ read-write_ne o p n s b e d.0
]

-- What the `i`-th write put in a range is read back, if no later write touches the range.
pub read-write_all :
    (ws : List (ℕ × Bytes)) (i o : ℕ) (s b : Bytes) {c : Bytes}
    → write_all ws b ≡ some c
    → get_elem? ws i ≡ some (o, s)
    → Apart o (length s) (drop (suc i) ws)
    → read o (length s) c ≡ some s
unfolding write_all
read-write_all [] i o s b h g d = ground arith
read-write_all ((q, t) ∷ ws) zero o s b {c} h g d = elim (Option-cases (write q t b)) [
  | inl e ↦ ground arith
  | inr (x, e) ↦
      read-write_all_ne ws o (length s) x (rw e at h) d
      ∙ read-write_self o s b (let e' : write o s b ≡ some x = ground (arith, e) in e')
]
read-write_all ((q, t) ∷ ws) (suc i) o s b h g d = elim (Option-cases (write q t b)) [
  | inl e ↦ ground arith
  | inr (x, e) ↦ read-write_all ws i o s x (rw e at h) g d
]

take-nil : (n : ℕ) → take {A = ℕ} n [] ≡ []
take-nil zero = refl
take-nil (suc n) = refl

take-drop-split :
    (n m p : ℕ) (b : Bytes) → take (n + m) (drop p b) ≡ take n (drop p b) ++ take m (drop (p + n) b)
take-drop-split n m (suc p) [] =
    let e : suc p + n ≡ suc (p + n) = omega arith in
    rw (e, take-nil n, take-nil m, take-nil (n + m))
take-drop-split n m (suc p) (x ∷ b) =
    let e : suc p + n ≡ suc (p + n) = omega arith in rw e (take-drop-split n m p b)
take-drop-split zero m zero b =
    let e : 0 + m ≡ m = omega arith in let f : ◌≡◌ {A = ℕ} (0 + 0) 0 = refl in rw e
take-drop-split (suc n) m zero [] =
    let e : suc n + m ≡ suc (n + m) = omega arith in
    let f : 0 + suc n ≡ suc n = omega arith in rw (e, f, take-nil m)
take-drop-split (suc n) m zero (x ∷ b) =
    let e : suc n + m ≡ suc (n + m) = omega arith in
    let f : 0 + suc n ≡ suc n = omega arith in
    let g : 0 + n ≡ n = omega arith in rw (e, f) (ap (◌∷◌ x) (rw g at (take-drop-split n m zero b)))

-- Two reads that meet are one.
pub read-append :
    (p n m : ℕ) (b : Bytes) {x y : Bytes}
    → read p n b ≡ some x
    → read (p + n) m b ≡ some y
    → read p (n + m) b ≡ some (x ++ y)
unfolding read
read-append p n m b h k = ground (arith, take-drop-split n m p b)

pub write-total :
    (o : ℕ) (s b : Bytes) → o + length s ≤ length b → (c : Bytes) × (write o s b ≡ some c)
write-total o s b h = (patch o s b, write-some o s b h)

pub write-none : (o : ℕ) (s b : Bytes) → length b < o + length s → write o s b ≡ none
unfolding write
write-none o s b h = ground arith

pub write-fits : (o : ℕ) (s b : Bytes) {c : Bytes} → write o s b ≡ some c → o + length s ≤ length b
write-fits o s b h = (write-inv o s b h).0

take-patch :
    (o m : ℕ) (s b : Bytes)
    → m ≡ o + length s
    → m ≤ length b
    → take m (take o b ++ (s ++ drop m b)) ≡ take o b ++ s
take-patch zero m s b e h =
    let e' : m ≡ length s = omega arith in rw e' (take-append_self s (drop (length s) b))
take-patch (suc o) zero s b e h = absurd (omega arith)
take-patch (suc o) (suc m) s [] e h = absurd (omega arith)
take-patch (suc o) (suc m) s (y ∷ b) e h =
    ap (◌∷◌ y) (take-patch o m s b (omega arith) (omega arith))

-- What lies up to the end of a write: what lay before it, and what was written.
pub take-write :
    (o : ℕ) (s b : Bytes) {c : Bytes} → write o s b ≡ some c → take (o + length s) c ≡ take o b ++ s
take-write o s b h = let w = write-inv o s b h in rw w.1 (take-patch o (o + length s) s b refl w.0)
