-- ===== src/Prelude/Maps.antt =====
-- `std::map`: an association list in the order of its keys. `insert` of a key that is there changes
-- nothing, as in the library.
use dbms.Prelude.Tests.{
  Bytes, bytes_eq, bytes_lt, bytes_eq_iff, ltb, ◌==◌, ==_iff, if◌then◌else◌, Bool-cases,
  Option-cases,
}
use Prim.Native.Nat.{ℕ, suc}
use mathlib.Core.Path.{◌≡◌, refl, subst}
use mathlib.Core.Logic.{◌↔◌, ◌⊎◌, inl, inr}
use mathlib.Core.Bool.{Bool, true, false}
use mathlib.Core.Option
use mathlib.Core.Option.{Option, none, some}
use mathlib.Core.List.{List, [], ◌∷◌}
use native.Mathlib.Omega.{arith}

pub record Key {ℓ} (K : Type ℓ) : Type ℓ where
  pub beq : K → K → Bool
  pub before : K → K → Bool
  pub beq_iff : (a b : K) → (beq a b ≡ true) ↔ (a ≡ b)

instance abbrev pub nat_key : Key ℕ
nat_key = record { beq = ◌==◌; before = ltb; beq_iff = ==_iff }

instance abbrev pub bytes_key : Key Bytes
bytes_key = record { beq = bytes_eq; before = bytes_lt; beq_iff = bytes_eq_iff }

abbrev pub StdMap {ℓ κ} : Type ℓ → Type κ → Type (ℓ ⊔ κ)
StdMap K V = List (K × V)

module _ {ℓ κ} {K : Type ℓ} ⦃o : Key K⦄ {V : Type κ} where
  unfoldable pub find : K → StdMap K V → Option V
  find k [] = none
  find k ((j, v) ∷ m) = if o.beq j k then some v else find k m

  pub place : K → V → StdMap K V → StdMap K V
  place k v [] = (k, v) ∷ []
  place k v ((j, w) ∷ m) = if o.before k j then (k, v) ∷ (j, w) ∷ m else (j, w) ∷ place k v m

  unfoldable pub insert : K → V → StdMap K V → StdMap K V
  unfolding place find
  insert k v m = elim (find k m) [ none ↦ place k v m | some w ↦ m ]

  unfoldable pub erase : K → StdMap K V → StdMap K V
  erase k [] = []
  erase k ((j, v) ∷ m) = if o.beq j k then m else (j, v) ∷ erase k m

  -- the assignment of an entry that is there
  unfoldable pub update : K → (V → V) → StdMap K V → StdMap K V
  update k f [] = []
  update k f ((j, v) ∷ m) = if o.beq j k then (j, f v) ∷ m else (j, v) ∷ update k f m

  abbrev pub size : StdMap K V → ℕ
  size [] = 0
  size (e ∷ m) = suc (size m)

  pub find-place :
      (k j : K) (v : V) (m : StdMap K V)
      → find k m ≡ none
      → find j (place k v m) ≡ (if o.beq k j then some v else find j m)
  unfolding find place
  find-place k j v [] h = refl
  find-place k j v ((i, w) ∷ m) h =
      ground (arith, find-place k j v m, o.beq_iff i k, o.beq_iff i j, o.beq_iff k j)

  -- What `insert` does to every lookup.
  pub find-insert :
      (k j : K) (v : V) (m : StdMap K V)
      → find j (insert k v m)
        ≡ (elim (find k m) [ none ↦ if o.beq k j then some v else find j m | some w ↦ find j m ])
  unfolding insert
  find-insert k j v m = ground (arith, find-place k j v m)

  -- No key stands twice.
  abbrev pub Distinct : StdMap K V → Type κ
  Distinct [] = Unit
  Distinct ((k, v) ∷ m) = (find k m ≡ none) × Distinct m

  pub find-update :
      (k j : K) (f : V → V) (m : StdMap K V)
      → find j (update k f m) ≡ (if o.beq k j then Option.map f (find j m) else find j m)
  unfolding find update
  find-update k j f [] = ground arith
  find-update k j f ((i, w) ∷ m) =
      ground (arith, find-update k j f m, o.beq_iff i k, o.beq_iff i j, o.beq_iff k j)

  pub find-erase :
      (k j : K) (m : StdMap K V)
      → Distinct m
      → find j (erase k m) ≡ (if o.beq k j then none else find j m)
  unfolding find erase
  find-erase k j [] u = ground arith
  find-erase k j ((i, w) ∷ m) u =
      ground (arith, find-erase k j m u.1, u.0, o.beq_iff i k, o.beq_iff i j, o.beq_iff k j)

  Distinct-if :
      (b : Bool) (x y : StdMap K V)
      → (b ≡ true → Distinct x)
      → (b ≡ false → Distinct y)
      → Distinct (if b then x else y)
  Distinct-if true x y f g = f refl
  Distinct-if false x y f g = g refl

  pub place-Distinct :
      (k : K) (v : V) (m : StdMap K V) → find k m ≡ none → Distinct m → Distinct (place k v m)
  unfolding find place
  place-Distinct k v [] h u = (refl, tt)
  place-Distinct k v ((j, w) ∷ m) h u =
      let there : find k m ≡ none = ground (arith, h) in
      Distinct-if (o.before k j) ((k, v) ∷ (j, w) ∷ m) ((j, w) ∷ place k v m) (λ e. (h, u))
        λ e. (
          ground (arith, find-place k j v m there, u.0, o.beq_iff j k, o.beq_iff k j),
          place-Distinct k v m there u.1,
        )

  pub update-Distinct : (k : K) (f : V → V) (m : StdMap K V) → Distinct m → Distinct (update k f m)
  unfolding find update
  update-Distinct k f [] u = tt
  update-Distinct k f ((j, w) ∷ m) u =
      Distinct-if (o.beq j k) ((j, f w) ∷ m) ((j, w) ∷ update k f m) (λ e. u)
        λ e. (ground (arith, find-update k j f m, u.0), update-Distinct k f m u.1)

  pub erase-Distinct : (k : K) (m : StdMap K V) → Distinct m → Distinct (erase k m)
  unfolding find erase
  erase-Distinct k [] u = tt
  erase-Distinct k ((j, w) ∷ m) u =
      Distinct-if (o.beq j k) m ((j, w) ∷ erase k m) (λ e. u.1)
        λ e. (ground (arith, find-erase k j m u.1, u.0), erase-Distinct k m u.1)

  pub insert-Distinct : (k : K) (v : V) (m : StdMap K V) → Distinct m → Distinct (insert k v m)
  unfolding insert
  insert-Distinct k v m u = elim (Option-cases (find k m)) [
    | inl e ↦ rw (insert, e) (place-Distinct k v m e u)
    | inr (w, e) ↦ rw (insert, e) u
  ]

  pub find-insert_self :
      (k : K) (v : V) (m : StdMap K V) → find k m ≡ none → find k (insert k v m) ≡ some v
  find-insert_self k v m h = ground (arith, find-insert k k v m, h, o.beq_iff k k)

  pub find-insert_old :
      (k j : K) (v w : V) (m : StdMap K V)
      → find k m ≡ none
      → find j m ≡ some w
      → find j (insert k v m) ≡ some w
  find-insert_old k j v w m h g = elim (Bool-cases (o.beq k j)) [
    | inl e ↦ absurd (ground (arith, subst (λ i. find i m ≡ none) ((o.beq_iff k j).0 e) h, g))
    | inr e ↦ ground (arith, find-insert k j v m, h, e, g)
  ]

  pub find-insert_cases :
      (k j : K) (v w : V) (m : StdMap K V)
      → find k m ≡ none
      → find j (insert k v m) ≡ some w
      → ((k ≡ j) × (v ≡ w)) ⊎ (find j m ≡ some w)
  find-insert_cases k j v w m h g = ground (arith, find-insert k j v m, h, o.beq_iff k j)

  size-place : (k : K) (v : V) (m : StdMap K V) → size (place k v m) ≡ suc (size m)
  unfolding place
  size-place k v [] = refl
  size-place k v ((j, w) ∷ m) = ground (arith, size-place k v m, Bool-cases (o.before k j))

  pub size-insert :
      (k : K) (v : V) (m : StdMap K V) → find k m ≡ none → size (insert k v m) ≡ suc (size m)
  unfolding insert
  size-insert k v m h = rw (insert, h) (size-place k v m)
