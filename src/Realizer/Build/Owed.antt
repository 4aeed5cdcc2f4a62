-- ===== src/Realizer/Build/Owed.antt =====
-- The references of the storage to the iterators that `~QueryRealizer` gives back.
use dbms.Prelude.{
  ℕ, suc, ◌+◌, ◌<◌, ◌≡◌, refl, sym, ap, ◌∙◌, Option, none, some, List, [], ◌∷◌, ◌++◌, arith, ◌==◌,
  ==_refl, if◌then◌else◌,
}
use dbms.Prelude.Maps.{bytes_key, nat_key}
use dbms.Common.Memory.{◌>>=◌}
use dbms.Storage.{HandlerMap, new_handler, delete_io_object}
use dbms.Storage.Handlers.{
  IsCounted, references, new_handler-references, delete_io_object-references,
}
use dbms.Realizer.Build.{release}

abbrev pub count : ℕ → List ℕ → ℕ
count relid [] = 0
count relid (x ∷ xs) = if x == relid then suc (count relid xs) else count relid xs

count-append :
    (relid x : ℕ) (xs : List ℕ)
    → count relid (xs ++ x ∷ []) ≡ (if x == relid then suc (count relid xs) else count relid xs)
count-append relid x [] = refl
count-append relid x (y ∷ xs) = ground (arith, count-append relid x xs)

-- Beyond those of `before`, the storage has a reference for each iterator to be given back.
pub record Owes (before : HandlerMap) (all_iter : List ℕ) (map : HandlerMap) : Type 0 where
  pub counted : IsCounted map
  pub owed : (relid : ℕ) → references relid map ≡ count relid all_iter + references relid before

pub Owes-push :
    (before map : HandlerMap) (all_iter : List ℕ) (relid : ℕ)
    → Owes before all_iter map
    → Owes before (all_iter ++ relid ∷ []) (new_handler relid map)
Owes-push before map all_iter relid o = record {
  counted = (new_handler-references relid relid map o.counted).0;
  owed = λ r. ground (
    arith,
    (new_handler-references relid r map o.counted).1,
    o.owed r,
    count-append r relid all_iter,
  );
}

some-injective : {map map' : HandlerMap} → some map ≡ some map' → map ≡ map'
some-injective {map} {map'} e = ap (λ (o : Option HandlerMap). elim o [ none ↦ map | some m ↦ m ]) e

Owes-pop :
    (before map : HandlerMap) (all_iter : List ℕ) (relid : ℕ)
    → Owes before (relid ∷ all_iter) map
    → (rest : HandlerMap) × (delete_io_object relid map ≡ some rest) × Owes before all_iter rest
Owes-pop before map all_iter relid o =
    let there : 0 < references relid map = ground (arith, o.owed relid, ==_refl relid) in
    let (rest, e, c, k) = delete_io_object-references relid relid map o.counted there in
    (
      rest,
      e,
      record {
        counted = c;
        owed = λ r.
            let (rest', e', c', k') = delete_io_object-references relid r map o.counted there in
            let same : references r rest' ≡ references r rest =
              ap (references r) (some-injective (sym e' ∙ e)) in
            ground (arith, same, k', o.owed r);
      },
    )

pub release-Owes :
    (before map : HandlerMap) (all_iter : List ℕ)
    → Owes before all_iter map
    → (rest : HandlerMap) × (release all_iter map ≡ some rest) × Owes before [] rest
unfolding release
release-Owes before map [] o = (map, refl, o)
release-Owes before map (relid ∷ all_iter) o =
    let (map', e, o') = Owes-pop before map all_iter relid o in
    let (rest, f, p) = release-Owes before map' all_iter o' in (rest, rw (release, e, ◌>>=◌) f, p)
