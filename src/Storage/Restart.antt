-- ===== src/Storage/Restart.antt =====
-- `ReadSystemTable` after a restart: the rows that `WriteRelMeta` has put into the databases are read
-- into an empty catalog. Here are the relations, in Attributes the attributes, and in
-- Whole both. Written has what `WriteRelMeta` puts, and Fresh the first start.
pub mod Attributes
pub mod Durable
pub mod Written
pub mod Fresh
pub mod Whole
use dbms.Prelude.{
  Every, Every-map2, ℕ, ◌≡◌, refl, sym, ap, subst, ◌∙◌, Option, none, some, List, [], ◌∷◌, Bool,
  true, false, arith, Bytes, length, take, bytes_eq, bytes_eq_refl, bytes_eq_iff, ◌==◌, ==_iff,
  if◌then◌else◌, inl, inr, ◌&&◌,
}
use dbms.Prelude.Maps.{find, insert, find-insert, nat_key, bytes_key}
use dbms.Common.Memory.{Allocator, ◌>>=◌}
use dbms.Common.Relation.{Relation, new_relation}
use dbms.Common.Relation as Relations
use dbms.Common.Relation.Catalog.{IsStorable, relation-stored}
use dbms.Storage.{Store, Database, insert_relation, get_relation, read_relations}
use dbms.Storage.Catalog.{IsConsistent, insert_relation-IsConsistent, get_relation-insert_relation}

-- the bytes of a row that are in use, which `WriteRelMeta` puts
abbrev pub in_use : Option (Bytes × ℕ) → Option Bytes
in_use none = none
in_use (some (tuple, size)) = some (take size tuple)

-- The values of a database are the rows of these, in this order.
abbrev pub Aligned {ℓ} : {A : Type ℓ} → (A → Bytes → Type 0) → Database → List A → Type 0
Aligned P [] [] = Unit {0}
Aligned P [] (x ∷ xs) = ⊥
Aligned P ((key, value) ∷ db) [] = ⊥
Aligned P ((key, value) ∷ db) (x ∷ xs) = P x value × Aligned P db xs

abbrev pub IsRelationRow : Allocator → Relation → Bytes → Type 0
IsRelationRow m r value = IsStorable r × (in_use (Relations.to_tuple m r) ≡ some value)

abbrev pub HoldsRelations : Allocator → Database → List Relation → Type 0
HoldsRelations m = Aligned (IsRelationRow m)

-- what the row of a relation says of it
abbrev pub bare : Relation → Relation
bare r = record new_relation { relation_id = r.relation_id; name = r.name }

from_tuple-row :
    (m : Allocator) (r : Relation) (value : Bytes)
    → IsStorable r
    → in_use (Relations.to_tuple m r) ≡ some value
    → Relations.from_tuple new_relation value ≡ some (bare r)
from_tuple-row m r value v h =
    let (tuple, e, f) = relation-stored m r new_relation v in
    subst (λ (o : Option Bytes). (o >>= Relations.from_tuple new_relation) ≡ some (bare r))
      (sym (ap in_use e) ∙ h) f

-- no other relation has the name or the identifier
abbrev pub Apart : Relation → Relation → Type 0
Apart r x = (bytes_eq r.name x.name ≡ false) × ((r.relation_id == x.relation_id) ≡ false)

abbrev pub AllApart : List Relation → Type 0
AllApart [] = Unit {0}
AllApart (r ∷ rs) = Every (Apart r) rs × AllApart rs

abbrev pub IsFree : Store → Relation → Type 0
IsFree s r = (find r.name s.name_rel_map ≡ none) × (find r.relation_id s.id_rel_map ≡ none)

insert_relation-IsFree :
    (s : Store) (r x : Relation)
    → IsFree s r
    → IsFree s x
    → Apart r x
    → IsFree (insert_relation r s).0 x
unfolding insert_relation
insert_relation-IsFree s r x (n, d) (n', d') (a, b) =
    rw (insert_relation, n)
      (rw d (
        (find-insert r.name x.name (length s.all_relations) s.name_rel_map) ∙ rw n (rw a n'),
        (find-insert r.relation_id x.relation_id (length s.all_relations) s.id_rel_map)
            ∙ rw d (rw b d'),
      ))

-- a free relation is taken
get_relation-free :
    (s : Store) (r : Relation) (name : Bytes)
    → IsConsistent s
    → IsFree s r
    → get_relation name (insert_relation r s).0
      ≡ (if bytes_eq r.name name then some r else get_relation name s)
get_relation-free s r name c (n, d) =
    let (e, f) = get_relation-insert_relation r s name c in ground (arith, e, f, n, d)

insert_relation-db_attribute :
    (r : Relation) (s : Store) → (insert_relation r s).0.db_attribute ≡ s.db_attribute
unfolding insert_relation
insert_relation-db_attribute r s = ground arith

-- the names that none of the relations has
abbrev pub IsOther : Bytes → Relation → Type 0
IsOther name r = bytes_eq r.name name ≡ false

IsOther-name : (r x : Relation) → Apart r x → IsOther r.name x
IsOther-name r x (a, b) = ground (arith, a, bytes_eq_iff r.name x.name, bytes_eq_iff x.name r.name)

abbrev pub IsFound : Store → Relation → Type 0
IsFound s r = get_relation r.name s ≡ some (bare r)

pub read_relations-IsFound :
    (m : Allocator) (db : Database) (rs : List Relation) (s : Store)
    → HoldsRelations m db rs
    → AllApart rs
    → IsConsistent s
    → Every (IsFree s) rs
    → (s' : Store) × (read_relations db s ≡ some s')
      × IsConsistent s'
      × Every (IsFound s') rs
      × ((name : Bytes) → Every (IsOther name) rs → get_relation name s' ≡ get_relation name s)
      × (s'.db_attribute ≡ s.db_attribute)
unfolding read_relations
read_relations-IsFound m [] [] s h a c f = (s, refl, c, tt, λ name e. refl, refl)
read_relations-IsFound m [] (r ∷ rs) s h a c f = absurd h
read_relations-IsFound m ((key, value) ∷ db) [] s h a c f = absurd h
read_relations-IsFound m ((key, value) ∷ db) (r ∷ rs) s ((v, w), h) (a, more) c (f, fs) =
    let b = bare r in
    let t = (insert_relation b s).0 in
    let free =
      Every-map2 (IsFree s) (Apart r) (IsFree t) rs (λ x g. insert_relation-IsFree s b x f g) fs
        a in
    let (s', e, c', found, others, same) =
      read_relations-IsFound m db rs t h more (insert_relation-IsConsistent b s c) free in
    let names =
      Every-map2 (Apart r) (Apart r) (IsOther r.name) rs (λ x p q. IsOther-name r x p) a a in
    (
      s',
      rw (read_relations, from_tuple-row m r value v w, ◌>>=◌) e,
      c',
      (
        others r.name names ∙ get_relation-free s b r.name c f ∙ rw (bytes_eq_refl r.name) refl,
        found,
      ),
      λ name (o, os). others name os ∙ get_relation-free s b name c f ∙ rw o refl,
      same ∙ insert_relation-db_attribute b s,
    )
