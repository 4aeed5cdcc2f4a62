-- ===== src/Storage/Handlers.antt =====
-- The references to the handlers of tables.
use dbms.Prelude.{
  ℕ, suc, ◌-◌, ◌<◌, ◌≡◌, refl, none, some, arith, ◌==◌, if◌then◌else◌, Option-cases, Bool-cases,
  ==_iff, inl, inr,
}
use dbms.Prelude.Maps.{
  find, erase, update, nat_key, Distinct, find-insert, find-update, find-erase, update-Distinct,
  erase-Distinct, insert-Distinct,
}
use dbms.Common.Memory.{◌>>=◌}
use dbms.Storage.{HandlerMap, new_handler, delete_io_object}

-- the references to the handler of a table
abbrev pub references : ℕ → HandlerMap → ℕ
references relid map = elim (find relid map) [ none ↦ 0 | some n ↦ n ]

-- A table has one handler at most, and a handler that is kept has references.
pub record IsCounted (map : HandlerMap) : Type 0 where
  pub distinct : Distinct map
  pub used : (relid : ℕ) → find relid map ≡ some 0 → ⊥

-- `NewIterator` and `NewWriteHandler` keep the counts right, add one reference to the handler of
-- the table, and none to any other.
pub new_handler-references :
    (relid other : ℕ) (map : HandlerMap)
    → IsCounted map
    → IsCounted (new_handler relid map)
      × (references other (new_handler relid map)
          ≡ (if relid == other then suc (references other map) else references other map))
unfolding new_handler
new_handler-references relid other map c = elim (Option-cases (find relid map)) [
  | inl e ↦
      rw (new_handler, e)
        (
          record {
            distinct = insert-Distinct relid 1 map c.distinct;
            used = λ j h. ground (arith, find-insert relid j 1 map, e, c.used j, h);
          },
          ground (arith, find-insert relid other 1 map, e, ==_iff relid other),
        )
  | inr (n, e) ↦
      rw (new_handler, e)
        (
          record {
            distinct = update-Distinct relid suc map c.distinct;
            used = λ j h.
                ground
                  (arith, find-update relid j suc map, e, c.used j, h, Option-cases (find j map));
          },
          ground (arith, find-update relid other suc map, e, ==_iff relid other),
        )
]

-- `DeleteIOObject` on a handler with references succeeds, keeps the counts right, and takes one
-- reference from the handler of the table, and none from any other.
pub delete_io_object-references :
    (relid other : ℕ) (map : HandlerMap)
    → IsCounted map
    → 0 < references relid map
    → (rest : HandlerMap) × (delete_io_object relid map ≡ some rest)
      × IsCounted rest
      × (references other rest
          ≡ (if relid == other then references other map - 1 else references other map))
unfolding delete_io_object
delete_io_object-references relid other map c l = elim (Option-cases (find relid map)) [
  | inl e ↦ absurd (ground (arith, e, l))
  | inr (n, e) ↦ elim (Bool-cases (n - 1 == 0)) [
    | inl z ↦ (
      erase relid map,
      rw (delete_io_object, e, ◌>>=◌) (rw z refl),
      record {
        distinct = erase-Distinct relid map c.distinct;
        used = λ j h. ground (arith, find-erase relid j map c.distinct, c.used j, h);
      },
      ground (arith, find-erase relid other map c.distinct, e, ==_iff relid other),
    )
    | inr z ↦ (
      update relid (λ r. r - 1) map,
      rw (delete_io_object, e, ◌>>=◌) (rw z refl),
      record {
        distinct = update-Distinct relid (λ r. r - 1) map c.distinct;
        used = λ j h. ground (
          arith,
          find-update relid j (λ r. r - 1) map,
          e,
          c.used j,
          h,
          z,
          ==_iff relid j,
          Option-cases (find j map),
        );
      },
      ground (arith, find-update relid other (λ r. r - 1) map, e, ==_iff relid other),
    )
  ]
]
