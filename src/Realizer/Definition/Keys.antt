-- ===== src/Realizer/Definition/Keys.antt =====
-- `CREATE TABLE` and primary keys.
use dbms.Prelude.{
  ℕ, suc, ◌+◌, ◌≤◌, ◌<◌, ◌≡◌, refl, none, some, List, [], ◌∷◌, Bool, false, codes, if◌then◌else◌,
  ltb, arith, inl, inr, Bool-cases, Bytes, ltb→lt,
}
use dbms.Common.Memory.{Allocator, ◌>>=◌}
use dbms.Storage.{ColumnSchema, Leveldb, Store, create_relation}
use dbms.Realizer.Definition.{
  ColumnDefine, CreateStmt, column_schema, column_list, relation_message, exec_create,
}

-- the number of primary keys
abbrev pub key_count : List ColumnDefine → ℕ
key_count [] = 0
key_count (define ∷ def_list) = (if define.is_primary_key then 1 else 0) + key_count def_list

-- the columns in their order
abbrev pub columns_of : (ℕ → Bool) → ℕ → List ColumnDefine → List ColumnSchema
columns_of unset i [] = []
columns_of unset i (define ∷ def_list) =
    column_schema (unset i) define ∷ columns_of unset (suc i) def_list

-- the number of keys after a column
abbrev counted : ℕ → ColumnDefine → ℕ
counted n define = if define.is_primary_key then suc n else n

counted-key_count :
    (n : ℕ) (define : ColumnDefine) (def_list : List ColumnDefine)
    → counted n define + key_count def_list ≡ n + key_count (define ∷ def_list)
counted-key_count n define def_list = elim (Bool-cases define.is_primary_key) [
  | inl e ↦ rw e (omega arith)
  | inr e ↦ rw e (omega arith)
]

le→ltb : (a b : ℕ) → b ≤ a → ltb a b ≡ false
le→ltb a b h = ground arith

ltb→le : (a b : ℕ) → ltb a b ≡ false → b ≤ a
ltb→le a b h = ground arith

column_list-one :
    (unset : ℕ → Bool) (i n : ℕ) (def_list : List ColumnDefine)
    → n + key_count def_list ≤ 1
    → column_list unset i n def_list ≡ some (columns_of unset i def_list)
unfolding column_list
column_list-one unset i n [] h = refl
column_list-one unset i n (define ∷ def_list) h =
    let n' = counted n define in
    let h' : n' + key_count def_list ≤ 1 = rw (counted-key_count n define def_list) h in
    rw (column_list, le→ltb 1 n' (omega (arith, h')))
      (rw (column_list-one unset (suc i) n' def_list h') refl)

column_list-many :
    (unset : ℕ → Bool) (i n : ℕ) (def_list : List ColumnDefine)
    → n ≤ 1
    → 1 < n + key_count def_list
    → column_list unset i n def_list ≡ none
unfolding column_list
column_list-many unset i n [] h k = absurd (omega arith)
column_list-many unset i n (define ∷ def_list) h k =
    let n' = counted n define in
    let k' : 1 < n' + key_count def_list = rw (counted-key_count n define def_list) k in
    elim (Bool-cases (ltb 1 n')) [
      | inl e ↦ rw (column_list, e) refl
      | inr e ↦
          rw (column_list, e)
            (rw (column_list-many unset (suc i) n' def_list (ltb→le 1 n' e) k') refl)
    ]

-- `ExecCreate` on a statement with two primary keys or more fails with a message, and the catalog
-- stays as it is; with one or none it is `CreateRelation` for the columns in their order, returns
-- what that returns, and says in the message which it was.
pub exec_create-keys :
    (m : Allocator) (l : Leveldb) (keys : ℕ → Bytes) (rand : List ℕ) (unset : ℕ → Bool)
    (stmt : CreateStmt) (s : Store)
    → exec_create m l keys rand unset stmt s ≡ (
        if ltb 1 (key_count stmt.column_define_list)
        then some (record {
          store = s;
          ok = false;
          message = relation_message stmt.table_name (codes " cannot have multiple keys.");
        })
        else create_relation m l keys rand
            (record {
              name = stmt.table_name;
              column_list = columns_of unset 0 stmt.column_define_list;
            })
            s
          >>= λ r. some (record {
            store = r.0;
            ok = r.1;
            message =
                relation_message stmt.table_name
                  (if r.1 then codes " created." else codes " create failed.");
          }))
unfolding exec_create
exec_create-keys m l keys rand unset stmt s =
    let k = key_count stmt.column_define_list in
    elim (Bool-cases (ltb 1 k)) [
      | inl e ↦
          let none_made =
            column_list-many unset 0 0 stmt.column_define_list (omega arith)
              (omega (arith, ltb→lt 1 k e)) in
          rw e (rw (exec_create, none_made) refl)
      | inr e ↦
          let made =
            column_list-one unset 0 0 stmt.column_define_list (omega (arith, ltb→le 1 k e)) in
          rw e (rw (exec_create, made) refl)
    ]
