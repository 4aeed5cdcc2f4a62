-- ===== src/Realizer/Definition.antt =====
-- `QueryRealizer::ExecCreate` of src/realizer/query_realizer.cpp. The statement is that of
-- src/include/parser/create_stmt.h.
pub mod Keys
use dbms.Prelude.{
  ℕ, zero, suc, Option, none, some, List, [], ◌∷◌, ◌++◌, Bool, true, false, Bytes, codes, ltb,
  if◌then◌else◌,
}
use dbms.Common.Memory.{Allocator, ◌>>=◌}
use dbms.Common.Define.{DataType}
use dbms.Storage.{ColumnSchema, TableSchema, Leveldb, Store, create_relation}

pub record ColumnDefine : Type 0 where
  pub column_name : Bytes
  pub column_type : DataType
  pub data_length : ℕ
  pub is_primary_key : Bool

pub record CreateStmt : Type 0 where
  pub table_name : Bytes
  pub column_define_list : List ColumnDefine

-- The column is copied into the schema before the flag of the key is set, so that of the copy is
-- what its memory held.
abbrev pub column_schema : Bool → ColumnDefine → ColumnSchema
column_schema unset define = record {
  name = define.column_name;
  data_type = define.column_type;
  length = define.data_length;
  is_null = false;
  is_primary_key = unset;
}

-- The loop, on the number of the column and that of the keys so far; none where it returns. `unset`
-- is what the memory of each column held.
unfoldable pub column_list : (ℕ → Bool) → ℕ → ℕ → List ColumnDefine → Option (List ColumnSchema)
column_list unset i n [] = some []
column_list unset i n (define ∷ def_list) =
    let n = if define.is_primary_key then suc n else n in
    elim (ltb 1 n) [
      | true ↦ none
      | false ↦ do
        columns ← column_list unset (suc i) n def_list
        some (column_schema (unset i) define ∷ columns)
    ]

abbrev pub relation_message : Bytes → Bytes → Bytes
relation_message name rest = codes "relation " ++ name ++ rest

-- The store, what the function returns, and `message_`
pub record Created : Type 0 where
  pub store : Store
  pub ok : Bool
  pub message : Bytes

unfoldable pub exec_create :
    Allocator → Leveldb → (ℕ → Bytes) → List ℕ → (ℕ → Bool) → CreateStmt → Store → Option Created
unfolding column_list create_relation
exec_create m l keys rand unset stmt s = elim (column_list unset 0 0 stmt.column_define_list) [
  | none ↦ some (record {
    store = s;
    ok = false;
    message = relation_message stmt.table_name (codes " cannot have multiple keys.");
  })
  | some columns ↦ do
    r ← create_relation m l keys rand (record { name = stmt.table_name; column_list = columns }) s
    some (record {
      store = r.0;
      ok = r.1;
      message =
          relation_message stmt.table_name
            (if r.1 then codes " created." else codes " create failed.");
    })
]
