-- ===== src/Tests.antt =====
-- Runs at concrete inputs, and what they share.
pub mod Insertions
pub mod Opening
pub mod Lists
pub mod Rows
pub mod Sessions
pub mod Plans
pub mod Tables
pub mod Restarts
pub mod Bitmaps
pub mod Names
pub mod Checks
use dbms.Prelude.{ℕ, [], ◌∷◌, replicate, length-replicate, codes}
use dbms.Common.Memory.{Allocator}
use dbms.Common.Message.{MessageBuffer}
use dbms.Common.Attribute.{Attribute, new_attribute}
use dbms.Common.Define.{dt_integer}
use dbms.Common.Relation.{Relation}

-- an allocator of zeroed blocks
abbrev pub zeros : Allocator
zeros = record { malloc = λ n. replicate n 0; length-malloc = λ n. length-replicate n 0 }

-- a buffer of `n` bytes with nothing in it
abbrev pub buffer : ℕ → MessageBuffer
buffer n = record { block = replicate n 0; data_length = 0; buffer_length = n }

abbrev pub id_column : Attribute
id_column = record new_attribute {
  name = codes "id";
  max_length = 8;
  data_type = dt_integer;
  relation_id = 7;
}

abbrev pub users : Relation
users = record { name = codes "users"; relation_id = 7; attributes = id_column ∷ [] }
