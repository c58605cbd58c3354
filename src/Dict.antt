-- ===== src/Dict.antt =====
-- The dictionary of fs/dict.c and fs/dict.h. A pointer, like a string that a value owns, is its
-- address; 0 is NULL. A key is the list of its characters, which ends at a NUL or at its end.
pub mod Strings
pub mod Entries
pub mod Keys
pub mod Store
pub mod Buffers
pub mod Growth
pub mod Refines
pub mod Lookups
pub mod Types
use kanekfs.Base.{ℕ, List, [], Option, none}

-- `value_t`: the union is the word that it holds.
pub record Value : Type 0 where
  pub data_type : ℕ
  pub data_len : ℕ
  pub value : ℕ

-- `dict_entry_t`
pub record Entry : Type 0 where
  pub hash_key : ℕ
  pub key : List ℕ
  pub value : Value

-- `dict_t`. The buffer has as many entries as it was last given room for.
pub record Dict : Type 0 where
  pub n_elems : ℕ
  pub used_elems : ℕ
  pub dict : Option (List Entry)

unfoldable pub dict_init : Dict
dict_init = record { n_elems = 0; used_elems = 0; dict = none }
