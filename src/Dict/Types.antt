-- ===== src/Dict/Types.antt =====
-- The names of the types in fs/dict.c.
use kanekfs.Base.{
  ℕ, zero, suc, ◌+◌, ◌<◌, ℤ, pos, negsuc, List, [], ◌∷◌, Option, none, some, ◌≡◌, refl, arith,
  get_elem?, if◌then◌else◌,
}
use kanekfs.Dict.Strings.{same}

abbrev pub dict_num_types : ℕ
dict_num_types = 8

-- "none", "int", "uint", "float", "boolean", "string", "blob", "extent" and NULL.
abbrev pub dict_dt_names : List (Option (List ℕ))
dict_dt_names =
    some (110 ∷ 111 ∷ 110 ∷ 101 ∷ [])
    ∷ some (105 ∷ 110 ∷ 116 ∷ [])
    ∷ some (117 ∷ 105 ∷ 110 ∷ 116 ∷ [])
    ∷ some (102 ∷ 108 ∷ 111 ∷ 97 ∷ 116 ∷ [])
    ∷ some (98 ∷ 111 ∷ 111 ∷ 108 ∷ 101 ∷ 97 ∷ 110 ∷ [])
    ∷ some (115 ∷ 116 ∷ 114 ∷ 105 ∷ 110 ∷ 103 ∷ [])
    ∷ some (98 ∷ 108 ∷ 111 ∷ 98 ∷ [])
    ∷ some (101 ∷ 120 ∷ 116 ∷ 101 ∷ 110 ∷ 116 ∷ [])
    ∷ none
    ∷ []

-- Of a `dt` that is not negative: the test `dt >= 0 || …` is always true. The outer `none` is a
-- read outside of the table, the inner one is NULL.
unfoldable pub dict_get_type_name : ℕ → Option (Option (List ℕ))
dict_get_type_name dt = get_elem? dict_dt_names dt

-- The loop, over `n` names from place `i` on; NULL is never compared.
unfoldable pub type_id_loop : ℕ → List (Option (List ℕ)) → List ℕ → ℕ → ℤ
type_id_loop zero names dt i = negsuc 0
type_id_loop (suc n) (some name ∷ rest) dt i =
    let later = type_id_loop n rest dt (i + 1) in if same 8 name dt then pos i else later
type_id_loop (suc n) (none ∷ rest) dt i = negsuc 0
type_id_loop (suc n) [] dt i = negsuc 0

unfoldable pub dict_get_type_id : List ℕ → ℤ
dict_get_type_id dt = type_id_loop dict_num_types dict_dt_names dt 0

-- For each of the eight types, `dict_get_type_id` gives the type whose name `dict_get_type_name`
-- returns.
pub dict_get_type_id-name :
    (dt : ℕ)
    → dt < 8
    → (name : List ℕ) × (dict_get_type_name dt ≡ some (some name))
      × (dict_get_type_id name ≡ pos dt)
unfolding dict_get_type_name dict_get_type_id type_id_loop same
dict_get_type_id-name zero h = (_, refl, refl)
dict_get_type_id-name (suc zero) h = (_, refl, refl)
dict_get_type_id-name (suc (suc zero)) h = (_, refl, refl)
dict_get_type_id-name (suc (suc (suc zero))) h = (_, refl, refl)
dict_get_type_id-name (suc (suc (suc (suc zero)))) h = (_, refl, refl)
dict_get_type_id-name (suc (suc (suc (suc (suc zero))))) h = (_, refl, refl)
dict_get_type_id-name (suc (suc (suc (suc (suc (suc zero)))))) h = (_, refl, refl)
dict_get_type_id-name (suc (suc (suc (suc (suc (suc (suc zero))))))) h = (_, refl, refl)
dict_get_type_id-name (suc (suc (suc (suc (suc (suc (suc (suc n)))))))) h = absurd (omega arith)
