-- ===== src/Tests/Dicts.antt =====
-- fs/dict.c on a dictionary of three keys.
use kanekfs.Base.{
  ℕ, pos, negsuc, List, [], ◌∷◌, ◌++◌, none, some, ◌≡◌, ◌≢◌, ◌⊎◌, refl, arith, true, if◌then◌else◌,
  replicate,
}
use kanekfs.Dict.{Value, Entry, Dict, dict_init}
use kanekfs.Dict.Strings.{same}
use kanekfs.Dict.Entries.{
  new_entry, zero_entry, dict_key_len, dict_add_entry, search_loop, dict_search_entry, shift_down,
  memcpy_down, dict_remove_entry, dict_update_entry, dict_clean, freed,
}
use kanekfs.Dict.Store.{IsValid, contents, update_first, lookup}
use kanekfs.Dict.Growth.{next_size, dict_add_entry-contents}
use kanekfs.Dict.Refines.{
  RemoveOutcome, dict_remove_entry-RemoveOutcome, dict_update_entry-contents,
}
use kanekfs.Dict.Lookups.{owned, dict_add_entry-lookup, dict_update_entry-lookup, dict_clean-owned}

-- A number, and a string at address 4096.
abbrev seven : Value
seven = record { data_type = 1; data_len = 0; value = 7 }

abbrev text : Value
text = record { data_type = 5; data_len = 3; value = 4096 }

-- "a", "b" and "c"
abbrev a : List ℕ
a = 97 ∷ []

abbrev b : List ℕ
b = 98 ∷ []

abbrev c : List ℕ
c = 99 ∷ []

abbrev entry : List ℕ → Value → Entry
entry key v = record { hash_key = 0; key = key; value = v }

abbrev three : Dict
three = record {
  n_elems = 4;
  used_elems = 3;
  dict = some (entry a seven ∷ entry b text ∷ entry c text ∷ zero_entry ∷ []);
}

three-IsValid : IsValid three
three-IsValid = record {
  room = refl;
  spare = omega arith;
  empty = λ e. ground arith;
  more = λ e. omega arith;
}

-- Removal moves the last entry down.
removed :
    dict_remove_entry three b
    ≡ some (
      pos 0,
      record {
        n_elems = 4;
        used_elems = 2;
        dict = some (entry a seven ∷ entry c text ∷ entry c text ∷ zero_entry ∷ []);
      },
    )
unfolding dict_remove_entry dict_search_entry search_loop same memcpy_down shift_down
removed = refl

abbrev d : List ℕ
d = 100 ∷ []

-- A key of 32 characters, which is stored without a NUL, before the type of its value.
abbrev long_key : List ℕ
long_key = replicate 32 100

-- The fourth entry makes the buffer grow to eight.
dict_add_entry-contents_example :
    (d' : Dict) × (dict_add_entry three long_key seven (1 ∷ []) true ≡ some (pos 0, d'))
    × IsValid d'
    × (d'.n_elems ≡ next_size three)
    × (contents d' ≡ contents three ++ (new_entry [] long_key seven ∷ []))
dict_add_entry-contents_example =
    dict_add_entry-contents three long_key seven (1 ∷ []) three-IsValid (omega arith)

dict_remove_entry-RemoveOutcome_example :
    RemoveOutcome three b three-IsValid (dict_remove_entry three b)
dict_remove_entry-RemoveOutcome_example = dict_remove_entry-RemoveOutcome three b three-IsValid

-- Two entries follow the first.
overlapping : dict_remove_entry three a ≡ none
unfolding dict_remove_entry dict_search_entry search_loop same memcpy_down shift_down
overlapping = refl

dict_update_entry-contents_example :
    (lookup b (contents three) ≡ none)
      × (dict_update_entry three b seven ≡ some (negsuc 0, three, []))
    ⊎ (d' : Dict) × (old : Value) × (lookup b (contents three) ≡ some old)
      × (dict_update_entry three b seven ≡ some (pos 0, d', freed old))
      × IsValid d'
      × (contents d' ≡ update_first b seven (contents three))
dict_update_entry-contents_example = dict_update_entry-contents three b three-IsValid seven

has_b : lookup b (contents three) ≢ none
unfolding lookup same
has_b e = ground arith

dict_add_entry-lookup_example :
    (d' : Dict) × (dict_add_entry three d seven [] true ≡ some (pos 0, d'))
    × ((other : List ℕ)
        → lookup other (contents d') ≡ elim (lookup other (contents three)) [
          | none ↦ if same dict_key_len other d then some seven else none
          | some w ↦ some w
        ])
dict_add_entry-lookup_example = dict_add_entry-lookup three d seven [] three-IsValid (omega arith)

dict_update_entry-lookup_example :
    (d' : Dict) × (old : Value) × (dict_update_entry three b seven ≡ some (pos 0, d', freed old))
    × (lookup b (contents three) ≡ some old)
    × IsValid d'
    × ((other : List ℕ)
        → lookup other (contents d')
          ≡ (if same dict_key_len other b then some seven else lookup other (contents three)))
dict_update_entry-lookup_example = dict_update_entry-lookup three b seven three-IsValid has_b

dict_clean-owned_example : dict_clean three ≡ some (dict_init, owned (contents three))
dict_clean-owned_example = dict_clean-owned three three-IsValid
