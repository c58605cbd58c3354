-- ===== src/Dict/Store.antt =====
-- What a dictionary stands for: a list of entries, which the operations extend at the end, and in
-- which they find, remove or change the first entry with a key.
use kanekfs.Base.{
  ℕ, ◌+◌, List, [], ◌∷◌, Option, none, some, Bool, ◌≡◌, ◌≢◌, take, length, ◌≤◌, ◌<◌, if◌then◌else◌,
}
use kanekfs.Dict.{Value, Entry, Dict}
use kanekfs.Dict.Strings.{same}
use kanekfs.Dict.Entries.{dict_key_len, buffer_of}

pub record IsValid (d : Dict) : Type 0 where
  pub room : length (buffer_of d) ≡ d.n_elems
  pub spare : d.used_elems ≤ d.n_elems
  pub empty : d.dict ≡ none → d.n_elems ≡ 0
  pub more : d.dict ≢ none → d.used_elems < d.n_elems

abbrev pub contents : Dict → List Entry
contents d = take d.used_elems (buffer_of d)

abbrev pub matches : List ℕ → Entry → Bool
matches key e = same dict_key_len key e.key

unfoldable pub find_first : List ℕ → List Entry → ℕ → Option ℕ
find_first key [] i = none
find_first key (e ∷ rest) i =
    let later = find_first key rest (i + 1) in if matches key e then some i else later

unfoldable pub remove_first : List ℕ → List Entry → List Entry
remove_first key [] = []
remove_first key (e ∷ rest) =
    let later = remove_first key rest in if matches key e then rest else e ∷ later

unfoldable pub update_first : List ℕ → Value → List Entry → List Entry
update_first key v [] = []
update_first key v (e ∷ rest) =
    let later = update_first key v rest in
    if matches key e then record e { value = v } ∷ rest else e ∷ later

-- The value of a key.
unfoldable pub lookup : List ℕ → List Entry → Option Value
lookup key [] = none
lookup key (e ∷ rest) = let later = lookup key rest in if matches key e then some e.value else later
