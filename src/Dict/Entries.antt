-- ===== src/Dict/Entries.antt =====
-- The operations of fs/dict.c. `none` is a fault: a read or a write outside of the buffer.
use kanekfs.Base.{
  ℕ, zero, suc, ◌+◌, ◌-◌, ◌*◌, ◌/◌, ◌%◌, ◌^◌, ℤ, pos, negsuc, List, [], ◌∷◌, ◌++◌, Option, none,
  some, Bool, ◌==◌, ltb, leb, ◌&&◌, ◌||◌, not, u32, length, get_elem?, set, take, replicate,
  if◌then◌else◌,
}
use kanekfs.Map.Bitmap.{◌>>=◌}
use kanekfs.Hash.Base79.{hash_b79}
use kanekfs.Dict.{Value, Entry, Dict, dict_init}
use kanekfs.Dict.Strings.{strncpy, same}

abbrev pub dict_key_len : ℕ
dict_key_len = 32

-- `sizeof( dict_entry_t)` on a 64-bit machine.
abbrev pub sizeof_entry : ℕ
sizeof_entry = 56

abbrev pub null_value : Value
null_value = record { data_type = 0; data_len = 0; value = 0 }

-- An entry of zeroes.
abbrev pub zero_entry : Entry
zero_entry = record { hash_key = 0; key = replicate dict_key_len 0; value = null_value }

-- `dentry`. A key of 32 characters or more is stored without a NUL, and `strlen` in `hash_b79` reads
-- on: `behind` is what it finds in memory after the key, the value first, up to a NUL.
unfoldable pub new_entry : List ℕ → List ℕ → Value → Entry
new_entry behind key value =
    let key' = strncpy dict_key_len key in
    record { hash_key = hash_b79 (key' ++ behind); key = key'; value = value }

-- `nbuflen`, an `int`; 0 also stands for a negative one, which the test treats alike.
unfoldable pub nbuflen : Dict → ℕ
nbuflen d = elim d.dict [
  | none ↦ sizeof_entry * 4
  | some buffer ↦
      if leb d.n_elems (u32 (d.used_elems + 1))
      then (let w = sizeof_entry * d.n_elems * 2 % 2 ^ 32 in if ltb w (2 ^ 31) then w else 0)
      else 0
]

abbrev pub buffer_of : Dict → List Entry
buffer_of d = elim d.dict [ none ↦ [] | some buffer ↦ buffer ]

-- The part under `nbuflen > 0`. `realloc` failing goes unnoticed, and the `memset` at NULL faults.
unfoldable pub grow : Dict → ℕ → Bool → Option Dict
grow d len realloc_ok =
    let n = len / sizeof_entry in
    if not realloc_ok || ltb n d.used_elems || ltb (length (buffer_of d)) d.used_elems
    then none
    else some (record {
      n_elems = n;
      used_elems = d.used_elems;
      dict = some (take d.used_elems (buffer_of d) ++ replicate (n - d.used_elems) zero_entry);
    })

-- The copy of `dentry` into the buffer.
unfoldable pub store : Dict → Entry → Option (ℤ × Dict)
store d entry =
    if ltb d.used_elems (length (buffer_of d))
    then some (
      pos 0,
      record {
        n_elems = d.n_elems;
        used_elems = u32 (d.used_elems + 1);
        dict = some (set (buffer_of d) d.used_elems entry);
      },
    )
    else none

unfoldable pub dict_add_entry : Dict → List ℕ → Value → List ℕ → Bool → Option (ℤ × Dict)
dict_add_entry d key value behind realloc_ok =
    let entry = new_entry behind key value in
    if ltb 0 (nbuflen d)
    then (do d' ← grow d (nbuflen d) realloc_ok; store d' entry)
    else store d entry

-- `for( i = 0; i < d->used_elems; i++)`: `*sub`, or that there is none.
unfoldable pub search_loop : ℕ → List Entry → List ℕ → ℕ → Option (Option ℕ)
search_loop zero buffer key i = some none
search_loop (suc n) [] key i = none
search_loop (suc n) (e ∷ rest) key i =
    let later = search_loop n rest key (i + 1) in
    if same dict_key_len key e.key then some (some i) else later

unfoldable pub dict_search_entry : Dict → List ℕ → Option (Option ℕ)
dict_search_entry d key = search_loop d.used_elems (buffer_of d) key 0

-- `memcpy( &p[0], &p[1], n)`, of `n` entries: of two or more the areas overlap, and the copy is not
-- defined.
unfoldable pub shift_down : ℕ → List Entry → Option (List Entry)
shift_down zero buffer = some buffer
shift_down (suc zero) [] = none
shift_down (suc zero) (x ∷ []) = none
shift_down (suc zero) (x ∷ y ∷ rest) = some (y ∷ y ∷ rest)
shift_down (suc (suc n)) buffer = none

-- The same at `&d->dict[sub]`.
unfoldable pub memcpy_down : ℕ → ℕ → List Entry → Option (List Entry)
memcpy_down zero n buffer = shift_down n buffer
memcpy_down (suc sub) n [] = none
memcpy_down (suc sub) n (x ∷ rest) = do rest' ← memcpy_down sub n rest; some (x ∷ rest')

unfoldable pub dict_remove_entry : Dict → List ℕ → Option (ℤ × Dict)
dict_remove_entry d key = if d.used_elems == 0 then some (negsuc 0, d) else do
  found ← dict_search_entry d key
  elim found [
    | none ↦ some (negsuc 0, d)
    | some sub ↦ do
      buffer ←
          if d.used_elems - 1 == sub
          then some (buffer_of d)
          else memcpy_down sub (d.used_elems - sub - 1) (buffer_of d)
      some
          (pos 0, record { n_elems = d.n_elems; used_elems = d.used_elems - 1; dict = some buffer })
  ]

-- `v.value.s != NULL`, and the type is one whose value is owned.
abbrev pub is_owner : Value → Bool
is_owner v = not (v.value == 0) && (v.data_type == 6 || v.data_type == 7 || v.data_type == 5)

-- What is freed.
abbrev pub freed : Value → List ℕ
freed v = if is_owner v then v.value ∷ [] else []

-- The result, the dictionary and the pointers that it frees.
unfoldable pub dict_update_entry : Dict → List ℕ → Value → Option (ℤ × Dict × List ℕ)
dict_update_entry d key new_value = if d.used_elems == 0 then some (negsuc 0, d, []) else do
  found ← dict_search_entry d key
  elim found [
    | none ↦ some (negsuc 0, d, [])
    | some sub ↦ do
      o ← get_elem? (buffer_of d) sub
      some (
        pos 0,
        record {
          n_elems = d.n_elems;
          used_elems = d.used_elems;
          dict = some (set (buffer_of d) sub (record o { value = new_value }));
        },
        freed o.value,
      )
  ]

-- The loop of `dict_clean`.
unfoldable pub clean_loop : ℕ → List Entry → Option (List ℕ)
clean_loop zero buffer = some []
clean_loop (suc n) [] = none
clean_loop (suc n) (e ∷ rest) = do later ← clean_loop n rest; some (freed e.value ++ later)

unfoldable pub dict_clean : Dict → Option (Dict × List ℕ)
dict_clean d = elim d.dict [
  | none ↦ do
    pointers ← if d.n_elems == 0 then some [] else clean_loop d.used_elems []
    some (if d.n_elems == 0 then d else dict_init, pointers)
  | some buffer ↦ do pointers ← clean_loop d.used_elems buffer; some (dict_init, pointers)
]
