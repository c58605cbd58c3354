-- ===== src/Dict/Refines.antt =====
-- The other operations of fs/dict.c on a well-formed dictionary, by what they make of its contents.
use kanekfs.Base.{
  ℕ, ◌+◌, ◌-◌, ◌≤◌, ◌<◌, ℤ, pos, negsuc, List, [], Option, none, some, false, ltb, ◌==◌, ◌≡◌, ◌≢◌,
  refl, ◌∙◌, arith, length, length-take, length-set, set, inl, inr, ◌⊎◌, Bool-cases, Option-cases,
}
use kanekfs.Dict.{Value, Entry, Dict}
use kanekfs.Dict.Entries.{buffer_of, dict_search_entry, dict_remove_entry, dict_update_entry, freed}
use kanekfs.Dict.Store.{IsValid, contents, find_first, remove_first, update_first, lookup}
use kanekfs.Dict.Growth.{used-buffer}
use kanekfs.Dict.Buffers.{
  memcpy_overlap, search_loop-find_first, find_first-from, remove-memcpy_first, remove-last,
  update-set_first, find_first-none,
}

module _ (d : Dict) (key : List ℕ) (valid : IsValid d) where
  dict_search_entry-find_first : dict_search_entry d key ≡ some (find_first key (contents d) 0)
  unfolding dict_search_entry
  dict_search_entry-find_first =
      search_loop-find_first d.used_elems (buffer_of d) key 0 (used-buffer valid)

  found_used : (k : ℕ) → find_first key (contents d) 0 ≡ some k → k < d.used_elems
  found_used k e =
      omega (arith, find_first-from key (contents d) 0 k e, length-take d.used_elems (buffer_of d))

  used_some : 0 < d.used_elems → d.dict ≢ none
  used_some h e = absurd (omega (arith, valid.empty e, valid.spare))

  -- The dictionary with one entry less.
  less-IsValid :
      (buffer : List Entry)
      → 0 < d.used_elems
      → length buffer ≡ length (buffer_of d)
      → IsValid (record { n_elems = d.n_elems; used_elems = d.used_elems - 1; dict = some buffer })
  less-IsValid buffer h l = record {
    room = l ∙ valid.room;
    spare = omega (arith, valid.spare);
    empty = λ e. ground arith;
    more = λ e. omega (arith, valid.more (used_some h));
  }

  -- The ways in which `dict_remove_entry` ends.
  pub data RemoveOutcome : Option (ℤ × Dict) → Type 0 where
    key_missing : find_first key (contents d) 0 ≡ none → RemoveOutcome (some (negsuc 0, d))
    entry_removed :
        (k : ℕ) (d' : Dict)
        → find_first key (contents d) 0 ≡ some k
        → d.used_elems ≤ k + 2
        → IsValid d'
        → contents d' ≡ remove_first key (contents d)
        → RemoveOutcome (some (pos 0, d'))
    copy_overlaps :
        (k : ℕ) → find_first key (contents d) 0 ≡ some k → k + 2 < d.used_elems → RemoveOutcome none

  -- On a well-formed dictionary `dict_remove_entry` returns -1 and changes nothing when no entry
  -- has the key. When one entry at most follows the first with the key, it returns 0 and removes
  -- that one, the others keeping their order, and the dictionary stays well formed. When two or more
  -- follow, its `memcpy` is between areas that overlap, which is not defined.
  pub dict_remove_entry-RemoveOutcome : RemoveOutcome (dict_remove_entry d key)
  unfolding dict_remove_entry
  dict_remove_entry-RemoveOutcome = elim (Option-cases (find_first key (contents d) 0)) [
    | inl none_found ↦ elim (Bool-cases (d.used_elems == 0)) [
      | inl nothing ↦ rw nothing (key_missing none_found)
      | inr something ↦
          rw (something, dict_search_entry-find_first, none_found) (key_missing none_found)
    ]
    | inr (k, found) ↦
        let inside = found_used k found in
        let something : (d.used_elems == 0) ≡ false = ground arith in
        elim (Bool-cases (d.used_elems - 1 == k)) [
          | inl last ↦
              rw (something, dict_search_entry-find_first, found, last)
                (entry_removed k
                  (record {
                    n_elems = d.n_elems;
                    used_elems = d.used_elems - 1;
                    dict = some (buffer_of d);
                  })
                  found (ground arith) (less-IsValid (buffer_of d) (omega arith) refl)
                  (remove-last d.used_elems (buffer_of d) key 0 k (used-buffer valid) found
                    (ground arith)))
          | inr before ↦ elim (Bool-cases (ltb (k + 2) d.used_elems)) [
            | inl many ↦
                rw
                  (
                    something,
                    dict_search_entry-find_first,
                    found,
                    before,
                    memcpy_overlap k (d.used_elems - k - 1) (buffer_of d) (ground arith),
                  )
                  (copy_overlaps k found (ground arith))
            | inr one ↦
                let (buffer, e, t, l) =
                  remove-memcpy_first d.used_elems (buffer_of d) key k (used-buffer valid)
                    (ground arith) found in
                rw (something, dict_search_entry-find_first, found, before, e)
                  (entry_removed k
                    (record {
                      n_elems = d.n_elems;
                      used_elems = d.used_elems - 1;
                      dict = some buffer;
                    })
                    found (ground arith) (less-IsValid buffer (omega arith) l) t)
          ]
        ]
  ]

  -- On a well-formed dictionary `dict_update_entry` returns -1, frees and changes nothing when no
  -- entry has the key; otherwise it returns 0, gives the first entry with the key the new value,
  -- and frees what the value before owned; the dictionary stays well formed.
  pub dict_update_entry-contents :
      (v : Value)
      → (lookup key (contents d) ≡ none) × (dict_update_entry d key v ≡ some (negsuc 0, d, []))
        ⊎ (d' : Dict) × (old : Value) × (lookup key (contents d) ≡ some old)
          × (dict_update_entry d key v ≡ some (pos 0, d', freed old))
          × IsValid d'
          × (contents d' ≡ update_first key v (contents d))
  unfolding dict_update_entry
  dict_update_entry-contents v = elim (Option-cases (find_first key (contents d) 0)) [
    | inl missing ↦
        let no_value = find_first-none key (contents d) 0 missing in
        elim (Bool-cases (d.used_elems == 0)) [
          | inl nothing ↦ inl (no_value, rw nothing refl)
          | inr something ↦
              inl (no_value, rw (something, dict_search_entry-find_first, missing) refl)
        ]
    | inr (k, found) ↦
        let inside = found_used k found in
        let something : (d.used_elems == 0) ≡ false = ground arith in
        let (o, e, w, t) =
          update-set_first d.used_elems (buffer_of d) key v k (used-buffer valid) found in
        let buffer = set (buffer_of d) k (record o { value = v }) in
        inr (
          record { n_elems = d.n_elems; used_elems = d.used_elems; dict = some buffer },
          o.value,
          w,
          rw (something, dict_search_entry-find_first, found, e) refl,
          record {
            room = length-set (buffer_of d) k (record o { value = v }) ∙ valid.room;
            spare = valid.spare;
            empty = λ f. ground arith;
            more = λ f. valid.more (used_some (omega arith));
          },
          t,
        )
  ]
