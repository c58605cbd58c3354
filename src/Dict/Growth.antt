-- ===== src/Dict/Growth.antt =====
-- `dict_add_entry` of fs/dict.c: the buffer that grows, and the entry at its end.
use kanekfs.Base.{
  ℕ, suc, ◌+◌, ◌-◌, ◌*◌, ◌/◌, ◌%◌, ◌^◌, ◌≤◌, ◌<◌, pos, List, [], ◌∷◌, ◌++◌, none, some, true, false,
  ◌==◌, ltb, leb, u32, ◌≡◌, ◌≢◌, refl, sym, ap, ◌∙◌, arith, take, length, length-take,
  length-append, length-replicate, length-set, set, replicate, inl, inr, ◌⊎◌, Bool-cases,
  Option-cases, if◌then◌else◌,
}
use kanekfs.Dict.{Value, Entry, Dict}
use kanekfs.Dict.Entries.{
  sizeof_entry, nbuflen, buffer_of, grow, store, new_entry, zero_entry, dict_add_entry,
}
use kanekfs.Dict.Keys.{new_entry-behind}
use kanekfs.Dict.Store.{IsValid, contents}
use kanekfs.Dict.Buffers.{take-prefix, take-take, take-set_end}

pub used-buffer : {d : Dict} → IsValid d → d.used_elems ≤ length (buffer_of d)
used-buffer v = omega (arith, v.room, v.spare)

some_not_none : {b : List Entry} → some b ≢ none
some_not_none h = ground arith

store-contents :
    (d : Dict) (e : Entry)
    → length (buffer_of d) ≡ d.n_elems
    → d.used_elems + 1 < d.n_elems
    → d.n_elems < 2 ^ 32
    → (d' : Dict) × (store d e ≡ some (pos 0, d'))
      × IsValid d'
      × (d'.n_elems ≡ d.n_elems)
      × (contents d' ≡ contents d ++ (e ∷ []))
unfolding store
store-contents d e room spare small =
    let fits : ltb d.used_elems (length (buffer_of d)) ≡ true = ground arith in
    let same : u32 (d.used_elems + 1) ≡ suc d.used_elems = omega arith in
    let set_end = take-set_end d.used_elems (buffer_of d) e (omega arith) in
    let set_room : length (set (buffer_of d) d.used_elems e) ≡ d.n_elems =
      length-set (buffer_of d) d.used_elems e ∙ room in
    (
      record {
        n_elems = d.n_elems;
        used_elems = u32 (d.used_elems + 1);
        dict = some (set (buffer_of d) d.used_elems e);
      },
      rw fits refl,
      record {
        room = set_room;
        spare = omega arith;
        empty = λ h. ground arith;
        more = λ h. omega arith;
      },
      refl,
      rw same set_end,
    )

grow-contents :
    (d : Dict) (n len : ℕ)
    → len / sizeof_entry ≡ n
    → d.used_elems ≤ n
    → d.used_elems ≤ length (buffer_of d)
    → (d' : Dict) × (grow d len true ≡ some d')
      × (length (buffer_of d') ≡ d'.n_elems)
      × (d'.n_elems ≡ n)
      × (d'.used_elems ≡ d.used_elems)
      × (contents d' ≡ contents d)
unfolding grow
grow-contents d n len e l m =
    let old = take d.used_elems (buffer_of d) in
    let fresh = replicate (n - d.used_elems) zero_entry in
    let size : length old ≡ d.used_elems = omega (arith, length-take d.used_elems (buffer_of d)) in
    let big : ltb n d.used_elems ≡ false = ground arith in
    let inside : ltb (length (buffer_of d)) d.used_elems ≡ false = ground arith in
    (
      record { n_elems = n; used_elems = d.used_elems; dict = some (old ++ fresh) },
      rw (e, big, inside) refl,
      omega (arith, length-append old fresh, length-replicate (n - d.used_elems) zero_entry, size),
      refl,
      refl,
      take-prefix d.used_elems old fresh (omega arith) ∙ take-take d.used_elems (buffer_of d),
    )

-- The number of entries after an addition: the first four, then twice as many whenever the last
-- spare one would be used.
abbrev pub next_size : Dict → ℕ
next_size d =
    if d.n_elems == 0
    then 4
    else if leb d.n_elems (d.used_elems + 1)
    then d.n_elems * 2
    else d.n_elems

-- The length of the buffer that is asked for.
nbuflen-next_size :
    (d : Dict)
    → IsValid d
    → d.n_elems * 112 < 2 ^ 31
    → (ltb 0 (nbuflen d) ≡ true)
        × (nbuflen d / sizeof_entry ≡ next_size d)
        × (d.used_elems + 1 < next_size d)
      ⊎ (ltb 0 (nbuflen d) ≡ false) × (next_size d ≡ d.n_elems) × (d.used_elems + 1 < d.n_elems)
unfolding nbuflen
nbuflen-next_size d v h = elim (Option-cases d.dict) [
  | inl null ↦
      let none_yet = v.empty null in
      let s = v.spare in rw null (inl (refl, ground arith, ground arith))
  | inr (buffer, b) ↦
      let more : d.used_elems < d.n_elems = v.more (λ e. some_not_none (sym b ∙ e)) in
      let same : u32 (d.used_elems + 1) ≡ d.used_elems + 1 = omega arith in
      rw (b, same)
        (elim (Bool-cases (leb d.n_elems (d.used_elems + 1))) [
          | inl full ↦
              let w : 56 * d.n_elems * 2 % 2 ^ 32 ≡ d.n_elems * 112 = omega arith in
              let small : ltb (d.n_elems * 112) (2 ^ 31) ≡ true = ground arith in
              rw (full, w, small) (inl (ground arith, ground arith, ground arith))
          | inr spare ↦ rw spare (inr (refl, ground arith, ground arith))
        ])
]

-- On a well-formed dictionary, with memory and while the length of the buffer is an `int`,
-- `dict_add_entry` returns 0, adds the entry after all others, and leaves a well-formed dictionary
-- whose capacity is four at first and doubles when the last spare entry would be used. The entry is
-- the same whatever follows its key in memory.
pub dict_add_entry-contents :
    (d : Dict) (key : List ℕ) (v : Value) (behind : List ℕ)
    → IsValid d
    → d.n_elems * 112 < 2 ^ 31
    → (d' : Dict) × (dict_add_entry d key v behind true ≡ some (pos 0, d'))
      × IsValid d'
      × (d'.n_elems ≡ next_size d)
      × (contents d' ≡ contents d ++ (new_entry [] key v ∷ []))
unfolding dict_add_entry
dict_add_entry-contents d key v behind valid h =
    rw (new_entry-behind behind key v) (elim (nbuflen-next_size d valid h) [
      | inl (grows, size, spare) ↦
          let (d1, e1, room, n1, u1, c1) =
            grow-contents d (next_size d) (nbuflen d) size (omega arith) (used-buffer valid) in
          let (d2, e2, v2, n2, c2) =
            store-contents d1 (new_entry [] key v) room (omega arith) (ground arith) in
          (d2, rw (grows, e1) e2, v2, n2 ∙ n1, c2 ∙ ap (λ xs. xs ++ (new_entry [] key v ∷ [])) c1)
      | inr (stays, size, spare) ↦
          let (d2, e2, v2, n2, c2) =
            store-contents d (new_entry [] key v) valid.room spare (omega arith) in
          (d2, rw stays e2, v2, n2 ∙ sym size, c2)
    ])
