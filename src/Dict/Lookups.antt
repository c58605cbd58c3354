-- ===== src/Dict/Lookups.antt =====
-- What a key stands for in a dictionary, before and after an operation.
use kanekfs.Base.{
  ℕ, zero, suc, ◌*◌, ◌^◌, ◌<◌, pos, List, [], ◌∷◌, ◌++◌, none, some, true, false, ◌≡◌, ◌≢◌, refl,
  sym, ap, ◌∙◌, arith, ltb, leb, ◌&&◌, inl, inr, Bool-cases, Option-cases, if◌then◌else◌, take,
  length, ◌≤◌,
}
use kanekfs.Dict.{Value, Entry, Dict, dict_init}
use kanekfs.Dict.Entries.{
  dict_key_len, new_entry, dict_add_entry, dict_update_entry, clean_loop, dict_clean, freed,
  buffer_of,
}
use kanekfs.Dict.Strings.{strncpy, same, same-strncpy, same-true, same_iff}
use kanekfs.Dict.Store.{IsValid, contents, matches, update_first, lookup}
use kanekfs.Dict.Growth.{used-buffer, dict_add_entry-contents}
use kanekfs.Dict.Refines.{dict_update_entry-contents}

-- Two keys that match the same entry are matched by the same keys.
matches-same :
    (key other : List ℕ) (e : Entry)
    → matches key e ≡ true
    → matches other e ≡ same dict_key_len other key
matches-same key other e h =
    sym (same-strncpy dict_key_len other e.key)
    ∙ ap (λ r. same dict_key_len other r) (sym (same-true dict_key_len key e.key h))
    ∙ same-strncpy dict_key_len other key

matches-new_entry :
    (key other : List ℕ) (v : Value)
    → matches other (new_entry [] key v) ≡ same dict_key_len other key
unfolding new_entry
matches-new_entry key other v = same-strncpy dict_key_len other key

new_entry-value : (key : List ℕ) (v : Value) → (new_entry [] key v).value ≡ v
unfolding new_entry
new_entry-value key v = refl

lookup-append :
    (xs : List Entry) (key other : List ℕ) (v : Value)
    → lookup other (xs ++ (new_entry [] key v ∷ [])) ≡ elim (lookup other xs) [
      | none ↦ if same dict_key_len other key then some v else none
      | some w ↦ some w
    ]
unfolding lookup
lookup-append [] key other v = rw (matches-new_entry key other v, new_entry-value key v) refl
lookup-append (e ∷ rest) key other v = elim (Bool-cases (matches other e)) [
  | inl here ↦ rw here refl
  | inr later ↦ rw later (lookup-append rest key other v)
]

different :
    (key other : List ℕ) (e : Entry)
    → matches other e ≡ true
    → matches key e ≡ false
    → same dict_key_len other key ≡ false
different key other e h l = elim (Bool-cases (same dict_key_len other key)) [
  | inl same_key ↦
      let agree : strncpy dict_key_len key ≡ strncpy dict_key_len e.key =
        sym (same-true dict_key_len other key same_key) ∙ same-true dict_key_len other e.key h in
      let hit : matches key e ≡ true = (same_iff dict_key_len key e.key).1 agree in ground arith
  | inr apart ↦ apart
]

lookup-update_first :
    (xs : List Entry) (key other : List ℕ) (v : Value)
    → lookup key xs ≢ none
    → lookup other (update_first key v xs)
      ≡ (if same dict_key_len other key then some v else lookup other xs)
unfolding lookup update_first
lookup-update_first [] key other v h = absurd (h refl)
lookup-update_first (e ∷ rest) key other v h = elim (Bool-cases (matches key e)) [
  | inl here ↦ rw (here, matches-same key other e here) (ground arith)
  | inr not_here ↦
      let later : lookup key rest ≢ none = λ f. h (rw not_here f) in
      let ih = lookup-update_first rest key other v later in
      elim (Bool-cases (matches other e)) [
        | inl first ↦
            let apart : same dict_key_len other key ≡ false =
              different key other e first not_here in
            rw (not_here, first, apart) refl
        | inr next ↦ rw (not_here, next) ih
      ]
]

-- After `dict_add_entry` on a well-formed dictionary, with memory and while the length of the
-- buffer is an `int`, every key that had a value keeps it; of the others, those that agree with
-- the new key in the first 32 characters have the new value.
pub dict_add_entry-lookup :
    (d : Dict) (key : List ℕ) (v : Value) (behind : List ℕ)
    → IsValid d
    → d.n_elems * 112 < 2 ^ 31
    → (d' : Dict) × (dict_add_entry d key v behind true ≡ some (pos 0, d'))
      × ((other : List ℕ)
          → lookup other (contents d') ≡ elim (lookup other (contents d)) [
            | none ↦ if same dict_key_len other key then some v else none
            | some w ↦ some w
          ])
dict_add_entry-lookup d key v behind valid h =
    let (d', e, valid', size, c) = dict_add_entry-contents d key v behind valid h in
    (d', e, λ other. ap (lookup other) c ∙ lookup-append (contents d) key other v)

-- After a `dict_update_entry` that finds its key in a well-formed dictionary, every key that agrees
-- with it in the first 32 characters has the new value, and every other key what it had.
pub dict_update_entry-lookup :
    (d : Dict) (key : List ℕ) (v : Value)
    → IsValid d
    → lookup key (contents d) ≢ none
    → (d' : Dict) × (old : Value) × (dict_update_entry d key v ≡ some (pos 0, d', freed old))
      × (lookup key (contents d) ≡ some old)
      × IsValid d'
      × ((other : List ℕ)
          → lookup other (contents d')
            ≡ (if same dict_key_len other key then some v else lookup other (contents d)))
dict_update_entry-lookup d key v valid h = elim (dict_update_entry-contents d key valid v) [
  | inl (missing, e) ↦ absurd (h missing)
  | inr (d', old, w, e, valid', c) ↦ (
    d',
    old,
    e,
    w,
    valid',
    λ other. ap (lookup other) c ∙ lookup-update_first (contents d) key other v h,
  )
]

-- What the entries own: the pointers, other than NULL, of the strings, blobs and extents, whose types
-- are 5, 6 and 7.
unfoldable pub owned : List Entry → List ℕ
owned [] = []
owned (e ∷ rest) =
    let later = owned rest in
    if leb 5 e.value.data_type && leb e.value.data_type 7 && ltb 0 e.value.value
    then e.value.value ∷ later
    else later

freed-owned : (e : Entry) (rest : List Entry) → freed e.value ++ owned rest ≡ owned (e ∷ rest)
unfolding owned
freed-owned e rest = ground arith

clean_loop-owned :
    (n : ℕ) (buffer : List Entry)
    → n ≤ length buffer
    → clean_loop n buffer ≡ some (owned (take n buffer))
unfolding clean_loop owned
clean_loop-owned zero buffer h = refl
clean_loop-owned (suc n) [] h = absurd (omega arith)
clean_loop-owned (suc n) (e ∷ rest) h =
    rw (clean_loop-owned n rest (omega arith), freed-owned e (take n rest)) refl

-- A dictionary is known from its fields.
dict_of_fields : (d : Dict) → d.n_elems ≡ 0 → d.used_elems ≡ 0 → d.dict ≡ none → d ≡ dict_init
unfolding dict_init
dict_of_fields d e f g = λ i. record { n_elems = e i; used_elems = f i; dict = g i }

clean-empty : dict_clean dict_init ≡ some (dict_init, owned (contents dict_init))
unfolding dict_clean dict_init owned
clean-empty = refl

-- On a well-formed dictionary `dict_clean` frees, in the order of the entries in use, the pointer of
-- each that holds a string, a blob or an extent, unless it is NULL, and leaves an empty dictionary.
pub dict_clean-owned : (d : Dict) → IsValid d → dict_clean d ≡ some (dict_init, owned (contents d))
unfolding dict_clean
dict_clean-owned d valid =
    let all = clean_loop-owned d.used_elems (buffer_of d) (used-buffer valid) in
    elim (Option-cases d.dict) [
      | inl null ↦
          let n : d.n_elems ≡ 0 = valid.empty null in
          let u : d.used_elems ≡ 0 = omega (arith, valid.spare) in
          rw (dict_of_fields d n u null) clean-empty
      | inr (buffer, b) ↦ let all' = rw b at all in rw b (rw all' refl)
    ]
