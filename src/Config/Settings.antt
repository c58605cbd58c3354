-- ===== src/Config/Settings.antt =====
-- Settings in a file, and what kfs_config_read of fs/kfs_config.c makes of them.
use kanekfs.Base.{
  ℕ, suc, ◌+◌, ◌-◌, ◌≤◌, ◌<◌, ℤ, pos, List, [], ◌∷◌, ◌++◌, true, false, ◌==◌, ◌≡◌, refl, ap, ◌∙◌,
  arith, Option, some, none, get_or, length, length-append,
}
use kanekfs.Text.{isspace, trim}
use kanekfs.Config.{
  Config, codes, empty_config, fgets_lines, strtok, skip_spaces, signed, atoi, to_int, negative,
  set_value, starts_by, key_value, go_on, read_line, read_lines, kfs_config_read,
}
use kanekfs.Config.Lines.{IsPlain, is_plain, append-IsPlain, fgets_lines-line, until_nul-line}
use kanekfs.Config.Words.{
  is_clean, IsClean, word-IsPlain, clean_solid, word_solid, strtok-word, strtok-append,
}
use kanekfs.Config.Trim.{get_or-append_right, trim-line}

-- A key or a value in a file: not empty, clean, and short.
abbrev pub IsWord : List ℕ → Type 0
IsWord s = (1 ≤ length s) × (length s ≤ 60) × IsClean s

abbrev pub IsKey : List ℕ → Type 0
IsKey s = IsWord s × (starts_by 35 s ≡ false)

-- The text `key = value`.
abbrev pub setting : List ℕ → List ℕ → List ℕ
setting key value = key ++ 32 ∷ 61 ∷ 32 ∷ value

abbrev pub print_settings : List (List ℕ × List ℕ) → List ℕ
print_settings [] = []
print_settings ((key, value) ∷ settings) = setting key value ++ 10 ∷ print_settings settings

-- The settings one after the other.
unfoldable pub set_values : List (List ℕ × List ℕ) → Config → Option (ℤ × Config)
set_values [] conf = some (pos 0, conf)
set_values ((key, value) ∷ settings) conf =
    go_on (set_value key value conf) conf (set_values settings)

go_on-ext :
    (r : Option (Option Config)) (conf : Config) {f g : Config → Option (ℤ × Config)}
    → ((conf' : Config) → f conf' ≡ g conf')
    → go_on r conf f ≡ go_on r conf g
go_on-ext none conf h = refl
go_on-ext (some none) conf h = refl
go_on-ext (some (some conf')) conf h = h conf'

abbrev pub AreWords : List (List ℕ × List ℕ) → Type 0
AreWords [] = Unit
AreWords ((key, value) ∷ settings) = IsKey key × IsWord value × AreWords settings

plain_space : is_plain 32 ≡ true
plain_space = refl

plain_equals : is_plain 61 ≡ true
plain_equals = refl

setting-IsPlain : (key value : List ℕ) → IsClean key → IsClean value → IsPlain (setting key value)
setting-IsPlain key value p q =
    append-IsPlain key (32 ∷ 61 ∷ 32 ∷ value) (word-IsPlain key p)
      (plain_space, (plain_equals, (plain_space, word-IsPlain value q)))

clean_no_newline : (c : ℕ) → is_clean c ≡ true → (c == 10) ≡ false
clean_no_newline c h = ground arith

trim-setting :
    (c : ℕ) (k : List ℕ) (d : ℕ) (v : List ℕ)
    → IsClean (c ∷ k)
    → IsClean (d ∷ v)
    → trim (setting (c ∷ k) (d ∷ v) ++ 10 ∷ []) ≡ some (setting (c ∷ k) (d ∷ v))
trim-setting c k d v p q =
    let tail : List ℕ = 32 ∷ 61 ∷ 32 ∷ d ∷ v in
    let n : ℕ = length (c ∷ k) + suc (suc (suc (length v))) in
    let len : length (setting (c ∷ k) (d ∷ v)) ≡ suc n = length-append (c ∷ k) tail ∙ omega arith in
    let last : isspace (get_or (setting (c ∷ k) (d ∷ v)) n 0) ≡ false =
      ap isspace (
        get_or-append_right (c ∷ k) tail n (omega arith)
        ∙ ap (λ (i : ℕ). get_or tail i 0)
            (let z : n - length (c ∷ k) ≡ suc (suc (suc (length v))) = omega arith in z))
      ∙ word_solid (d ∷ v) (length v) q (omega arith) in
    trim-line (setting (c ∷ k) (d ∷ v)) n len (clean_solid c p.0) last

read_line-setting :
    (key value : List ℕ) (conf : Config)
    → IsKey key
    → IsWord value
    → read_line (setting key value ++ 10 ∷ []) conf ≡ set_value key value conf
unfolding read_line key_value
read_line-setting [] value conf p q = absurd (omega (arith, p.0.0))
read_line-setting (c ∷ k) [] conf p q = absurd (omega (arith, q.0))
read_line-setting (c ∷ k) (d ∷ v) conf p q =
    let newline : (c == 10) ≡ false = clean_no_newline c p.0.2.0 in
    let hash : (c == 35) ≡ false = p.1 in
    rw
      (
        read_line,
        newline,
        until_nul-line (setting (c ∷ k) (d ∷ v)) (setting-IsPlain (c ∷ k) (d ∷ v) p.0.2 q.2),
        trim-setting c k d v p.0.2 q.2,
        hash,
        key_value,
        strtok-append c k (61 ∷ 32 ∷ d ∷ v) p.0.2,
        strtok-word d v q.2,
      )
      refl

-- A file of settings has the effect of its settings in order.
pub read_lines-settings :
    (settings : List (List ℕ × List ℕ)) (conf : Config)
    → AreWords settings
    → read_lines (fgets_lines (print_settings settings)) conf ≡ set_values settings conf
unfolding read_lines set_values fgets_lines kanekfs.Config.fgets_from
read_lines-settings [] conf h = refl
read_lines-settings ((key, value) ∷ settings) conf h =
    let short : length (setting key value) < 127 =
      let z : length (setting key value) ≡ length key + suc (suc (suc (length value))) =
        length-append key (32 ∷ 61 ∷ 32 ∷ value) in
      omega (arith, z, h.0.0.1, h.1.1) in
    let plain : IsPlain (setting key value) = setting-IsPlain key value h.0.0.2 h.1.2 in
    rw
      (
        fgets_lines-line (setting key value) (print_settings settings) plain short,
        read_lines,
        read_line-setting key value conf h.0 h.1,
      )
      (go_on-ext (set_value key value conf) conf (λ conf'. read_lines-settings settings conf' h.2))
