-- ===== src/Bedrock/Skin/Stem.antt =====
-- `next_available_stem` of src/bedrock/skin.rs.
use skin_get_be_rust.Prelude.{
  ℕ, zero, suc, ◌+◌, ◌-◌, ◌^◌, ◌<◌, ◌≤◌, ◌≡◌, ◌≢◌, ◌⊎◌, refl, sym, ap, ◌∙◌, Bool, true, false, [],
  ◌∷◌, ◌++◌, append_assoc, Option, none, some, length, length-append, drop, drop_prefix, arith,
  Bool-cases, inl, inr,
}
use skin_get_be_rust.Prelude.Map.{lookup, remove, lookup-remove, length-remove_le, length-remove_lt}
use skin_get_be_rust.Prelude.Text.{Chars, codes, chars_beq_iff, chars_eq}
use skin_get_be_rust.Prelude.Decimal.{decimal, digits_value, digits_value-decimal}
use skin_get_be_rust.Bedrock.Skin.{
  Bytes, Files, png_name, json_name, exists, is_some, is_free, numbered, next_count, stem_loop,
  next_available_stem, fuel_for,
}

-- The number in a file's name behind the base name.
abbrev number_in : Chars → Chars → ℕ
number_in base_name name = digits_value 0 (drop (suc (length base_name)) name)

numbered_tail :
    (base_name tail : Chars) (count : ℕ)
    → numbered base_name count ++ tail ≡ (base_name ++ b'_' ∷ []) ++ (decimal count ++ tail)
numbered_tail base_name tail count =
    append_assoc base_name (b'_' ∷ decimal count) tail
    ∙ sym (append_assoc base_name (b'_' ∷ []) (decimal count ++ tail))

number_in-png_name :
    (base_name : Chars) (count : ℕ)
    → number_in base_name (png_name (numbered base_name count)) ≡ count
number_in-png_name base_name count =
    rw
      (
        numbered_tail base_name (codes ".png") count,
        drop_prefix (base_name ++ b'_' ∷ []) (decimal count ++ codes ".png")
            (suc (length base_name)) (omega (arith, length-append base_name (b'_' ∷ []))),
      )
      (digits_value-decimal count b'.' (codes "png") refl)

number_in-json_name :
    (base_name : Chars) (count : ℕ)
    → number_in base_name (json_name (numbered base_name count)) ≡ count
number_in-json_name base_name count =
    rw
      (
        numbered_tail base_name (codes ".json") count,
        drop_prefix (base_name ++ b'_' ∷ []) (decimal count ++ codes ".json")
            (suc (length base_name)) (omega (arith, length-append base_name (b'_' ∷ []))),
      )
      (digits_value-decimal count b'.' (codes "json") refl)

-- A file that is not there stays away when another is removed; only the one removed leaves.
exists-remove :
    (name gone : Chars) (files : Files)
    → gone ≢ name
    → exists name (remove gone files) ≡ exists name files
exists-remove name gone files h =
    ground (arith, lookup-remove gone name files, chars_beq_iff gone name)

-- A file of another number stands where it stood when those of a number are removed.
abbrev without : Chars → ℕ → Files → Files
without base_name count files =
    remove (png_name (numbered base_name count))
      (remove (json_name (numbered base_name count)) files)

is_free-without :
    (base_name : Chars) (count later : ℕ) (files : Files)
    → count ≢ later
    → is_free (without base_name count files) (numbered base_name later)
      ≡ is_free files (numbered base_name later)
is_free-without base_name count later files h =
    let png : (name : Chars)
        → number_in base_name name ≡ later
        → exists name (without base_name count files) ≡ exists name files =
      λ name e.
        exists-remove name (png_name (numbered base_name count))
          (remove (json_name (numbered base_name count)) files)
          (λ same. h (sym (number_in-png_name base_name count) ∙ ap (number_in base_name) same ∙ e))
        ∙ exists-remove name (json_name (numbered base_name count)) files (λ same.
          h (sym (number_in-json_name base_name count) ∙ ap (number_in base_name) same ∙ e)) in
    rw (
      png (png_name (numbered base_name later)) (number_in-png_name base_name later),
      png (json_name (numbered base_name later)) (number_in-json_name base_name later),
    )

is_some-elim : (o : Option Bytes) → is_some o ≡ true → (bytes : Bytes) × (o ≡ some bytes)
is_some-elim none h = cc
is_some-elim (some bytes) h = (bytes, refl)

length-remove_exists :
    (name : Chars) (files : Files)
    → exists name files ≡ true
    → length (remove name files) < length files
length-remove_exists name files h =
    let (bytes, e) = is_some-elim (lookup name files) h in length-remove_lt name files bytes e

length-without :
    (base_name : Chars) (count : ℕ) (files : Files)
    → is_free files (numbered base_name count) ≡ false
    → length (without base_name count files) < length files
length-without base_name count files h = go (Bool-cases (exists json files))
  where
    png : Chars
    png = png_name (numbered base_name count)

    json : Chars
    json = json_name (numbered base_name count)

    go :
        (exists json files ≡ true) ⊎ (exists json files ≡ false)
        → length (without base_name count files) < length files
    go (inl there) =
        omega
          (arith, length-remove_exists json files there, length-remove_le png (remove json files))
    go (inr missing) =
        let there : exists png files ≡ true = ground arith in
        let other : json ≢ png = λ same.
          (let e : ◌≡◌ {A = Bool} true false =
              sym there ∙ ap (λ n. exists n files) (sym same) ∙ missing in
            cc) in
        omega (
          arith,
          length-remove_exists png (remove json files) (exists-remove png json files other ∙ there),
          length-remove_le json files,
        )

-- One of any `n` numbers in a row is free when there are fewer files.
free_within :
    (n : ℕ) (base_name : Chars) (count : ℕ) (files : Files)
    → length files < n
    → (k : ℕ) × (k < n) × (is_free files (numbered base_name (count + k)) ≡ true)
free_within zero base_name count files h = absurd (omega arith)
free_within (suc n) base_name count files h =
    go (free_within n base_name (suc count) (without base_name count files))
      (Bool-cases (is_free files (numbered base_name count)))
  where
    go :
        (length (without base_name count files) < n
          → (k : ℕ) × (k < n)
            × (is_free (without base_name count files) (numbered base_name (suc count + k)) ≡ true))
        → (is_free files (numbered base_name count) ≡ true)
          ⊎ (is_free files (numbered base_name count) ≡ false)
        → (k : ℕ) × (k < suc n) × (is_free files (numbered base_name (count + k)) ≡ true)
    go later (inl free) = let e : count + 0 ≡ count = omega arith in (0, omega arith, rw e free)
    go later (inr taken) =
        let (k, less, free) = later (omega (arith, length-without base_name count files taken)) in
        let e : count + suc k ≡ suc count + k = omega arith in
        (
          suc k,
          omega arith,
          rw e (
              sym (is_free-without base_name count (suc count + k) files (λ same. omega arith))
              ∙ free),
        )

-- The first free number from `count` on, at most `k` later.
abbrev pub FirstFree : ℕ → Files → Chars → ℕ → Option Chars → Type 0
FirstFree k files base_name count found =
    (j : ℕ) × (j ≤ k)
    × (found ≡ some (numbered base_name (count + j)))
    × (is_free files (numbered base_name (count + j)) ≡ true)
    × ((i : ℕ) → i < j → is_free files (numbered base_name (count + i)) ≡ false)

FirstFree-suc :
    (k : ℕ) (files : Files) (base_name : Chars) (count : ℕ) (found : Option Chars)
    → is_free files (numbered base_name count) ≡ false
    → FirstFree k files base_name (suc count) found
    → FirstFree (suc k) files base_name count found
FirstFree-suc k files base_name count found taken (j, less, e, free, before) =
    let moved : count + suc j ≡ suc count + j = omega arith in
    (suc j, omega arith, rw moved e, rw moved free, earlier)
  where
    earlier : (i : ℕ) → i < suc j → is_free files (numbered base_name (count + i)) ≡ false
    earlier zero h = let e0 : count + 0 ≡ count = omega arith in rw e0 taken
    earlier (suc i) h =
        let e1 : count + suc i ≡ suc count + i = omega arith in rw e1 (before i (omega arith))

-- The search stops at the first free number when there is one within its rounds.
stem_loop_first :
    (fuel : ℕ) (files : Files) (base_name : Chars) (count k : ℕ)
    → k < fuel
    → count + k < 2 ^ 32
    → is_free files (numbered base_name (count + k)) ≡ true
    → FirstFree k files base_name count (stem_loop fuel files base_name count)
unfolding stem_loop
stem_loop_first zero files base_name count k h small free = absurd (omega arith)
stem_loop_first (suc fuel) files base_name count zero h small free =
    let e : count + 0 ≡ count = omega arith in
    let here : is_free files (numbered base_name count) ≡ true = rw e at free in
    (0, omega arith, rw (here, e), free, λ i none_. absurd (omega arith))
stem_loop_first (suc fuel) files base_name count (suc k) h small free =
    go (stem_loop_first fuel files base_name (suc count) k)
      (Bool-cases (is_free files (numbered base_name count)))
  where
    go :
        (k < fuel
          → suc count + k < 2 ^ 32
          → is_free files (numbered base_name (suc count + k)) ≡ true
          → FirstFree k files base_name (suc count) (stem_loop fuel files base_name (suc count)))
        → (is_free files (numbered base_name count) ≡ true)
          ⊎ (is_free files (numbered base_name count) ≡ false)
        → FirstFree (suc k) files base_name count (stem_loop (suc fuel) files base_name count)
    go later (inl here) =
        let e : count + 0 ≡ count = omega arith in
        (0, omega arith, rw (here, e), rw e here, λ i none_. absurd (omega arith))
    go later (inr taken) =
        let e : count + suc k ≡ suc count + k = omega arith in
        let next : next_count count ≡ suc count = omega arith in
        rw (taken, next)
          (FirstFree-suc k files base_name count (stem_loop fuel files base_name (suc count)) taken
            (later (omega arith) (omega arith) (rw e at free)))

-- With fewer than 2 ^ 32 - 1 files the search ends: on the base name when it is free, and else on the
-- first free numbered name from 1 on, with a number of at most one more than there are files.
pub next_available_stem_first :
    (files : Files) (base_name : Chars)
    → length files < 2 ^ 32 - 1
    → ((is_free files base_name ≡ true)
        × (next_available_stem (fuel_for files) files base_name ≡ some base_name))
      ⊎ ((is_free files base_name ≡ false)
          × FirstFree
              (length files)
              files
              base_name
              1
              (next_available_stem (fuel_for files) files base_name))
unfolding next_available_stem
next_available_stem_first files base_name h = elim (Bool-cases (is_free files base_name)) [
  | inl free ↦ inl (free, rw free refl)
  | inr taken ↦
      let (k, less, free) = free_within (suc (length files)) base_name 1 files (omega arith) in
      let (j, near, found, clear, before) =
        stem_loop_first (fuel_for files) files base_name 1 k less (omega arith) free in
      inr (taken, rw taken (j, omega arith, found, clear, before))
]
