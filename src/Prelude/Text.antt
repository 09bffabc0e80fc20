-- ===== src/Prelude/Text.antt =====
-- Text as the list of its characters' code points. A search gives the text before and behind what it
-- finds, where the code takes slices at byte offsets.
use Prim.Native.Nat.{ℕ, ◌+◌}
use Prim.Native.Char.{code}
use Prim.Native.String.{String}
use mathlib.Core.Path.{◌≡◌, refl, ap}
use mathlib.Core.Logic.{◌↔◌, inl, inr}
use mathlib.Core.Bool.{Bool, true, false, ◌&&◌, ◌||◌}
use mathlib.Core.Option.{Option, none, some}
use mathlib.Core.List.{List, [], ◌∷◌, ◌++◌}
use native.Mathlib.Omega.{arith}
use skin_get_be_rust.Prelude.Tests.{ltb, leb, ◌==◌, ==_iff, if◌then◌else◌, Bool-cases}
use skin_get_be_rust.Prelude.Map.{Eq}

abbrev pub Chars : Type 0
Chars = List ℕ

abbrev pub codes : String → Chars
codes String.[] = []
codes (String.◌∷◌ c s) = code c ∷ codes s

abbrev pub chars_beq : Chars → Chars → Bool
chars_beq [] [] = true
chars_beq (x ∷ xs) (y ∷ ys) = x == y && chars_beq xs ys
chars_beq _ _ = false

pub chars_beq_iff : (xs ys : Chars) → (chars_beq xs ys ≡ true) ↔ (xs ≡ ys)
chars_beq_iff [] [] = ground arith
chars_beq_iff [] (y ∷ ys) = ground arith
chars_beq_iff (x ∷ xs) [] = ground arith
chars_beq_iff (x ∷ xs) (y ∷ ys) = ground (arith, chars_beq_iff xs ys)

instance abbrev pub chars_eq : Eq Chars
chars_eq = record { beq = chars_beq; beq_iff = chars_beq_iff }

abbrev pub is_empty : Chars → Bool
is_empty [] = true
is_empty (c ∷ s) = false

abbrev pub contains : ℕ → Chars → Bool
contains d [] = false
contains d (c ∷ s) = c == d || contains d s

-- `s.matches(d).count()`
abbrev pub count : ℕ → Chars → ℕ
count d [] = 0
count d (c ∷ s) = (if c == d then 1 else 0) + count d s

abbrev pub shifted : ℕ → Option (Chars × Chars) → Option (Chars × Chars)
shifted c none = none
shifted c (some (before, after)) = some (c ∷ before, after)

-- The text before and behind the first character `d`.
unfoldable pub split_char : ℕ → Chars → Option (Chars × Chars)
split_char d [] = none
split_char d (c ∷ s) = let rest = split_char d s in if c == d then some ([], s) else shifted c rest

-- `s.strip_prefix(pre)`
unfoldable pub strip_prefix : Chars → Chars → Option Chars
strip_prefix [] s = some s
strip_prefix (p ∷ pre) [] = none
strip_prefix (p ∷ pre) (c ∷ s) = let rest = strip_prefix pre s in if p == c then rest else none

abbrev pub found_or : Option Chars → Option (Chars × Chars) → Option (Chars × Chars)
found_or none later = later
found_or (some after) later = some ([], after)

-- The text before and behind the first occurrence of `needle`.
unfoldable pub split_text : Chars → Chars → Option (Chars × Chars)
split_text needle [] = found_or (strip_prefix needle []) none
split_text needle (c ∷ s) =
    let later = shifted c (split_text needle s) in found_or (strip_prefix needle (c ∷ s)) later

-- `char::is_whitespace`
abbrev pub is_whitespace : ℕ → Bool
is_whitespace c =
    leb 9 c && leb c 13
    || c == 0x20
    || c == 0x85
    || c == 0xa0
    || c == 0x1680
    || leb 0x2000 c && leb c 0x200a
    || c == 0x2028
    || c == 0x2029
    || c == 0x202f
    || c == 0x205f
    || c == 0x3000

-- `s.trim_start()`
unfoldable pub trim_start : Chars → Chars
trim_start [] = []
trim_start (c ∷ s) = let rest = trim_start s in if is_whitespace c then rest else c ∷ s

-- `s.trim_end()` and `s.trim()`
unfoldable pub trim_end : Chars → Chars
trim_end [] = []
trim_end (c ∷ s) =
    let rest = trim_end s in if is_empty rest && is_whitespace c then [] else c ∷ rest

abbrev pub trim : Chars → Chars
trim s = trim_end (trim_start s)

-- `s.trim_matches(d)`
unfoldable pub strip_front : ℕ → Chars → Chars
strip_front d [] = []
strip_front d (c ∷ s) = let rest = strip_front d s in if c == d then rest else c ∷ s

unfoldable pub strip_back : ℕ → Chars → Chars
strip_back d [] = []
strip_back d (c ∷ s) = let rest = strip_back d s in if is_empty rest && c == d then [] else c ∷ rest

abbrev pub trim_matches : ℕ → Chars → Chars
trim_matches d s = strip_back d (strip_front d s)

-- The number of bytes of a character and of a text in UTF-8.
abbrev pub utf8_width : ℕ → ℕ
utf8_width c = if ltb c 0x80 then 1 else if ltb c 0x800 then 2 else if ltb c 0x1_0000 then 3 else 4

abbrev pub byte_len : Chars → ℕ
byte_len [] = 0
byte_len (c ∷ s) = utf8_width c + byte_len s

pub shifted-some :
    (c : ℕ) (o : Option (Chars × Chars)) (before after : Chars)
    → shifted c o ≡ some (before, after)
    → (b : Chars) × (o ≡ some (b, after)) × (before ≡ c ∷ b)
shifted-some c none before after h = cc
shifted-some c (some (b, a)) before after h = (b, cc, cc)

pub split_char_sound :
    (d : ℕ) (s before after : Chars)
    → split_char d s ≡ some (before, after)
    → (s ≡ before ++ d ∷ after) × (contains d before ≡ false)
unfolding split_char
split_char_sound d [] before after h = cc
split_char_sound d (c ∷ s) before after h = elim (Bool-cases (c == d)) [
  | inl here ↦
      let e : ◌≡◌ {A = Option (Chars × Chars)} (some ([], s)) (some (before, after)) =
        rw here at h in
      let same : c ≡ d = (==_iff c d).0 here in
      let empty : [] ≡ before = cc e in
      let rest : s ≡ after = cc e in rw (← empty, same, rest) (refl, refl)
  | inr later ↦
      let (b, e, same) = shifted-some c (split_char d s) before after (rw later at h) in
      let (whole, free) = split_char_sound d s b after e in rw (same, later, whole) (refl, free)
]

pub split_char-append :
    (d : ℕ) (before after : Chars)
    → contains d before ≡ false
    → split_char d (before ++ d ∷ after) ≡ some (before, after)
unfolding split_char
split_char-append d [] after h = ground arith
split_char-append d (c ∷ before) after h = ground (arith, split_char-append d before after)

pub split_char-none : (d : ℕ) (s : Chars) → contains d s ≡ false → split_char d s ≡ none
unfolding split_char
split_char-none d [] h = refl
split_char-none d (c ∷ s) h = ground (arith, split_char-none d s)

pub strip_prefix_sound : (pre s after : Chars) → strip_prefix pre s ≡ some after → s ≡ pre ++ after
unfolding strip_prefix
strip_prefix_sound [] s after h = cc
strip_prefix_sound (p ∷ pre) [] after h = cc
strip_prefix_sound (p ∷ pre) (c ∷ s) after h = ground (arith, strip_prefix_sound pre s after)

pub strip_prefix-append : (pre after : Chars) → strip_prefix pre (pre ++ after) ≡ some after
unfolding strip_prefix
strip_prefix-append [] after = refl
strip_prefix-append (p ∷ pre) after = ground (arith, strip_prefix-append pre after)

-- What is in front and behind of the first occurrence.
pub split_text_sound :
    (needle s before after : Chars)
    → split_text needle s ≡ some (before, after)
    → s ≡ before ++ (needle ++ after)
unfolding split_text
split_text_sound needle [] before after h = go (strip_prefix needle []) refl h
  where
    go :
        (o : Option Chars)
        → strip_prefix needle [] ≡ o
        → found_or o none ≡ some (before, after)
        → [] ≡ before ++ (needle ++ after)
    go none e k = cc
    go (some a) e k =
        let empty : [] ≡ before = cc in
        let same : a ≡ after = cc in rw (← empty, ← same) (strip_prefix_sound needle [] a e)
split_text_sound needle (c ∷ s) before after h =
    go (strip_prefix needle (c ∷ s)) refl h (λ b. split_text_sound needle s b after)
  where
    go :
        (o : Option Chars)
        → strip_prefix needle (c ∷ s) ≡ o
        → found_or o (shifted c (split_text needle s)) ≡ some (before, after)
        → ((b : Chars) → split_text needle s ≡ some (b, after) → s ≡ b ++ (needle ++ after))
        → c ∷ s ≡ before ++ (needle ++ after)
    go none e k ih =
        let (b, f, same) = shifted-some c (split_text needle s) before after k in
        rw same (ap (◌∷◌ c) (ih b f))
    go (some a) e k ih =
        let empty : [] ≡ before = cc in
        let same : a ≡ after = cc in rw (← empty, ← same) (strip_prefix_sound needle (c ∷ s) a e)

abbrev pub AllSpaces : Chars → Type 0
AllSpaces [] = Unit
AllSpaces (c ∷ s) = (is_whitespace c ≡ true) × AllSpaces s

pub trim_start_sound :
    (s : Chars) → (spaces : Chars) × (s ≡ spaces ++ trim_start s) × AllSpaces spaces
unfolding trim_start
trim_start_sound [] = ([], refl, tt)
trim_start_sound (c ∷ s) = elim (Bool-cases (is_whitespace c)) [
  | inl space ↦
      let (spaces, e, all) = trim_start_sound s in
      (c ∷ spaces, rw space (ap (◌∷◌ c) e), (space, all))
  | inr other ↦ ([], rw other refl, tt)
]
