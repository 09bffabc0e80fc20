-- ===== src/Prelude/Search.antt =====
-- Searching a text: `split_text` finds the first occurrence and nothing else, and `trim_start` takes
-- all the white space off.
use mathlib.Core.Path.{◌≡◌, refl, ap, ◌∙◌}
use mathlib.Core.Logic.{◌≢◌, inl, inr}
use skin_get_be_rust.Prelude.Tests.{Bool-cases}
use mathlib.Core.Bool.{false}
use mathlib.Core.Option.{Option, none, some}
use mathlib.Core.List.{[], ◌∷◌, ◌++◌}
use skin_get_be_rust.Prelude.Text.{
  Chars, split_text, split_text_sound, strip_prefix, strip_prefix-append, strip_prefix_sound,
  shifted, shifted-some, found_or, is_whitespace, trim_start, AllSpaces,
}

-- In the text `before`, the needle and `after`, the needle does not stand any earlier.
abbrev pub IsFirst : Chars → Chars → Chars → Type 0
IsFirst needle [] after = Unit
IsFirst needle (c ∷ before) after =
    ((rest : Chars) → c ∷ before ++ (needle ++ after) ≢ needle ++ rest)
    × IsFirst needle before after

pub split_text-IsFirst :
    (needle s before after : Chars)
    → split_text needle s ≡ some (before, after)
    → IsFirst needle before after
unfolding split_text
split_text-IsFirst needle [] before after h = go (strip_prefix needle []) h
  where
    go : (o : Option Chars) → found_or o none ≡ some (before, after) → IsFirst needle before after
    go none k = cc
    go (some a) k = let empty : [] ≡ before = cc in rw (← empty) tt
split_text-IsFirst needle (c ∷ s) before after h =
    go (strip_prefix needle (c ∷ s)) refl h (λ b. split_text-IsFirst needle s b after)
  where
    go :
        (o : Option Chars)
        → strip_prefix needle (c ∷ s) ≡ o
        → found_or o (shifted c (split_text needle s)) ≡ some (before, after)
        → ((b : Chars) → split_text needle s ≡ some (b, after) → IsFirst needle b after)
        → IsFirst needle before after
    go none e k ih =
        let (b, f, same) = shifted-some c (split_text needle s) before after k in
        let whole = split_text_sound needle s b after f in
        rw same (
          λ rest early.
              let there : strip_prefix needle (c ∷ s) ≡ some rest =
                ap (strip_prefix needle) (ap (◌∷◌ c) whole ∙ early)
                ∙ strip_prefix-append needle rest in
              cc,
          ih b f,
        )
    go (some a) e k ih = let empty : [] ≡ before = cc in rw (← empty) tt

split_text_here :
    (needle s after : Chars)
    → strip_prefix needle s ≡ some after
    → split_text needle s ≡ some ([], after)
unfolding split_text
split_text_here needle [] after h = rw h refl
split_text_here needle (c ∷ s) after h = rw h refl

pub split_text-append :
    (needle before after : Chars)
    → IsFirst needle before after
    → split_text needle (before ++ (needle ++ after)) ≡ some (before, after)
unfolding split_text
split_text-append needle [] after h =
    split_text_here needle (needle ++ after) after (strip_prefix-append needle after)
split_text-append needle (c ∷ before) after (not_here, h) =
    go (strip_prefix needle (c ∷ before ++ (needle ++ after))) refl
      (split_text-append needle before after h)
  where
    go :
        (o : Option Chars)
        → strip_prefix needle (c ∷ before ++ (needle ++ after)) ≡ o
        → split_text needle (before ++ (needle ++ after)) ≡ some (before, after)
        → found_or
            (strip_prefix needle (c ∷ before ++ (needle ++ after)))
            (shifted c (split_text needle (before ++ (needle ++ after))))
          ≡ some (c ∷ before, after)
    go none e ih = rw (e, ih) refl
    go (some rest) e ih =
        absurd (not_here rest (strip_prefix_sound needle (c ∷ before ++ (needle ++ after)) rest e))

-- A text that is empty or begins with something else than white space.
abbrev pub IsTrimmed : Chars → Type 0
IsTrimmed [] = Unit
IsTrimmed (c ∷ s) = is_whitespace c ≡ false

pub trim_start-IsTrimmed : (s : Chars) → IsTrimmed (trim_start s)
unfolding trim_start
trim_start-IsTrimmed [] = tt
trim_start-IsTrimmed (c ∷ s) = elim (Bool-cases (is_whitespace c)) [
  | inl space ↦ rw space (trim_start-IsTrimmed s)
  | inr other ↦ rw other other
]

trim_start_kept : (s : Chars) → IsTrimmed s → trim_start s ≡ s
unfolding trim_start
trim_start_kept [] h = refl
trim_start_kept (c ∷ s) h = rw h refl

pub trim_start-append :
    (spaces s : Chars) → AllSpaces spaces → IsTrimmed s → trim_start (spaces ++ s) ≡ s
unfolding trim_start
trim_start-append [] s all h = trim_start_kept s h
trim_start-append (c ∷ spaces) s (space, all) h = rw space (trim_start-append spaces s all h)
