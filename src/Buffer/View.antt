-- ===== src/Buffer/View.antt =====
-- A buffer seen as what is still to be read.
use skin_get_be_rust.Prelude.{
  ℕ, ◌+◌, ◌-◌, ◌≤◌, ◌<◌, ◌≡◌, sym, ap, ◌∙◌, List, ◌++◌, arith, length, get_or, drop, length-drop,
  drop-drop, refl, true, length-append, take, take_prefix, ◌↔◌, get_or-drop, le→leb, lt→leb_false,
  drop_prefix,
}
use native.Mathlib.Nat.{add_comm}
use skin_get_be_rust.Error.{ok, err, invalid_data}
use skin_get_be_rust.Buffer.{
  remaining, has_remaining, read_bytes, Buffer, byte_at, unread, advance, guarded,
}

pub byte_at-unread : (b : Buffer) (i : ℕ) → byte_at b i ≡ get_or (unread b) i 0
byte_at-unread b i = sym (get_or-drop i b.position b.bytes 0)

pub unread-advance : (b : Buffer) (n : ℕ) → unread (advance n b) ≡ drop n (unread b)
unread-advance b n = rw (drop-drop n b.position b.bytes, add_comm b.position n)

pub length-unread : (b : Buffer) → length (unread b) ≡ length b.bytes - b.position
length-unread b = length-drop b.position b.bytes

pub guarded_enough :
    {A : Type 0} (n : ℕ) (value : Buffer → A) (b : Buffer)
    → 0 < n
    → n ≤ length (unread b)
    → guarded n value b ≡ (ok (value b), advance n b)
guarded_enough n value b p h =
    rw (le→leb (b.position + n) (length b.bytes) (omega (arith, length-unread b)))

pub guarded_short :
    {A : Type 0} (n : ℕ) (value : Buffer → A) (b : Buffer)
    → length (unread b) < n
    → guarded n value b ≡ (err invalid_data, b)
guarded_short n value b h =
    rw (lt→leb_false (b.position + n) (length b.bytes) (omega (arith, length-unread b)))

-- Bytes that were appended where the cursor stood at the end are read back.
pub unread_at :
    (b : Buffer) (xs : List ℕ)
    → b.position ≡ length b.bytes
    → unread (record b { bytes = b.bytes ++ xs }) ≡ xs
unread_at b xs h = drop_prefix b.bytes xs b.position h

-- A read with enough bytes left, in terms of those bytes.
pub guarded_lem :
    {A : Type 0} (n : ℕ) (value : Buffer → A) (b : Buffer) (v : A) {xs : List ℕ}
    → 0 < n
    → unread b ≡ xs
    → n ≤ length xs
    → value b ≡ v
    → guarded n value b ≡ (ok v, advance n b)
guarded_lem n value b v p h enough e =
    guarded_enough n value b p (omega (arith, ap length h)) ∙ rw e

pub remaining-unread : (b : Buffer) → remaining b ≡ length (unread b)
remaining-unread b = rw (length-unread b) (ground arith)

pub has_remaining_iff : (b : Buffer) → (has_remaining b ≡ true) ↔ (0 < length (unread b))
has_remaining_iff b = rw (length-unread b) (ground arith)

-- `read_bytes` takes what stands at the cursor.
pub read_bytes_lem :
    (b : Buffer) (p rest : List ℕ)
    → b.position ≤ length b.bytes
    → unread b ≡ p ++ rest
    → read_bytes (length p) b ≡ (ok p, advance (length p) b)
unfolding read_bytes
read_bytes_lem b p rest inside h =
    rw (le→leb (b.position + length p) (length b.bytes) enough)
      (λ i. (ok (taken i), advance (length p) b))
  where
    enough : b.position + length p ≤ length b.bytes
    enough = omega (arith, length-unread b, ap length h, length-append p rest)

    taken : take (length p) (unread b) ≡ p
    taken = rw h (take_prefix p rest (length p) refl)
