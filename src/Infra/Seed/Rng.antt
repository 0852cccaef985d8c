-- ===== src/Infra/Seed/Rng.antt =====
-- DeterministicRng of src/infra/seed/rng/deterministic-rng.ts. The state is a 32-bit word; the words
-- in between are bit patterns, of which Math.imul keeps the low 32 bits.
pub mod Draws
use Prim.Native.Nat.{bit_and, bit_or, bit_xor}
use Prim.Native.String.{◌++◌ as append}
use money_across_borders.Base.{
  ℕ, zero, suc, ◌+◌, ◌-◌, ◌*◌, ◌/◌, ◌%◌, ◌^◌, String, ℤ, pos, negsuc, pos_part, ◌+ℤ◌, ◌-ℤ◌, Bool,
  not, Option, none, some, List, [], ◌∷◌, ◌++◌, map, length, get_elem?, set, if◌then◌else◌,
}
use money_across_borders.Domain.Errors.{Result, ok, err, invalid}
use money_across_borders.Domain.Numbers.{Floats}
use money_across_borders.Infra.Seed.Run.{Run, ◌>>=◌, ◌>>◌, pure, throw, lift}
use money_across_borders.Infra.Seed.Arithmetic.{Arithmetic, two_32}

-- `x >>> 0`
unfoldable pub to_uint32 : ℤ → ℕ
to_uint32 (pos n) = n % 2 ^ 32
to_uint32 (negsuc n) = 2 ^ 32 - 1 - n % 2 ^ 32

-- `Math.imul`, as a bit pattern.
abbrev imul : ℕ → ℕ → ℕ
imul a b = a * b % 2 ^ 32

abbrev shift_xor : ℕ → ℕ → ℕ
shift_xor t k = bit_xor t (t / 2 ^ k)

-- The word that a state gives.
unfoldable pub mix : ℕ → ℕ
mix s =
    let t = imul (shift_xor s 15) (bit_or s 1) in
    let u = bit_xor t ((t + imul (shift_xor t 7) (bit_or t 61)) % 2 ^ 32) in shift_xor u 14 % 2 ^ 32

unfoldable pub advance : ℕ → ℕ
advance s = (s + 0x6d2b79f5) % 2 ^ 32

-- An element of an array that may be out of range.
abbrev pub at_index : {A : Type 0} → Option A → Result A
at_index none = err (invalid "undefined")
at_index (some a) = ok a

pub record Weighted (Float A : Type 0) : Type 0 where
  pub value : A
  pub weight : Float

-- `copy[i]` and `copy[j]` in each other's place.
unfoldable pub swap : {A : Type 0} → ℕ → ℕ → List A → List A
swap i j xs = elim (get_elem? xs i) [
  | none ↦ xs
  | some x ↦ elim (get_elem? xs j) [ none ↦ xs | some y ↦ set (set xs i y) j x ]
]

-- `b.toString(16)`, for a digit.
abbrev hex_digits : List String
hex_digits =
    "0" ∷ "1" ∷ "2" ∷ "3" ∷ "4" ∷ "5" ∷ "6" ∷ "7" ∷ "8" ∷ "9" ∷ "a" ∷ "b" ∷ "c" ∷ "d" ∷ "e" ∷ "f"
    ∷ []

abbrev text_at : Option String → String
text_at none = ""
text_at (some s) = s

abbrev hex_byte : ℕ → String
hex_byte b =
    append (text_at (get_elem? hex_digits (b / 16))) (text_at (get_elem? hex_digits (b % 16)))

abbrev concat : List String → String
concat [] = ""
concat (s ∷ ss) = append s (concat ss)

-- The sixteen bytes as a text, once version and variant are set.
unfoldable pub format_uuid : List ℕ → String
format_uuid (a ∷ b ∷ c ∷ d ∷ e ∷ f ∷ g ∷ h ∷ i ∷ rest) = concat (
    hex_byte a
    ∷ hex_byte b
    ∷ hex_byte c
    ∷ hex_byte d
    ∷ "-"
    ∷ hex_byte e
    ∷ hex_byte f
    ∷ "-"
    ∷ hex_byte (bit_or (bit_and g 0x0f) 0x40)
    ∷ hex_byte h
    ∷ "-"
    ∷ hex_byte (bit_or (bit_and i 0x3f) 0x80)
    ∷ tail rest)
  where
    tail : List ℕ → List String
    tail [] = []
    tail (j ∷ bytes) = hex_byte j ∷ "-" ∷ map hex_byte bytes
format_uuid bytes = ""

module _ (F : Floats) (M : Arithmetic F) where
  open F use {Float, of_ℤ, mul, div, is_positive}
  open M use {add, sub, floor, is_at_most}

  -- `next()`: a float from 0 up to 1.
  unfoldable pub next : Run ℕ Float
  unfolding mix advance
  next s = let s' = advance s in ok (div (of_ℤ (pos (mix s'))) (of_ℤ (pos two_32)), s')

  unfoldable pub next_int : ℤ → ℤ → Run ℕ ℤ
  unfolding next
  next_int min max = do x ← next; pure (floor (mul x (of_ℤ (max -ℤ min +ℤ pos 1))) +ℤ min)

  unfoldable pub range : Float → Float → Run ℕ Float
  unfolding next
  range min max = do x ← next; pure (add (mul x (sub max min)) min)

  unfoldable pub chance : Float → Run ℕ Bool
  unfolding next
  chance p = do x ← next; pure (not (is_at_most p x))

  unfoldable pub pick : {A : Type 0} → List A → Run ℕ A
  unfolding next_int
  pick [] = throw (invalid "DeterministicRng.pick: cannot pick from an empty array")
  pick (x ∷ xs) = do
    i ← next_int (pos 0) (pos (length xs))
    lift (at_index (get_elem? (x ∷ xs) (pos_part i)))

  -- `entries.reduce((sum, e) => sum + e.weight, sum)`
  abbrev pub sum_weights : {A : Type 0} → Float → List (Weighted Float A) → Float
  sum_weights sum [] = sum
  sum_weights sum (e ∷ es) = sum_weights (add sum e.weight) es

  -- The loop over the entries, with the last entry where the roll never gets to zero.
  unfoldable pub take_roll : {A : Type 0} → Float → Weighted Float A → List (Weighted Float A) → A
  take_roll roll e [] = e.value
  take_roll roll e (d ∷ es) =
      let left = sub roll e.weight in
      let rest = take_roll left d es in if is_at_most left (of_ℤ (pos 0)) then e.value else rest

  unfoldable pub weighted_pick : {A : Type 0} → List (Weighted Float A) → Run ℕ A
  unfolding next take_roll
  weighted_pick [] =
      throw (invalid "DeterministicRng.weightedPick: weights must sum to more than 0")
  weighted_pick (e ∷ es) =
      let total = sum_weights (of_ℤ (pos 0)) (e ∷ es) in
      if is_at_most total (of_ℤ (pos 0))
      then throw (invalid "DeterministicRng.weightedPick: weights must sum to more than 0")
      else (do x ← next; pure (take_roll (mul x total) e es))

  -- Fisher-Yates, from the last index down to 1.
  unfoldable pub shuffle_from : {A : Type 0} → ℕ → List A → Run ℕ (List A)
  unfolding next_int swap
  shuffle_from zero xs = pure xs
  shuffle_from (suc i) xs = do
    j ← next_int (pos 0) (pos (suc i))
    shuffle_from i (swap (suc i) (pos_part j) xs)

  unfoldable pub shuffle : {A : Type 0} → List A → Run ℕ (List A)
  unfolding shuffle_from
  shuffle xs = shuffle_from (length xs - 1) xs

  unfoldable pub next_bytes : ℕ → Run ℕ (List ℕ)
  unfolding next_int
  next_bytes zero = pure []
  next_bytes (suc n) = do
    b ← next_int (pos 0) (pos 255)
    bytes ← next_bytes n
    pure (pos_part b ∷ bytes)

  unfoldable pub uuid : Run ℕ String
  unfolding next_bytes format_uuid
  uuid = do bytes ← next_bytes 16; pure (format_uuid bytes)
