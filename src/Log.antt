-- ===== src/Log.antt =====
-- `dump` of src/log.c: what it prints of a buffer. A printed byte stands as its number.
pub mod Dump
mod Tests
use linfo1341_project.Common.{
  ℕ, zero, suc, ◌+◌, ◌-◌, ◌%◌, ◌^◌, ◌≤◌, ◌<◌, ◌≡◌, refl, sym, ap, ◌∙◌, Bool, true, false, ◌&&◌,
  Option, none, some, List, [], ◌∷◌, ◌++◌, arith, ltb, if◌then◌else◌, load, ◌>>=◌, length, take,
  drop, length-take, length-drop, Bool-cases, inl, inr,
}

-- A line: the offset, the bytes in hexadecimal, and the same bytes as characters
pub record Row : Type 0 where
  pub offset : ℕ
  pub hex : List ℕ
  pub chars : List ℕ

module _ (bytes : List ℕ) (len : ℕ) where
  -- The first inner loop from `j` on, on fuel
  unfoldable pub hex_loop : ℕ → (i j : ℕ) → Option (List ℕ)
  hex_loop zero i j = none
  hex_loop (suc fuel) i j =
      let next = λ (byte : ℕ). (do rest ← hex_loop fuel i (j + 1); some (byte ∷ rest)) in
      if ltb j 16 && ltb ((i + j) % 2 ^ 64) len
      then (do byte ← load bytes ((i + j) % 2 ^ 64); next byte)
      else some []

  -- The second inner loop, which moves `i` too
  unfoldable pub char_loop : ℕ → (i j : ℕ) → Option (List ℕ × ℕ)
  char_loop zero i j = none
  char_loop (suc fuel) i j =
      let next = λ (byte : ℕ). (do
        (rest, end) ← char_loop fuel ((i + 1) % 2 ^ 64) (j + 1)
        some (byte ∷ rest, end)) in
      if ltb j 16 && ltb i len then (do byte ← load bytes i; next byte) else some ([], i)

  -- The outer loop, on fuel
  unfoldable pub dump_loop : ℕ → (i : ℕ) → Option (List Row)
  dump_loop zero i = none
  dump_loop (suc fuel) i =
      let next = λ (row : Row) (after : ℕ). (do rows ← dump_loop fuel after; some (row ∷ rows)) in
      if ltb i len
      then (do
        hex ← hex_loop 17 i 0
        (chars, after) ← char_loop 17 i 0
        next (record { offset = i % 2 ^ 32; hex = hex; chars = chars }) after)
      else some []

unfoldable pub dump : List ℕ → ℕ → Option (List Row)
dump bytes len = dump_loop bytes len (len + 1) 0

-- The lines of `bytes`, sixteen to a line, of which the first is at `offset`
pub data IsDump : ℕ → List ℕ → List Row → Type 0 where
  empty : {offset : ℕ} → IsDump offset [] []
  line :
      {offset : ℕ} {bytes : List ℕ} {rows : List Row} {row : Row}
      → 0 < length bytes
      → row.offset ≡ offset % 2 ^ 32
      → row.hex ≡ take 16 bytes
      → row.chars ≡ take 16 bytes
      → IsDump (offset + 16) (drop 16 bytes) rows
      → IsDump offset bytes (row ∷ rows)
