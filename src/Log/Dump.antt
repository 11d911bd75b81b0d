-- ===== src/Log/Dump.antt =====
-- `dump` of src/log.c: its lines and their two columns.
use linfo1341_project.Common.{
  ℕ, zero, suc, ◌+◌, ◌%◌, ◌^◌, ◌≤◌, ◌<◌, ◌≡◌, refl, sym, ap, ◌∙◌, true, false, ◌&&◌, some, List, [],
  ◌∷◌, ◌++◌, arith, ltb, get_elem?, length, take, drop, drop-drop, length-take, length-drop, subst,
  Returns, returns, Returns-bind,
}
use linfo1341_project.Log.{Row, hex_loop, char_loop, dump_loop, dump, IsDump, empty, line}

drop_cons :
    (xs : List ℕ) (k x : ℕ) (ys : List ℕ)
    → drop k xs ≡ x ∷ ys
    → (get_elem? xs k ≡ some x) × (drop (suc k) xs ≡ ys)
drop_cons [] zero x ys e = cc e
drop_cons [] (suc k) x ys e = cc e
drop_cons (a ∷ xs) zero x ys e = let same : a ≡ x = cc e in (ap some same, cc e)
drop_cons (a ∷ xs) (suc k) x ys e = drop_cons xs k x ys e

drop_taken :
    (m : ℕ) (tail rest : List ℕ) → drop (length (take m tail)) (tail ++ rest) ≡ drop m tail ++ rest
drop_taken zero tail rest = refl
drop_taken (suc m) [] rest = refl
drop_taken (suc m) (x ∷ tail) rest = drop_taken m tail rest

full_line : (tail : List ℕ) → 0 < length (drop 16 tail) → length (take 16 tail) ≡ 16
full_line tail more = omega (arith, length-take 16 tail, length-drop 16 tail)

-- Where nothing is left, the offset does not matter.
moved_IsDump :
    (i k : ℕ) (tail : List ℕ) (rows : List Row)
    → (0 < length tail → i ≡ k)
    → IsDump i tail rows
    → IsDump k tail rows
moved_IsDump i k [] _ same empty = empty
moved_IsDump i k [] _ same (line some_bytes _ _ _ _) = absurd (omega arith)
moved_IsDump i k (x ∷ tail) rows same d =
    subst (λ o. IsDump o (x ∷ tail) rows) (same (omega arith)) d

module _ (bytes : List ℕ) (len : ℕ) (small : len + 16 ≤ 2 ^ 64) (rest : List ℕ) where
  -- `tail` is what is left to print from place `k` on.
  record Left (k : ℕ) (tail : List ℕ) : Type 0 where
    at : drop k bytes ≡ tail ++ rest
    count : k + length tail ≡ len

  next-Left : (k x : ℕ) (tail : List ℕ) → Left k (x ∷ tail) → Left (suc k) tail
  next-Left k x tail l = record {
    at = (drop_cons bytes k x (tail ++ rest) l.at).1;
    count = omega (arith, l.count);
  }

  hex_loop_lem :
      (fuel i j m : ℕ) (tail : List ℕ)
      → m < fuel
      → j + m ≡ 16
      → Left (i + j) tail
      → hex_loop bytes len fuel i j ≡ some (take m tail)
  unfolding hex_loop
  hex_loop_lem zero i j m tail enough e l = absurd (omega arith)
  hex_loop_lem (suc fuel) i j zero tail enough e l = ground arith
  hex_loop_lem (suc fuel) i j (suc m) [] enough e l = ground (arith, l.count)
  hex_loop_lem (suc fuel) i j (suc m) (x ∷ tail) enough e l =
      let (here, next) = drop_cons bytes (i + j) x (tail ++ rest) l.at in
      let inside : (i + j) % 2 ^ 64 ≡ i + j = omega (arith, l.count) in
      let goes_on : (ltb j 16 && ltb (i + j) len) ≡ true = ground (arith, l.count) in
      let same : suc (i + j) ≡ i + (j + 1) = omega arith in
      let after : Left (i + (j + 1)) tail =
        subst (λ k. Left k tail) same (next-Left (i + j) x tail l) in
      rw (
        inside,
        goes_on,
        here,
        hex_loop_lem fuel i (j + 1) m tail (omega arith) (omega arith) after,
      )

  char_loop_lem :
      (fuel i j m : ℕ) (tail : List ℕ)
      → m < fuel
      → j + m ≡ 16
      → Left i tail
      → char_loop bytes len fuel i j ≡ some (take m tail, i + length (take m tail))
  unfolding char_loop
  char_loop_lem zero i j m tail enough e l = absurd (omega arith)
  char_loop_lem (suc fuel) i j zero tail enough e l = ground arith
  char_loop_lem (suc fuel) i j (suc m) [] enough e l = ground (arith, l.count)
  char_loop_lem (suc fuel) i j (suc m) (x ∷ tail) enough e l =
      let (here, _) = drop_cons bytes i x (tail ++ rest) l.at in
      let moved : (i + 1) % 2 ^ 64 ≡ suc i = omega (arith, l.count) in
      let goes_on : (ltb j 16 && ltb i len) ≡ true = ground (arith, l.count) in
      let size : suc i + length (take m tail) ≡ i + suc (length (take m tail)) = omega arith in
      rw (
        moved,
        goes_on,
        here,
        char_loop_lem fuel (suc i) (j + 1) m tail (omega arith) (omega arith)
            (next-Left i x tail l),
        size,
      )

  line-Left :
      (i : ℕ) (tail : List ℕ) → Left i tail → Left (i + length (take 16 tail)) (drop 16 tail)
  line-Left i tail l = record {
    at =
        sym (drop-drop i (length (take 16 tail)) bytes)
        ∙ ap (drop (length (take 16 tail))) l.at
        ∙ drop_taken 16 tail rest;
    count = omega (arith, l.count, length-take 16 tail, length-drop 16 tail);
  }

  dump_loop_lem :
      (fuel i : ℕ) (tail : List ℕ)
      → length tail < fuel
      → Left i tail
      → Returns (IsDump i tail) (dump_loop bytes len fuel i)
  unfolding dump_loop
  dump_loop_lem zero i tail enough l = absurd (omega arith)
  dump_loop_lem (suc fuel) i [] enough l =
      let stops : ltb i len ≡ false = ground (arith, l.count) in rw stops (returns empty)
  dump_loop_lem (suc fuel) i (x ∷ tail) enough l =
      let goes_on : ltb i len ≡ true = ground (arith, l.count) in
      let start : Left (i + 0) (x ∷ tail) = subst (λ k. Left k (x ∷ tail)) (omega arith) l in
      let left = drop 16 (x ∷ tail) in
      let after = i + length (take 16 (x ∷ tail)) in
      rw
        (
          goes_on,
          hex_loop_lem 17 i 0 16 (x ∷ tail) (omega arith) refl start,
          char_loop_lem 17 i 0 16 (x ∷ tail) (omega arith) refl l,
        )
        (Returns-bind
          (dump_loop_lem fuel after left (omega (arith, length-drop 16 (x ∷ tail)))
            (line-Left i (x ∷ tail) l))
          λ rows d. returns (
            line (omega arith) refl refl refl (
              moved_IsDump after (i + 16) left rows
                (λ more. ap (λ n. i + n) (full_line (x ∷ tail) more)) d)))

-- `dump` ends without a fault on a buffer that has the bytes to print, if their count is at most
-- 2^64 less 16: its lines have sixteen bytes each but the last, every byte stands once in the
-- hexadecimal column and once in the column of characters, in order, and a line starts with the
-- offset of its first byte, modulo 2^32.
pub dump_lem :
    (bytes rest : List ℕ)
    → length bytes + 16 ≤ 2 ^ 64
    → Returns (IsDump 0 bytes) (dump (bytes ++ rest) (length bytes))
unfolding dump
dump_lem bytes rest small =
    dump_loop_lem (bytes ++ rest) (length bytes) small rest (length bytes + 1) 0 bytes (omega arith)
      (record { at = refl; count = omega arith })
