-- ===== src/SortedList/Count.antt =====
-- How many slots of a window are filled (src/lib/sorted_list/sorted_list.c keeps this in `size`).
use linfo1341_project.Common.{
  ℕ, zero, suc, ◌+◌, ◌≤◌, ◌<◌, ◌≡◌, refl, ap, ◌∙◌, Option, none, some, List, [], ◌∷◌, arith, length,
  get_elem?, set, drop,
}

module _ {ℓ} {A : Type ℓ} where
  unfoldable pub occupied : List (Option A) → ℕ
  occupied [] = 0
  occupied (none ∷ xs) = occupied xs
  occupied (some x ∷ xs) = suc (occupied xs)

  pub occupied-set-some :
      (xs : List (Option A)) (i : ℕ) (v : A)
      → get_elem? xs i ≡ some none
      → occupied (set xs i (some v)) ≡ suc (occupied xs)
  unfolding occupied
  occupied-set-some [] i v h = cc
  occupied-set-some (none ∷ xs) zero v h = refl
  occupied-set-some (some x ∷ xs) zero v h = cc
  occupied-set-some (none ∷ xs) (suc i) v h = occupied-set-some xs i v h
  occupied-set-some (some x ∷ xs) (suc i) v h = ap suc (occupied-set-some xs i v h)

  pub occupied-set-none :
      (xs : List (Option A)) (i : ℕ) (v : A)
      → get_elem? xs i ≡ some (some v)
      → suc (occupied (set xs i none)) ≡ occupied xs
  unfolding occupied
  occupied-set-none [] i v h = cc
  occupied-set-none (none ∷ xs) zero v h = cc
  occupied-set-none (some x ∷ xs) zero v h = refl
  occupied-set-none (none ∷ xs) (suc i) v h = occupied-set-none xs i v h
  occupied-set-none (some x ∷ xs) (suc i) v h = ap suc (occupied-set-none xs i v h)

  pub occupied-le : (xs : List (Option A)) → occupied xs ≤ length xs
  unfolding occupied
  occupied-le [] = omega arith
  occupied-le (none ∷ xs) = omega (arith, occupied-le xs)
  occupied-le (some x ∷ xs) = omega (arith, occupied-le xs)

  -- With no slot filled, every slot is NULL.
  pub occupied-zero :
      (xs : List (Option A)) (i : ℕ) → occupied xs ≡ 0 → i < length xs → get_elem? xs i ≡ some none
  unfolding occupied
  occupied-zero [] i e h = absurd (omega arith)
  occupied-zero (none ∷ xs) zero e h = refl
  occupied-zero (none ∷ xs) (suc i) e h = occupied-zero xs i e (omega arith)
  occupied-zero (some x ∷ xs) i e h = absurd (omega arith)

  -- A filled slot counts.
  pub occupied_pos :
      (xs : List (Option A)) (i : ℕ) (v : A) → get_elem? xs i ≡ some (some v) → 0 < occupied xs
  unfolding occupied
  occupied_pos [] i v h = cc
  occupied_pos (some x ∷ xs) i v h = omega arith
  occupied_pos (none ∷ xs) zero v h = cc
  occupied_pos (none ∷ xs) (suc i) v h = occupied_pos xs i v h

  pub occupied-drop-none :
      (xs : List (Option A)) (i : ℕ)
      → get_elem? xs i ≡ some none
      → occupied (drop i xs) ≡ occupied (drop (suc i) xs)
  unfolding occupied
  occupied-drop-none [] i h = cc
  occupied-drop-none (none ∷ xs) zero h = refl
  occupied-drop-none (some x ∷ xs) zero h = cc
  occupied-drop-none (x ∷ xs) (suc i) h = occupied-drop-none xs i h

  pub occupied-drop-some :
      (xs : List (Option A)) (i : ℕ) (v : A)
      → get_elem? xs i ≡ some (some v)
      → occupied (drop i xs) ≡ suc (occupied (drop (suc i) xs))
  unfolding occupied
  occupied-drop-some [] i v h = cc
  occupied-drop-some (none ∷ xs) zero v h = cc
  occupied-drop-some (some x ∷ xs) zero v h = refl
  occupied-drop-some (x ∷ xs) (suc i) v h = occupied-drop-some xs i v h

  pub drop-set :
      (xs : List (Option A)) (n i : ℕ) (v : Option A) → i < n → drop n (set xs i v) ≡ drop n xs
  drop-set xs zero i v h = absurd (omega arith)
  drop-set [] (suc n) i v h = refl
  drop-set (x ∷ xs) (suc n) zero v h = refl
  drop-set (x ∷ xs) (suc n) (suc i) v h = drop-set xs n i v (omega arith)

  pub get_elem?-drop :
      (xs : List (Option A)) (n i : ℕ) → get_elem? (drop n xs) i ≡ get_elem? xs (n + i)
  get_elem?-drop xs zero i = ap (get_elem? xs) (omega arith)
  get_elem?-drop [] (suc n) i = refl
  get_elem?-drop (x ∷ xs) (suc n) i =
      let e : suc (n + i) ≡ suc n + i = omega arith in
      get_elem?-drop xs n i ∙ ap (get_elem? (x ∷ xs)) e

  -- If the first `n` slots are NULL, all filled slots are behind them.
  pub occupied-drop_empty :
      (xs : List (Option A)) (n : ℕ)
      → n ≤ length xs
      → ((i : ℕ) → i < n → get_elem? xs i ≡ some none)
      → occupied (drop n xs) ≡ occupied xs
  unfolding occupied
  occupied-drop_empty xs zero l h = refl
  occupied-drop_empty [] (suc n) l h = refl
  occupied-drop_empty (none ∷ xs) (suc n) l h =
      occupied-drop_empty xs n (omega arith) (λ i k. h (suc i) (omega arith))
  occupied-drop_empty (some x ∷ xs) (suc n) l h = let bad = h 0 (omega arith) in cc bad
