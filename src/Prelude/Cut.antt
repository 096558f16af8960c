-- ===== src/Prelude/Cut.antt =====
-- Slices of a list: the first so many of its elements, and those after them.
use Prim.Native.Nat.{ℕ, zero, suc, ◌+◌, ◌-◌, ◌≤◌, ◌<◌}
use mathlib.Core.Path.{◌≡◌, refl, sym, ◌∙◌, ap}
use mathlib.Core.Option.{Option, none, some}
use mathlib.Core.List.{List, [], ◌∷◌, ◌++◌}
use native.Mathlib.Omega.{arith}
use workflow_enterprise_comp.Prelude.Lists.{length, get_elem?}
use workflow_enterprise_comp.Prelude.Tests.{leb, if◌then◌else◌}

suc_out : (n m : ℕ) → suc (n + m) ≡ suc n + m
suc_out n m = omega arith

module _ {ℓ} {A : Type ℓ} where
  abbrev pub list_take : ℕ → List A → List A
  list_take zero xs = []
  list_take (suc n) [] = []
  list_take (suc n) (x ∷ xs) = x ∷ list_take n xs

  abbrev pub list_drop : ℕ → List A → List A
  list_drop zero xs = xs
  list_drop (suc n) [] = []
  list_drop (suc n) (x ∷ xs) = list_drop n xs

  -- The last element.
  abbrev pub last? : List A → Option A
  last? [] = none
  last? (x ∷ []) = some x
  last? (x ∷ y ∷ ys) = last? (y ∷ ys)

  pub list_drop-nil : (n : ℕ) (xs : List A) → xs ≡ [] → list_drop n xs ≡ []
  list_drop-nil zero xs h = h
  list_drop-nil (suc n) [] h = refl
  list_drop-nil (suc n) (x ∷ xs) h = ground (arith, h)

  pub length-list_drop : (n : ℕ) (xs : List A) → length (list_drop n xs) ≡ length xs - n
  length-list_drop zero xs = omega arith
  length-list_drop (suc n) [] = omega arith
  length-list_drop (suc n) (x ∷ xs) = omega (arith, length-list_drop n xs)

  pub length-list_take :
      (n : ℕ) (xs : List A) → length (list_take n xs) ≡ (if leb n (length xs) then n else length xs)
  length-list_take zero xs = ground arith
  length-list_take (suc n) [] = ground arith
  length-list_take (suc n) (x ∷ xs) = ground (arith, length-list_take n xs)

  pub list_take-of_le : (n : ℕ) (xs : List A) → length xs ≤ n → list_take n xs ≡ xs
  list_take-of_le zero [] h = refl
  list_take-of_le zero (x ∷ xs) h = absurd (omega arith)
  list_take-of_le (suc n) [] h = refl
  list_take-of_le (suc n) (x ∷ xs) h = ground (arith, list_take-of_le n xs)

  pub list_take-take :
      (n m : ℕ) (xs : List A) → n ≤ m → list_take n (list_take m xs) ≡ list_take n xs
  list_take-take zero m xs h = refl
  list_take-take (suc n) zero xs h = absurd (omega arith)
  list_take-take (suc n) (suc m) [] h = refl
  list_take-take (suc n) (suc m) (x ∷ xs) h = ground (arith, list_take-take n m xs)

  pub list_drop-drop : (n m : ℕ) (xs : List A) → list_drop m (list_drop n xs) ≡ list_drop (n + m) xs
  list_drop-drop zero m xs = ap (λ k. list_drop k xs) (omega arith)
  list_drop-drop (suc n) m [] = list_drop-nil m [] refl ∙ sym (list_drop-nil (suc n + m) [] refl)
  list_drop-drop (suc n) m (x ∷ xs) =
      list_drop-drop n m xs ∙ ap (λ k. list_drop k (x ∷ xs)) (suc_out n m)

  pub take-append-drop :
      (n m : ℕ) (xs : List A)
      → list_take n xs ++ list_take m (list_drop n xs) ≡ list_take (n + m) xs
  take-append-drop zero m xs = ap (λ k. list_take k xs) (omega arith)
  take-append-drop (suc n) zero [] = ap (λ k. list_take k []) (suc_out n 0)
  take-append-drop (suc n) (suc m) [] = ap (λ k. list_take k []) (suc_out n (suc m))
  take-append-drop (suc n) m (x ∷ xs) =
      ap (λ l. x ∷ l) (take-append-drop n m xs) ∙ ap (λ k. list_take k (x ∷ xs)) (suc_out n m)

  pub get_elem?-list_drop :
      (n i : ℕ) (xs : List A) → get_elem? (list_drop n xs) i ≡ get_elem? xs (n + i)
  get_elem?-list_drop zero i xs = ap (get_elem? xs) (omega arith)
  get_elem?-list_drop (suc n) i [] = refl
  get_elem?-list_drop (suc n) i (x ∷ xs) =
      get_elem?-list_drop n i xs ∙ ap (get_elem? (x ∷ xs)) (suc_out n i)

  -- The last of the first n + 1 elements of a list that has so many.
  pub last?-list_take :
      (n : ℕ) (xs : List A) → n < length xs → last? (list_take (suc n) xs) ≡ get_elem? xs n
  last?-list_take zero [] h = absurd (omega arith)
  last?-list_take zero (x ∷ xs) h = refl
  last?-list_take (suc n) [] h = absurd (omega arith)
  last?-list_take (suc n) (x ∷ []) h = absurd (omega arith)
  last?-list_take (suc n) (x ∷ y ∷ ys) h = last?-list_take n (y ∷ ys) (omega arith)
