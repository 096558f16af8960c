-- ===== src/Backend/Pagination/Keyset.antt =====
-- The keyset condition of a cursor on the rows of a result, in the order of the result.
use workflow_enterprise_comp.Prelude.{
  ℕ, zero, suc, Bool, true, false, ◌≡◌, some, List, [], ◌∷◌, get_elem?, filter, All, list_drop,
  refl, arith,
}

module _ {T : Type 0} (after : T → T → Bool) where
  -- In the order of the rows, a row comes after those before it and not after itself.
  abbrev pub IsOrdered : List T → Type 0
  IsOrdered [] = Unit
  IsOrdered (x ∷ xs) =
      (after x x ≡ false) × All (λ y. (after x y ≡ true) × (after y x ≡ false)) xs × IsOrdered xs

  filter-All :
      (x : T) (xs : List T)
      → All (λ y. (after x y ≡ true) × (after y x ≡ false)) xs
      → filter (after x) xs ≡ xs
  filter-All x [] h = refl
  filter-All x (y ∷ ys) h = ground (arith, h.0, filter-All x ys h.1)

  behind :
      (x r : T) (xs : List T) (n : ℕ)
      → All (λ y. (after x y ≡ true) × (after y x ≡ false)) xs
      → get_elem? xs n ≡ some r
      → after r x ≡ false
  behind x r [] n h e = absurd (ground (arith, e))
  behind x r (y ∷ ys) zero h e = ground (arith, h.0, e)
  behind x r (y ∷ ys) (suc n) h e = behind x r ys n h.1 e

  -- The rows after a row of the result are those that stand after it.
  pub filter-after :
      (xs : List T) (n : ℕ) (r : T)
      → IsOrdered xs
      → get_elem? xs n ≡ some r
      → filter (after r) xs ≡ list_drop (suc n) xs
  filter-after [] n r h e = absurd (ground (arith, e))
  filter-after (x ∷ xs) zero r h e = ground (arith, h, e, filter-All x xs)
  filter-after (x ∷ xs) (suc n) r h e = ground (arith, h, behind x r xs n, filter-after xs n r)
