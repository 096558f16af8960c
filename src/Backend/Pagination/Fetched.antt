-- ===== src/Backend/Pagination/Fetched.antt =====
-- A page that is cut from the rows that were fetched for it, and a select with one more condition.
use workflow_enterprise_comp.Prelude.{
  ℕ, ◌+◌, ◌<◌, ◌≤◌, Bool, true, ◌&&◌, ◌≡◌, List, [], ◌∷◌, ◌++◌, if◌then◌else◌, ltb, length, filter,
  all, ℤ, list_take, refl, arith, length-list_take, list_take-of_le, list_take-take,
}
use workflow_enterprise_comp.Backend.Request.{Condition, Ordering, clamp}
use workflow_enterprise_comp.Backend.Pagination.{Sql, select, meets_all}

pub clamp-pos : (n : ℤ) → (0 < clamp n) × (clamp n ≤ 100)
unfolding clamp
clamp-pos n = ground arith

module _ {A : Type 0} where
  pub more-fetched :
      (limit : ℕ) (ys : List A)
      → ltb limit (length (list_take (limit + 1) ys)) ≡ ltb limit (length ys)
  more-fetched limit ys = ground (arith, length-list_take (limit + 1) ys)

  pub items-fetched :
      (limit : ℕ) (ys : List A)
      → (if ltb limit (length (list_take (limit + 1) ys))
          then list_take limit (list_take (limit + 1) ys)
          else list_take (limit + 1) ys)
        ≡ list_take limit ys
  items-fetched limit ys = ground (
    arith,
    more-fetched limit ys,
    list_take-take limit (limit + 1) ys,
    list_take-of_le limit ys,
    list_take-of_le (limit + 1) ys,
  )

  pub filter-and :
      (p q r : A → Bool) (xs : List A)
      → ((x : A) → p x ≡ (q x && r x))
      → filter p xs ≡ filter r (filter q xs)
  filter-and p q r [] h = refl
  filter-and p q r (x ∷ xs) h = ground (arith, h x, filter-and p q r xs h)

  pub filter-eq : (p r : A → Bool) (xs : List A) → ((x : A) → p x ≡ r x) → filter p xs ≡ filter r xs
  filter-eq p r [] h = refl
  filter-eq p r (x ∷ xs) h = ground (arith, h x, filter-eq p r xs h)

  pub filter-true : (p : A → Bool) (xs : List A) → ((x : A) → p x ≡ true) → filter p xs ≡ xs
  filter-true p [] h = refl
  filter-true p (x ∷ xs) h = ground (arith, h x, filter-true p xs h)

  pub all-append : (p : A → Bool) (xs ys : List A) → all p (xs ++ ys) ≡ (all p xs && all p ys)
  all-append p [] ys = refl
  all-append p (x ∷ xs) ys = ground (arith, all-append p xs ys)

module _ {T : Type 0} (sql : Sql T) where
  -- A select with further conditions keeps of the rows of the select without them those that meet
  -- these.
  pub select-append :
      (o : Ordering) (cs ks : List Condition)
      → select sql o (cs ++ ks) ≡ filter (meets_all sql ks) (select sql o cs)
  select-append o cs ks =
      filter-and (meets_all sql (cs ++ ks)) (meets_all sql cs) (meets_all sql ks) _
        (λ x. all-append (λ c. sql.meets c x) cs ks)
