-- ===== src/Pages/Optimistic.antt =====
-- The optimistic deletion of the list pages, as in frontend/src/features/audits/pages/AuditsPage.tsx:
-- `onMutate` takes the row out of every cached page of the list, and `onError` puts the snapshot
-- back. The cache is the query library's: the list's keys in order, each with what it holds.
use workflow_enterprise_comp.Prelude.{
  ◌+◌, String, Bool, true, false, not, ◌≡◌, ◌≢◌, Option, none, some, List, [], ◌∷◌, refl, sym,
  arith, str_eq, eq_iff, eq_refl, if◌then◌else◌, filter, length, any, All, pos, ◌-ℤ◌, Bool-cases,
  inl, inr, int_laws,
}
use workflow_enterprise_comp.CursorList.{Paginated}

module _ {T : Type 0} (id_of : T → String) where
  -- The updater of `setQueriesData`, on one page.
  unfoldable pub without : String → Paginated T → Paginated T
  without id page = record {
    items = filter (λ x. not (str_eq (id_of x) id)) page.items;
    pagination = record (page.pagination) { count = page.pagination.count -ℤ pos 1 };
  }

  abbrev Cache : Type 0
  Cache = List (String × Option (Paginated T))

  without_held : String → Option (Paginated T) → Option (Paginated T)
  unfolding without
  without_held id none = none
  without_held id (some page) = some (without id page)

  -- `onMutate`: the cache without the row; the snapshot is the cache as it was.
  pub remove_cached : String → Cache → Cache
  unfolding without_held
  remove_cached id [] = []
  remove_cached id ((key, held) ∷ cache) = (key, without_held id held) ∷ remove_cached id cache

  -- `qc.setQueryData(key, data)`.
  pub set_query_data : String → Paginated T → Cache → Cache
  set_query_data key page [] = (key, some page) ∷ []
  set_query_data key page ((k, held) ∷ cache) =
      if str_eq k key then (k, some page) ∷ cache else (k, held) ∷ set_query_data key page cache

  restore_one : String → Option (Paginated T) → Cache → Cache
  unfolding set_query_data
  restore_one key none cache = cache
  restore_one key (some page) cache = set_query_data key page cache

  -- The loop of `onError` over the snapshot.
  pub restore : Cache → Cache → Cache
  unfolding restore_one
  restore [] cache = cache
  restore ((key, held) ∷ snapshot) cache = restore snapshot (restore_one key held cache)

  -- The keys of a cache differ.
  abbrev pub NotIn : String → Cache → Type 0
  NotIn key cache = All (λ (e : String × Option (Paginated T)). e.0 ≢ key) cache

  abbrev pub HasDistinctKeys : Cache → Type 0
  HasDistinctKeys [] = Unit
  HasDistinctKeys (e ∷ cache) = NotIn e.0 cache × HasDistinctKeys cache

  restore_one-cons :
      (k key : String) (h held : Option (Paginated T)) (cache : Cache)
      → k ≢ key
      → restore_one key held ((k, h) ∷ cache) ≡ (k, h) ∷ restore_one key held cache
  unfolding restore_one
  restore_one-cons k key h none cache ne = refl
  restore_one-cons k key h (some page) cache ne = ground (arith, eq_iff k key)

  restore-cons :
      (snapshot : Cache) (k : String) (h : Option (Paginated T)) (cache : Cache)
      → All (λ (e : String × Option (Paginated T)). e.0 ≢ k) snapshot
      → restore snapshot ((k, h) ∷ cache) ≡ (k, h) ∷ restore snapshot cache
  unfolding restore
  restore-cons [] k h cache ne = refl
  restore-cons ((key, held) ∷ snapshot) k h cache (ne, nes) =
      rw (restore_one-cons k key h held cache (λ e. ne (sym e)))
        (restore-cons snapshot k h (restore_one key held cache) nes)

  restore_own :
      (key id : String) (held : Option (Paginated T)) (cache : Cache)
      → restore_one key held ((key, without_held id held) ∷ cache) ≡ (key, held) ∷ cache
  unfolding restore_one set_query_data without_held
  restore_own key id none cache = refl
  restore_own key id (some page) cache = rw (eq_refl key)

  -- A deletion that fails leaves the cached pages of the list as they were before it, in a cache
  -- whose keys differ, when nothing else has changed them in between.
  pub restore-remove_cached :
      (id : String) (cache : Cache)
      → HasDistinctKeys cache
      → restore cache (remove_cached id cache) ≡ cache
  unfolding restore remove_cached
  restore-remove_cached id [] h = refl
  restore-remove_cached id ((key, held) ∷ cache) (fresh, h) = rw (
    restore_own key id held (remove_cached id cache),
    restore-cons cache key held (remove_cached id cache) fresh,
    restore-remove_cached id cache h,
  )

  -- The rows of a page have different identifiers.
  abbrev pub HasDistinctIds : List T → Type 0
  HasDistinctIds [] = Unit
  HasDistinctIds (x ∷ xs) = (any (λ y. str_eq (id_of y) (id_of x)) xs ≡ false) × HasDistinctIds xs

  abbrev pub holds : String → List T → Bool
  holds id xs = any (λ x. str_eq (id_of x) id) xs

  filter_absent :
      (id : String) (xs : List T)
      → holds id xs ≡ false
      → filter (λ x. not (str_eq (id_of x) id)) xs ≡ xs
  filter_absent id [] h = refl
  filter_absent id (x ∷ xs) h = ground (arith, filter_absent id xs)

  length-filter_held :
      (id : String) (xs : List T)
      → HasDistinctIds xs
      → holds id xs ≡ true
      → length (filter (λ x. not (str_eq (id_of x) id)) xs) + 1 ≡ length xs
  length-filter_held id [] d h = ground arith
  length-filter_held id (x ∷ xs) d h =
      ground (arith, eq_iff (id_of x) id, filter_absent id xs, length-filter_held id xs d.1)

  holds-filter :
      (id : String) (xs : List T) → holds id (filter (λ x. not (str_eq (id_of x) id)) xs) ≡ false
  holds-filter id [] = refl
  holds-filter id (x ∷ xs) = ground (arith, holds-filter id xs)

  -- No cached page shows the row.
  abbrev pub IsGone : String → Cache → Type 0
  IsGone id [] = Unit
  IsGone id ((key, none) ∷ cache) = IsGone id cache
  IsGone id ((key, some page) ∷ cache) = (holds id page.items ≡ false) × IsGone id cache

  pub remove_cached-IsGone : (id : String) (cache : Cache) → IsGone id (remove_cached id cache)
  unfolding remove_cached without_held without
  remove_cached-IsGone id [] = tt
  remove_cached-IsGone id ((key, none) ∷ cache) = remove_cached-IsGone id cache
  remove_cached-IsGone id ((key, some page) ∷ cache) =
      (holds-filter id page.items, remove_cached-IsGone id cache)

  -- On a cached page with the right count and rows that differ, no row with the identifier is
  -- left. If the page held it, the count is right again; if not, the count is one short.
  pub count-without :
      (id : String) (page : Paginated T)
      → HasDistinctIds page.items
      → page.pagination.count ≡ pos (length page.items)
      → (holds id (without id page).items ≡ false)
        × ((without id page).pagination.count ≡ (
            if holds id page.items
            then pos (length (without id page).items)
            else pos (length (without id page).items) -ℤ pos 1))
  unfolding without
  count-without id page d right = elim (Bool-cases (holds id page.items)) [
    | inl held ↦ (
      holds-filter id page.items,
      rw (held, right) (omega (int_laws, length-filter_held id page.items d held)),
    )
    | inr absent ↦
        (holds-filter id page.items, rw (absent, right, filter_absent id page.items absent) refl)
  ]
