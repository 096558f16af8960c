-- ===== src/Nav/Visible.antt =====
-- What the sidebar shows against what the session may open.
use workflow_enterprise_comp.Prelude.{
  Bool, true, none, some, ◌≡◌, List, [], ◌∷◌, refl, ◌∙◌, All-filter_self, arith, filter, map, any,
  All, ◌&&◌,
}
use workflow_enterprise_comp.Session.{AuthState, can}
use workflow_enterprise_comp.Paths.Perm.{route}
use workflow_enterprise_comp.Nav.{
  NavItem, NavSection, is_visible, visible_items, has_items, sections,
}

-- An item with this target in one of the sections, by a test on items.
abbrev pub offers : (NavItem → Bool) → List NavSection → Bool
offers test ss = any (λ (s : NavSection). any test s.items) ss

-- The item needs no permission, or one that the session holds.
abbrev pub may_open : AuthState → NavItem → Bool
may_open a i = elim i.perm [ none ↦ true | some p ↦ can a (route p) ]

any-filter :
    (test p : NavItem → Bool) (xs : List NavItem)
    → any test (filter p xs) ≡ any (λ i. p i && test i) xs
any-filter test p [] = refl
any-filter test p (x ∷ xs) = ground (arith, any-filter test p xs)

offers-has_items :
    (test : NavItem → Bool) (ss : List NavSection)
    → offers test (filter has_items ss) ≡ offers test ss
unfolding has_items
offers-has_items test [] = refl
offers-has_items test (s ∷ ss) = ground (arith, offers-has_items test ss)

offers-visible :
    (test : NavItem → Bool) (a : AuthState) (ss : List NavSection)
    → offers test (map (visible_items a) ss) ≡ offers (λ i. may_open a i && test i) ss
unfolding visible_items is_visible
offers-visible test a [] = refl
offers-visible test a (s ∷ ss) =
    ground (arith, any-filter test (is_visible a) s.items, offers-visible test a ss)

-- Every section that is shown has an item.
All-has_items : (ss : List NavSection) → All (λ s. has_items s ≡ true) (filter has_items ss)
All-has_items ss = All-filter_self has_items ss

-- The sidebar offers an item that passes a test exactly when one of all the items passes it that
-- needs no permission or one that the session holds; and no section is shown without items.
pub sections-offers :
    (test : NavItem → Bool) (a : AuthState) (ss : List NavSection)
    → (offers test (sections a ss) ≡ offers (λ i. may_open a i && test i) ss)
      × All (λ s. has_items s ≡ true) (sections a ss)
unfolding sections
sections-offers test a ss = (
  offers-has_items test (map (visible_items a) ss) ∙ offers-visible test a ss,
  All-has_items (map (visible_items a) ss),
)
