-- ===== src/Door/Menu.antt =====
-- The role menu of a token as a text: `",".join(self_roles)`, and `[r for r in menu.split(",") if r]`.
use greasewood.Base.{
  ℕ, ◌≡◌, refl, ap, Bool, true, false, List, [], ◌∷◌, ◌++◌, nat_eq, contains, All, arith, Text,
  split_on, keep,
}

abbrev pub comma : ℕ
comma = 44

-- `",".join(roles)`
unfoldable pub join_menu : List Text → Text
join_menu [] = []
join_menu (r ∷ []) = r
join_menu (r ∷ s ∷ roles) = r ++ (comma ∷ join_menu (s ∷ roles))

abbrev pub non_empty : Text → Bool
non_empty [] = false
non_empty (c ∷ s) = true

-- `[r for r in menu.split(",") if r]`
unfoldable pub menu_roles : Text → List Text
unfolding split_on
menu_roles s = keep non_empty (split_on comma s)

-- A role that can stand in a menu: not empty, and without a comma.
pub record IsRole (r : Text) : Type 0 where
  pub plain : contains r comma ≡ false
  pub filled : non_empty r ≡ true

split_on-plain : (r : Text) → contains r comma ≡ false → split_on comma r ≡ r ∷ []
unfolding split_on
split_on-plain [] h = refl
split_on-plain (c ∷ r) h = ground (arith, split_on-plain r (ground arith))

split_on-comma :
    (r s : Text)
    → contains r comma ≡ false
    → split_on comma (r ++ (comma ∷ s)) ≡ r ∷ split_on comma s
unfolding split_on
split_on-comma [] s h = ground arith
split_on-comma (c ∷ r) s h = ground (arith, split_on-comma r s (ground arith))

pub menu_roles-join_menu :
    (roles : List Text) → All IsRole roles → menu_roles (join_menu roles) ≡ roles
unfolding menu_roles join_menu
menu_roles-join_menu [] h = refl
menu_roles-join_menu (r ∷ []) h = rw (split_on-plain r h.0.plain, h.0.filled)
menu_roles-join_menu (r ∷ s ∷ roles) h =
    rw (split_on-comma r (join_menu (s ∷ roles)) h.0.plain, h.0.filled)
      (ap (◌∷◌ r) (menu_roles-join_menu (s ∷ roles) h.1))
