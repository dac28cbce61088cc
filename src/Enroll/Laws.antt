-- ===== src/Enroll/Laws.antt =====
-- What an enrollment of enroll.py grants, and what a failed one leaves.
use greasewood.Base.{
  ℕ, ◌≡◌, refl, sym, true, none, some, List, [], ◌∷◌, ◌++◌, map, all, keep, list_eq, nat_eq,
  contains, contains_iff, Has, Has-append, Has-keep, all-Has, ◌⊎◌, inl, inr, arith, Text, hex,
  Option-cases,
}
use greasewood.Base.Dict
use greasewood.Errors.{ok}
use greasewood.Wire.Crypto.{Crypto}
use greasewood.Wire.Credential.{Credential}
use greasewood.Ca.Defs.{Config, CaState, node_info}
use greasewood.Ca.Methods.{issue, discard_recent, new_credential, is_set}
use greasewood.Ca.Issue.{issue-new_credential}
use greasewood.Enroll.Defs.{
  Window, Joiner, distinct_from, role_prefix, caps_for_joiner, Install, installed, command_failed,
  other_failure, refused, granted, issue_with, issue_and_install,
}

Has-distinct_from : (seen l : List Text) (a : Text) → Has a (distinct_from seen l) → Has a l
unfolding distinct_from
Has-distinct_from seen [] a m = m
Has-distinct_from seen (x ∷ l) a m =
    ground (arith, Has-distinct_from seen l a, Has-distinct_from (x ∷ seen) l a)

Has-map :
    (f : Text → Text) (l : List Text) (a : Text)
    → Has a (map f l)
    → (x : Text) × Has x l × (a ≡ f x)
Has-map f [] a m = absurd m
Has-map f (x ∷ l) a (inl p) = (x, inl refl, sym p)
Has-map f (x ∷ l) a (inr m) = let (y, n, q) = Has-map f l a m in (y, inr n, q)

-- A joiner never lands outside its invite: each of its caps is one that the window grants, or the role
-- for a name on the window's menu.
pub caps_for_joiner-Has :
    (win : Window) (roles : List Text) (caps : List Text) (a : Text)
    → caps_for_joiner win roles ≡ some caps
    → Has a caps
    → Has a win.caps ⊎ ((r : Text) × Has r win.allowed_roles × Has r roles × (a ≡ role_prefix ++ r))
unfolding caps_for_joiner
caps_for_joiner-Has win roles caps a h m = on win.allowed_roles refl
  where
    picked : List Text
    picked = keep is_set roles

    on :
        (menu : List Text)
        → win.allowed_roles ≡ menu
        → Has a win.caps
          ⊎ ((r : Text) × Has r win.allowed_roles × Has r roles × (a ≡ role_prefix ++ r))
    on [] e = inl (ground arith)
    on (x ∷ xs) e =
        let inside : all (contains win.allowed_roles) picked ≡ true = ground arith in
        let same : caps ≡ distinct_from [] (win.caps ++ map (λ p. role_prefix ++ p) picked) =
          ground arith in
        let there =
          Has-distinct_from [] (win.caps ++ map (λ p. role_prefix ++ p) picked) a (rw same at m) in
        elim ((Has-append win.caps (map (λ p. role_prefix ++ p) picked) a).0 there) [
          | inl n ↦ inl n
          | inr n ↦
              let (r, k, q) = Has-map (λ p. role_prefix ++ p) picked a n in
              inr (
                r,
                (contains_iff win.allowed_roles r).0
                    (all-Has (contains win.allowed_roles) picked r inside k),
                ((Has-keep is_set roles r).0 k).0,
                q,
              )
        ]

module _ ⦃C : Crypto⦄ (cfg : Config) where
  -- A peer that cannot be installed leaves no claim: if the CA issued to a joiner that it did not know,
  -- and a command of `set_peer` then fails, nothing is granted and the CA has no note of the issue.
  pub issue_and_install-refused :
      (win : Window) (now : ℕ) (j : Joiner) (caps : List Text) (st : CaState) (c : Credential)
      → caps_for_joiner win j.roles ≡ some caps
      → (node_info cfg now j.id_pub st).0 ≡ none
      → (issue cfg now j.id_pub j.wg_pub j.hostname caps (node_info cfg now j.id_pub st).1).0 ≡ ok c
      → ((issue_and_install cfg win now command_failed j st).0 ≡ refused)
        × (Dict.lookup (hex j.id_pub) (issue_and_install cfg win now command_failed j st).1.recent
            ≡ none)
  unfolding issue_and_install issue_with discard_recent
  issue_and_install-refused win now j caps st c e unknown issued =
      let st2 =
        (issue cfg now j.id_pub j.wg_pub j.hostname caps (node_info cfg now j.id_pub st).1).1 in
      let gone = Dict.lookup-erase (hex j.id_pub) (hex j.id_pub) st2.recent in
      (ground arith, ground (arith, gone))

  issue_with-issue :
      (now : ℕ) (install : Install) (j : Joiner) (caps : List Text) (st : CaState) (c : Credential)
      → (issue_with cfg now install j caps st).0 ≡ granted c
      → (issue cfg now j.id_pub j.wg_pub j.hostname caps (node_info cfg now j.id_pub st).1).0 ≡ ok c
  unfolding issue_with
  issue_with-issue now installed j caps st c h = ground arith
  issue_with-issue now command_failed j caps st c h = absurd (ground arith)
  issue_with-issue now other_failure j caps st c h = absurd (ground arith)

  -- The credential of an enrollment never lands outside the invite, for a CA whose cap policy adds no cap:
  -- it is for the joiner's own identity and key and the name that was agreed, and each of its caps is one
  -- that the window grants, or the role for a name on the window's menu that the joiner asked for.
  pub issue_and_install-Has :
      (win : Window) (now : ℕ) (install : Install) (j : Joiner) (st : CaState) (c : Credential)
      (a : Text)
      → ((l : List Text) (a : Text) → Has a (cfg.cap_policy l) → Has a l)
      → (issue_and_install cfg win now install j st).0 ≡ granted c
      → Has a c.caps
      → (c.id_pub ≡ j.id_pub)
        × (c.wg_pub ≡ j.wg_pub)
        × (c.hostname ≡ j.hostname)
        × (Has a win.caps
            ⊎ ((r : Text) × Has r win.allowed_roles × Has r j.roles × (a ≡ role_prefix ++ r)))
  unfolding issue_and_install new_credential
  issue_and_install-Has win now install j st c a narrows h m =
      elim (Option-cases (caps_for_joiner win j.roles)) [
        | inl e ↦ absurd (ground arith)
        | inr (caps, e) ↦
            let st1 = (node_info cfg now j.id_pub st).1 in
            let issued = issue_with-issue now install j caps st c (ground arith) in
            let (same, _, _, _) =
              issue-new_credential cfg now j.id_pub j.wg_pub j.hostname caps st1 c issued in
            let caps_of : c.caps ≡ cfg.cap_policy caps = rw same refl in
            (
              rw same refl,
              rw same refl,
              rw same refl,
              caps_for_joiner-Has win j.roles caps a e (narrows caps a (rw caps_of at m)),
            )
      ]
