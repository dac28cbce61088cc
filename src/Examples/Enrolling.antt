-- ===== src/Examples/Enrolling.antt =====
-- A window that offers a menu of roles, and a joiner who picks from it.
use greasewood.Base.{
  ℕ, ◌+◌, ◌*◌, ◌≤◌, ◌≡◌, ◌≢◌, refl, Bool, true, false, none, some, List, [], ◌∷◌, ◌++◌, Has, inl,
  inr, ◌⊎◌, list_eq, nat_eq, arith, Text, codes, hex,
}
use greasewood.Base.Dict
use greasewood.Wire.Credential.{Credential}
use greasewood.Ca.Methods.{new_credential}
use greasewood.Enroll.Defs.{
  Window, Joiner, installed, granted, role_prefix, caps_for_joiner, issue_and_install,
}
use greasewood.Enroll.Window.{Connection, idle, connected, still_open, serve, serve_ends}
use greasewood.Enroll.Laws.{caps_for_joiner-Has, issue_and_install-Has}
use greasewood.Examples.Setup.{toy, ann, start, cfg, fresh_ca}

abbrev window : Window
window = record {
  standing = false;
  max_attempts = 1;
  caps = codes "role:node" ∷ [];
  allowed_roles = codes "web" ∷ codes "db" ∷ [];
  pinned_hostname = [];
}

abbrev joiner : Joiner
joiner = record { id_pub = ann; wg_pub = ann; hostname = codes "a"; roles = codes "db" ∷ [] }

abbrev given_caps : List Text
given_caps = codes "role:node" ∷ codes "role:db" ∷ []

given : caps_for_joiner window joiner.roles ≡ some given_caps
unfolding caps_for_joiner list_eq
given = refl

caps_for_joiner-Has_example :
    Has (codes "role:db") window.caps
    ⊎ ((r : Text) × Has r window.allowed_roles
        × Has r joiner.roles
        × (codes "role:db" ≡ role_prefix ++ r))
caps_for_joiner-Has_example =
    caps_for_joiner-Has window joiner.roles given_caps (codes "role:db") given (inr (inl refl))

abbrev credential : Credential
credential = new_credential cfg start ann ann (codes "a") given_caps

peer_added : (issue_and_install cfg window start installed joiner fresh_ca).0 ≡ granted credential
unfolding issue_and_install list_eq greasewood.Statements.Defs.revoked_ids greasewood.Base.option_eq
    Dict.erase_all Dict.values
peer_added = refl

issue_and_install-Has_example :
    (credential.id_pub ≡ ann)
    × (credential.wg_pub ≡ ann)
    × (credential.hostname ≡ codes "a")
    × (Has (codes "role:db") window.caps
        ⊎ ((r : Text) × Has r window.allowed_roles
            × Has r joiner.roles
            × (codes "role:db" ≡ role_prefix ++ r)))
unfolding new_credential
issue_and_install-Has_example =
    issue_and_install-Has cfg window start installed joiner fresh_ca credential (codes "role:db")
      (λ l a m. m) peer_added (inr (inl refl))

abbrev nonsense : Connection
nonsense = record {
  now = start;
  request = none;
  install = installed;
  sent = true;
  first_record = none;
}

serve_ends_example : (serve cfg window (idle ∷ connected nonsense ∷ []) fresh_ca).0 ≢ still_open
serve_ends_example =
    serve_ends cfg window (idle ∷ connected nonsense ∷ []) fresh_ca refl (omega arith)
