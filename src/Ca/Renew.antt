-- ===== src/Ca/Renew.antt =====
-- `renew` of ca.py.
use greasewood.Base.{
  ℕ, ◌*◌, ◌≤◌, ◌≡◌, refl, true, false, some, List, list_eq, nat_eq, contains, inl, inr, ◌⊎◌, arith,
  Text, Option-cases,
}
use greasewood.Errors.{ok}
use greasewood.Wire.Time.{second}
use greasewood.Wire.Crypto.{Crypto}
use greasewood.Wire.Credential.{Credential}
use greasewood.Wire.Requests.{RenewRequest, verify_renew}
use greasewood.Ca.Defs.{Config, CaState, is_revoked, node_info}
use greasewood.Ca.Methods.{issue, renew, renew_as, new_credential, distance, pinned, is_set}
use greasewood.Ca.Issue.{issue-new_credential}

module _ ⦃C : Crypto⦄ (cfg : Config) where
  -- What a renewed credential carries: the identity and key of the request, capabilities from the CA's
  -- own view of the node, and the name of that view unless the node may rename itself.
  pub record Renewal (req : RenewRequest) (hostname : Text) (caps : List Text) (c : Credential)
      : Type 0 where
    id_pub : c.id_pub ≡ req.id_pub
    wg_pub : c.wg_pub ≡ req.wg_pub
    caps_kept : c.caps ≡ cfg.cap_policy caps
    name_kept :
        (c.hostname ≡ hostname)
        ⊎ ((c.hostname ≡ req.hostname)
            × (is_set req.hostname ≡ true)
            × (contains caps pinned ≡ false))

  issue-Renewal :
      (now : ℕ) (req : RenewRequest) (name hostname : Text) (caps : List Text) (st : CaState)
      (c : Credential)
      → (issue cfg now req.id_pub req.wg_pub name caps st).0 ≡ ok c
      → (name ≡ hostname)
        ⊎ ((name ≡ req.hostname) × (is_set req.hostname ≡ true) × (contains caps pinned ≡ false))
      → Renewal req hostname caps c
  unfolding new_credential
  issue-Renewal now req name hostname caps st c h e =
      let p = (issue-new_credential cfg now req.id_pub req.wg_pub name caps st c h).0 in
      rw p (record { id_pub = refl; wg_pub = refl; caps_kept = refl; name_kept = e })

  renew_as-Renewal :
      (now : ℕ) (req : RenewRequest) (hostname : Text) (caps : List Text) (st : CaState)
      (c : Credential)
      → (renew_as cfg now req hostname caps st).0 ≡ ok c
      → Renewal req hostname caps c
  unfolding renew_as
  renew_as-Renewal now req hostname caps st c h = ground (
    arith,
    issue-Renewal now req req.hostname hostname caps st c,
    issue-Renewal now req hostname hostname caps st c,
  )

  -- A renewal that succeeds was signed by its identity, dated within 300 seconds of the CA's clock, by a
  -- node that is not revoked and that the CA knows; the capabilities are those that the CA's own view of
  -- the node gives, never the requester's, and a pinned name does not change.
  pub renew_gives :
      (now : ℕ) (req : RenewRequest) (st : CaState) (c : Credential)
      → (renew cfg now req st).0 ≡ ok c
      → (verify_renew req ≡ ok tt)
        × (distance now req.ts ≤ 300 * second)
        × (is_revoked req.id_pub st ≡ false)
        × ((hostname : Text) × (caps : List Text) × ((node_info cfg now req.id_pub st).0
              ≡ some (hostname, caps))
            × Renewal req hostname caps c)
  unfolding renew
  renew_gives now req st c h = elim (Option-cases (node_info cfg now req.id_pub st).0) [
    | inl absent ↦ absurd (ground arith)
    | inr ((hostname, caps), there) ↦ (
      ground arith,
      ground arith,
      ground arith,
      (
        hostname,
        caps,
        there,
        renew_as-Renewal now req hostname caps (node_info cfg now req.id_pub st).1 c (ground arith),
      ),
    )
  ]
