-- ===== src/Policy/Signer.antt =====
-- `AnchorPolicySigner` of policy.py: the signed table follows the operator's grants.toml. The two files
-- are part of the state; what `parse_grants_toml` makes of the one is an argument.
use greasewood.Base.{
  ℕ, ◌+◌, ◌≤◌, ◌<◌, ◌≡◌, refl, Bool, true, false, not, ◌&&◌, Option, none, some, List, [], ◌∷◌,
  ◌==◌, nat_eq, list_eq, option_eq, if◌then◌else◌, arith, Has, Bytes, inl, inr, ◌⊎◌, Bool-cases,
  Option-cases,
}
use greasewood.Errors.{Result, ok, err}
use greasewood.Wire.Crypto.{Crypto, IsLawful}
use greasewood.Wire.Grants.{Grant, GrantTable, sign, verify}
use greasewood.Wire.Verify.{AreKeys, any_signature_complete}
use greasewood.Policy.Adoption.Defs.{GrantPolicy, offer}

-- grants.toml: missing, or with its modification time and what the parse of its text gives.
pub data GrantsFile : Type 0 where
  no_grants : GrantsFile
  grants_at : ℕ → Result (List Grant) → GrantsFile

-- `_mtime`, what `_current` makes of policy.json (none for a file that is missing or not a table), and
-- the policy that `offer_to` names, if the caller names one.
pub record Signer : Type 0 where
  pub mtime : Option ℕ
  pub policy_file : Option GrantTable
  pub own : Option GrantPolicy

-- `mtime == self._mtime and current is not None`
abbrev pub is_settled : ℕ → Option ℕ → Option GrantTable → Bool
is_settled mtime last none = false
is_settled mtime last (some t) = some mtime == last

-- `==` of two normalized grants, and of two lists of them.
same_grant : Grant → Grant → Bool
same_grant g h =
    g.from == h.from
    && g.to == h.to
    && g.ports == h.ports
    && (if g.relay then h.relay else not h.relay)

unfoldable pub same_grants : List Grant → List Grant → Bool
unfolding same_grant
same_grants [] [] = true
same_grants [] (h ∷ hs) = false
same_grants (g ∷ gs) [] = false
same_grants (g ∷ gs) (h ∷ hs) = same_grant g h && same_grants gs hs

module _ ⦃C : Crypto⦄ (ca_priv : Bytes) (ca_pubs : List Bytes) where
  -- `current is not None and grants == current.grants`
  unfoldable pub unchanged : List Grant → Option GrantTable → Bool
  unfolding same_grants
  unchanged grants none = false
  unchanged grants (some t) = same_grants grants t.grants

  abbrev pub next_seq : Option GrantTable → ℕ
  next_seq none = 1
  next_seq (some t) = t.seq + 1

  abbrev pub offer_to : GrantTable → Option GrantPolicy → Option GrantPolicy
  offer_to t none = none
  offer_to t (some p) = some (offer ca_pubs (some (ok t)) p).0

  -- The end of `refresh`: the new table is signed, written, and offered to the anchor's own policy.
  -- The preview of tunnels is only logged.
  unfoldable pub sign_next : List Grant → Signer → Signer
  unfolding sign
  sign_next grants s =
      let t =
        sign ca_priv (record { seq = next_seq s.policy_file; grants = grants; ca_sig = [] }) in
      record s { policy_file = some t; own = offer_to t s.own }

  -- `refresh`; its result is then the table in policy.json
  unfoldable pub refresh : GrantsFile → Signer → Signer
  unfolding sign_next unchanged
  refresh no_grants s = s
  refresh (grants_at mtime parsed) s =
      if is_settled mtime s.mtime s.policy_file then s else elim parsed [
        | err _ ↦ record s { mtime = some mtime }
        | ok grants ↦
            let s' = record s { mtime = some mtime } in
            if unchanged grants s.policy_file then s' else sign_next grants s'
      ]

  -- `sign_default_policy`, for what policy.json holds before it
  abbrev pub sign_default_policy : GrantsFile → Option GrantTable → Signer
  sign_default_policy file held =
      refresh file (record { mtime = none; policy_file = held; own = none })

  -- The table that a refresh signs for new grants.
  abbrev pub next_table : List Grant → Option GrantTable → GrantTable
  next_table grants held =
      sign ca_priv (record { seq = next_seq held; grants = grants; ca_sig = [] })

  verify-sign :
      IsLawful C
      → (t : GrantTable) → AreKeys ca_pubs
      → Has (C.raw_pub ca_priv) ca_pubs
      → verify ca_pubs (sign ca_priv t) ≡ ok tt
  unfolding verify sign
  verify-sign L t a m =
      any_signature_complete _ _ ca_pubs a (C.raw_pub ca_priv, m, L.verify-sign ca_priv _)

  -- What a call of `refresh` makes of an edit, under lawful cryptography: when the file has changed since
  -- the last refresh, is valid, and says something else than the signed table, the call signs the new
  -- grants, and every node whose trusted keys have 32 bytes and hold the CA's, and whose own table is no
  -- newer than the one that was signed before, adopts the new table when it is offered.
  pub refresh-offer :
      IsLawful C
      → (mtime : ℕ) (grants : List Grant) (s : Signer) (p : GrantPolicy) → AreKeys ca_pubs
      → Has (C.raw_pub ca_priv) ca_pubs
      → is_settled mtime s.mtime s.policy_file ≡ false
      → unchanged grants s.policy_file ≡ false
      → ((t : GrantTable)
          → p.table ≡ some t
          → (o : GrantTable) × (s.policy_file ≡ some o) × (t.seq ≤ o.seq))
      → ((refresh (grants_at mtime (ok grants)) s).policy_file
          ≡ some (next_table grants s.policy_file))
        × ((next_table grants s.policy_file).grants ≡ grants)
        × ((offer ca_pubs (some (ok (next_table grants s.policy_file))) p).0.table
            ≡ some (next_table grants s.policy_file))
  unfolding refresh sign_next offer sign
  refresh-offer L mtime grants s p a m edited differs behind =
      let v =
        verify-sign L (record { seq = next_seq s.policy_file; grants = grants; ca_sig = [] }) a m in
      (
        ground arith,
        refl,
        elim (Option-cases p.table) [
          | inl e ↦ rw (v, e) refl
          | inr (t, e) ↦ let (o, there, le) = behind t e in ground arith
        ],
      )

  -- The signed table never goes back: a refresh leaves the table that it finds, or one with a higher
  -- seq.
  pub refresh_mono :
      (file : GrantsFile) (s : Signer) (t : GrantTable)
      → s.policy_file ≡ some t
      → (w : GrantTable) × ((refresh file s).policy_file ≡ some w) × ((w ≡ t) ⊎ (t.seq < w.seq))
  unfolding refresh sign_next sign
  refresh_mono no_grants s t h = (t, h, inl refl)
  refresh_mono (grants_at mtime (err e)) s t h = (t, ground arith, inl refl)
  refresh_mono (grants_at mtime (ok grants)) s t h =
      elim (Bool-cases (is_settled mtime s.mtime s.policy_file)) [
        | inl b ↦ (t, ground arith, inl refl)
        | inr f ↦ elim (Bool-cases (unchanged grants s.policy_file)) [
          | inl b ↦ (t, ground arith, inl refl)
          | inr g ↦ (next_table grants s.policy_file, ground arith, inr (ground arith))
        ]
      ]
