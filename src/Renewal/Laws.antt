-- ===== src/Renewal/Laws.antt =====
-- What a renewal of renewal.py adopts, and where its record wins.
use greasewood.Base.{
  ℕ, zero, suc, ◌+◌, ◌*◌, ◌≤◌, ◌<◌, ◌≡◌, refl, Bool, true, false, none, some, List, [], ◌∷◌,
  list_eq, nat_eq, inl, inr, ◌⊎◌, arith, Text, hex, Bool-cases, Option-cases,
}
use mathlib.Core.Path.{subst}
use greasewood.Base.Dict
use greasewood.Errors.{ok}
use greasewood.Wire.Time.{second}
use greasewood.Wire.Crypto.{Crypto}
use greasewood.Wire.Credential.{Credential}
use greasewood.Wire.Record
use greasewood.Wire.Record.{NodeRecord}
use greasewood.Wire.Requests.{RenewRequest}
use greasewood.Directory.Defs.{Directory, put, merge, merge_from, merge_one}
use greasewood.Directory.Merge.{admissible}
use greasewood.Ca.Defs.{Config, CaState, node_info}
use greasewood.Ca.Methods.{issue, renew, renew_as}
use greasewood.Renewal.Schedule.{backoff}
use greasewood.Renewal.Defs.{
  Node, RenewalState, Answer, refused, crashed, granted, new_record, publish, trusts, adopt,
  try_anchors, attempts, run_attempts,
}

module _ ⦃C : Crypto⦄ where
  -- A record that passes the gate and is newer than what its key holds replaces it.
  pub merge_newer :
      (now : ℕ) (r : NodeRecord) (d : Directory)
      → admissible now r ≡ true
      → ((e : NodeRecord) → Dict.lookup (hex r.id_pub) d ≡ some e → e.seq < r.seq)
      → Dict.lookup (hex r.id_pub) (merge now (r ∷ []) d).0 ≡ some r
  unfolding merge merge_from merge_one
  merge_newer now r d a newer = elim (Option-cases (Dict.lookup (hex r.id_pub) d)) [
    | inl e ↦ ground (arith, Dict.lookup-insert (hex r.id_pub) (hex r.id_pub) r d)
    | inr (h, e) ↦ ground (arith, newer h e, Dict.lookup-insert (hex r.id_pub) (hex r.id_pub) r d)
  ]

  renew_as-issue :
      (ca : Config) (now : ℕ) (req : RenewRequest) (hostname : Text) (caps : List Text)
      (st : CaState) (c : Credential)
      → (renew_as ca now req hostname caps st).0 ≡ ok c
      → ((issue ca now req.id_pub req.wg_pub req.hostname caps st).0 ≡ ok c)
        ⊎ ((issue ca now req.id_pub req.wg_pub hostname caps st).0 ≡ ok c)
  unfolding renew_as
  renew_as-issue ca now req hostname caps st c h = ground arith

  -- A renewal that succeeds is an issue under some name.
  pub renew-issue :
      (ca : Config) (now : ℕ) (req : RenewRequest) (st : CaState) (c : Credential)
      → (renew ca now req st).0 ≡ ok c
      → (name : Text) × (caps : List Text) × (st' : CaState) × ((issue ca now req.id_pub req.wg_pub
            name caps st').0
          ≡ ok c)
  unfolding renew
  renew-issue ca now req st c h = elim (Option-cases (node_info ca now req.id_pub st).0) [
    | inl e ↦ absurd (ground arith)
    | inr ((hostname, caps), e) ↦
        let st' = (node_info ca now req.id_pub st).1 in
        elim (renew_as-issue ca now req hostname caps st' c (ground arith)) [
          | inl p ↦ (req.hostname, caps, st', p)
          | inr p ↦ (hostname, caps, st', p)
        ]
  ]

module _ ⦃C : Crypto⦄ (node : Node) where
  -- What is adopted: the credential is trusted, and the node's own record carries it.
  pub record Adopted (now : ℕ) (c : Credential) (st : RenewalState) : Type 0 where
    trusted : trusts node now c ≡ true
    current : st.cred ≡ c
    own_record :
        (r : NodeRecord) × (Dict.lookup (hex node.id_pub) st.directory ≡ some r) × (r.cred ≡ c)

  adopt-Adopted :
      (now : ℕ) (c : Credential) (st : RenewalState)
      → trusts node now c ≡ true
      → Adopted now c (adopt node c st)
  unfolding publish put new_record Record.sign
  adopt-Adopted now c st t = record {
    trusted = t;
    current = refl;
    own_record = (
      new_record node c st.directory,
      ground (
        arith,
        Dict.lookup-insert (hex node.id_pub) (hex node.id_pub) (new_record node c st.directory)
            st.directory,
      ),
      refl,
    );
  }

  -- A renewal that succeeds leaves the node with a credential that its trusted set vouches for, in
  -- use and in its own record, whichever anchors failed or offered another before.
  try_anchors-Adopted :
      (now : ℕ) (answers : List Answer) (st : RenewalState) (c : Credential)
      → (try_anchors node now answers st).0 ≡ some c
      → Adopted now c (try_anchors node now answers st).1
  unfolding try_anchors
  try_anchors-Adopted now [] st c h = absurd (ground arith)
  try_anchors-Adopted now (refused ∷ rest) st c h = try_anchors-Adopted now rest st c h
  try_anchors-Adopted now (crashed ∷ rest) st c h = absurd (ground arith)
  try_anchors-Adopted now (granted d pushed ∷ rest) st c h = elim (Bool-cases (trusts node now d)) [
    | inr f ↦ rw f (try_anchors-Adopted now rest st c (ground arith))
    | inl t ↦ on pushed t h (λ st' e. try_anchors-Adopted now rest st' c e)
  ]
    where
      on :
          (p : Bool)
          → trusts node now d ≡ true
          → (try_anchors node now (granted d p ∷ rest) st).0 ≡ some c
          → ((st' : RenewalState)
              → (try_anchors node now rest st').0 ≡ some c
              → Adopted now c (try_anchors node now rest st').1)
          → Adopted now c (try_anchors node now (granted d p ∷ rest) st).1
      on true t h ih =
          let e : d ≡ c = ground arith in
          subst (λ x. Adopted now x (try_anchors node now (granted d true ∷ rest) st).1) e
            (rw t (adopt-Adopted now d st t))
      on false t h ih = rw t (ih (adopt node d st) (ground arith))

  -- All the waits of so many attempts.
  budget : ℕ → ℕ → ℕ
  budget zero k = 0
  budget (suc count) k = backoff k + budget count (suc k)

  attempts_slept :
      (count k : ℕ) (tries : ℕ → ℕ × List Answer) (st : RenewalState)
      → ((attempts node count k tries st).1 ≤ budget count k)
        × ((attempts node count k tries st).0 ≡ none
            → (attempts node count k tries st).1 ≡ budget count k)
  unfolding attempts budget
  attempts_slept zero k tries st = (omega arith, λ h. refl)
  attempts_slept (suc count) k tries st =
      let (now, answers) = tries k in
      let (got, st') = try_anchors node now answers st in
      elim (Option-cases got) [
        | inl e ↦ ground (arith, attempts_slept count (suc k) tries st')
        | inr (c, e) ↦ ground arith
      ]

  -- The five attempts between two waits sleep 450 seconds in all when they all fail, and never more.
  pub run_attempts_slept :
      (tries : ℕ → ℕ × List Answer) (st : RenewalState)
      → ((run_attempts node tries st).1 ≤ 450 * second)
        × ((run_attempts node tries st).0 ≡ none → (run_attempts node tries st).1 ≡ 450 * second)
  unfolding run_attempts budget backoff
  run_attempts_slept tries st = attempts_slept 5 0 tries st
