-- ===== src/Server/Replay.antt =====
-- What the replay guard of server.py does for the requests that `do_POST` dispatches.
use greasewood.Base.{
  ℕ, ◌≡◌, refl, Bool, true, false, Option, none, some, List, list_eq, nat_eq, ◌⊎◌, inl, inr, arith,
  Text, Bytes, Option-cases, Bool-cases,
}
use greasewood.Errors.{ok, err}
use greasewood.Wire.Crypto.{Crypto}
use greasewood.Ca.Defs.{Config}
use greasewood.Server.Guard.{Seen, check_and_add}
use greasewood.Server.Defs.{
  Settings, Plane, Reply, error, Handler, once, handle_publish, handle_leave, handle_attest,
  handle_anchor_claim, handle_renew, leave_now, claim_now, renew_now, serve_offer,
}
use greasewood.Server.Cert.{
  Post, bad_json, not_found, publish, leave, attest, anchor_claim, renew_post, cert, handle_cert,
  cert_now, issue_for, anchor_post, plain_post, do_post,
}

-- The nonce of a request that carries one and could be parsed.
pub data Carries : Post → Text → Type 0 where
  leaves : (r : greasewood.Wire.Requests.LeaveRequest) → Carries (leave (ok r)) r.nonce
  claims : (r : greasewood.Wire.Requests.AnchorClaimRequest) → Carries (anchor_claim (ok r)) r.nonce
  renews : (r : greasewood.Wire.Requests.RenewRequest) → Carries (renew_post (ok r)) r.nonce
  asks : (r : greasewood.Wire.Requests.CertRequest) → Carries (cert (ok r)) r.nonce

abbrev pub is_error : Reply → Bool
is_error (error n) = true
is_error _ = false

-- The guard is asked about at most one nonce.
abbrev pub Asked : ℕ → Seen → Seen → Type 0
Asked now seen seen' =
    (seen' ≡ seen) ⊎ ((nonce : Text) × (seen' ≡ (check_and_add now nonce seen).1))

about :
    (now : ℕ) (nonce : Text) (seen seen' : Seen)
    → (seen' ≡ seen) ⊎ (seen' ≡ (check_and_add now nonce seen).1)
    → Asked now seen seen'
about now nonce seen seen' (inl p) = inl p
about now nonce seen seen' (inr p) = inr (nonce, p)

-- A handler behind the guard asks about its nonce, if it leaves the guard alone itself.
once-replay :
    (now : ℕ) (nonce : Text) (rest : Handler) (s : Plane)
    → ((t : Plane) → (rest t).1.replay ≡ t.replay)
    → (once now nonce rest s).1.replay ≡ (check_and_add now nonce s.replay).1
once-replay now nonce rest s keeps = elim (Bool-cases (check_and_add now nonce s.replay).0) [
  | inl t ↦ rw t (keeps (record s { replay = (check_and_add now nonce s.replay).1 }))
  | inr f ↦ rw f refl
]

module _ ⦃C : Crypto⦄ (issue_tls : Bytes → Text → List Text → List Text → ℕ → Option (Text × Text))
    (cfg : Settings) where
  pub anchor_post-used :
      (ca : Config) (now : ℕ) (p : Post) (n : Text) (s : Plane)
      → Carries p n
      → is_error (anchor_post issue_tls cfg ca now p s).0 ≡ false
      → ((check_and_add now n s.replay).0 ≡ true)
        × ((anchor_post issue_tls cfg ca now p s).1.replay ≡ (check_and_add now n s.replay).1)
  unfolding anchor_post handle_leave handle_anchor_claim handle_renew handle_cert
  anchor_post-used ca now _ _ s (leaves r) h = ground arith
  anchor_post-used ca now _ _ s (claims r) h = ground arith
  anchor_post-used ca now _ _ s (renews r) h = ground arith
  anchor_post-used ca now _ _ s (asks r) h = ground arith

  pub anchor_post-refused :
      (ca : Config) (now : ℕ) (p : Post) (n : Text) (s : Plane)
      → Carries p n
      → (check_and_add now n s.replay).0 ≡ false
      → (is_error (anchor_post issue_tls cfg ca now p s).0 ≡ true)
        × ((anchor_post issue_tls cfg ca now p s).1.ca ≡ s.ca)
  unfolding anchor_post handle_leave handle_anchor_claim handle_renew handle_cert
  anchor_post-refused ca now _ _ s (leaves r) h = ground arith
  anchor_post-refused ca now _ _ s (claims r) h = ground arith
  anchor_post-refused ca now _ _ s (renews r) h = ground arith
  anchor_post-refused ca now _ _ s (asks r) h = ground arith

  anchor_post-Asked :
      (ca : Config) (now : ℕ) (p : Post) (s : Plane)
      → Asked now s.replay (anchor_post issue_tls cfg ca now p s).1.replay
  unfolding anchor_post handle_publish handle_attest handle_leave handle_anchor_claim handle_renew
      handle_cert leave_now claim_now renew_now cert_now serve_offer issue_for
  anchor_post-Asked ca now bad_json s = inl refl
  anchor_post-Asked ca now not_found s = inl refl
  anchor_post-Asked ca now (publish (ok r)) s = inl (ground arith)
  anchor_post-Asked ca now (attest l) s = inl (ground arith)
  anchor_post-Asked ca now (leave (ok r)) s =
      about now r.nonce s.replay _
        (ground (arith, once-replay now r.nonce (leave_now cfg ca now r) s (λ t. ground arith)))
  anchor_post-Asked ca now (anchor_claim (ok r)) s =
      about now r.nonce s.replay _
        (ground (arith, once-replay now r.nonce (claim_now cfg now r) s (λ t. ground arith)))
  anchor_post-Asked ca now (renew_post (ok r)) s =
      about now r.nonce s.replay _
        (ground (arith, once-replay now r.nonce (renew_now cfg ca now r) s (λ t. ground arith)))
  anchor_post-Asked ca now (cert (ok r)) s = about now r.nonce s.replay _ (
      ground
        (arith, once-replay now r.nonce (cert_now issue_tls cfg ca now r) s (λ t. ground arith)))
  anchor_post-Asked ca now (publish (err e)) s = inl refl
  anchor_post-Asked ca now (leave (err e)) s = inl refl
  anchor_post-Asked ca now (anchor_claim (err e)) s = ground arith
  anchor_post-Asked ca now (renew_post (err e)) s = inl refl
  anchor_post-Asked ca now (cert (err e)) s = inl refl

  pub do_post-Asked :
      (now : ℕ) (p : Post) (s : Plane) → Asked now s.replay (do_post issue_tls cfg now p s).1.replay
  unfolding do_post plain_post handle_publish
  do_post-Asked now p s = elim (Option-cases cfg.ca) [
    | inl e ↦ plain p e
    | inr (ca, e) ↦ rw e (anchor_post-Asked ca now p s)
  ]
    where
      plain :
          (q : Post) → cfg.ca ≡ none → Asked now s.replay (do_post issue_tls cfg now q s).1.replay
      plain bad_json e = ground arith
      plain not_found e = ground arith
      plain (publish (ok r)) e = inl (ground arith)
      plain (publish (err x)) e = ground arith
      plain (leave r) e = ground arith
      plain (attest l) e = ground arith
      plain (anchor_claim r) e = ground arith
      plain (renew_post r) e = ground arith
      plain (cert r) e = ground arith

  pub do_post-anchor :
      (ca : Config) (now : ℕ) (p : Post) (s : Plane)
      → cfg.ca ≡ some ca
      → do_post issue_tls cfg now p s ≡ anchor_post issue_tls cfg ca now p s
  unfolding do_post
  do_post-anchor ca now p s e = ground arith

  -- With no CA nothing is granted to a request that carries a nonce.
  pub do_post-refused :
      (now : ℕ) (p : Post) (n : Text) (s : Plane)
      → Carries p n
      → cfg.ca ≡ none
      → is_error (do_post issue_tls cfg now p s).0 ≡ true
  unfolding do_post plain_post
  do_post-refused now _ _ s (leaves r) e = ground arith
  do_post-refused now _ _ s (claims r) e = ground arith
  do_post-refused now _ _ s (renews r) e = ground arith
  do_post-refused now _ _ s (asks r) e = ground arith
