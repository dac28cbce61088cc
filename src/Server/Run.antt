-- ===== src/Server/Run.antt =====
-- The control plane of server.py over a run: how long a nonce counts as used, and how many are held.
use greasewood.Base.{
  ℕ, ◌+◌, ◌≤◌, ◌<◌, ◌≡◌, true, false, Option, some, List, length, list_eq, nat_eq, inl, inr, arith,
  Text, Bytes, Option-cases,
}
use greasewood.Base.Dict
use greasewood.Wire.Crypto.{Crypto}
use greasewood.Ca.Defs.{CaState}
use greasewood.Server.Guard.{
  Seen, window, hard, check_and_add-length, check_and_add-held, check_and_add-lookup,
  check_and_add-refused,
}
use greasewood.Server.Offer.{OfferFile}
use greasewood.Server.Defs.{Settings, Plane}
use greasewood.Server.Cert.{Post, do_post}
use greasewood.Server.Replay.{
  Carries, is_error, Asked, do_post-Asked, do_post-anchor, do_post-refused, anchor_post-used,
  anchor_post-refused,
}

module _ ⦃C : Crypto⦄ (issue_tls : Bytes → Text → List Text → List Text → ℕ → Option (Text × Text))
    (cfg : Settings) where
  -- What a run of the daemon does to its state up to a time: it serves requests, and changes
  -- whatever the handlers do not keep to themselves.
  pub data Served (limit : ℕ) (start : Plane) : Plane → Type 0 where
    here : Served limit start start
    next :
        (now : ℕ) (p : Post) (s : Plane)
        → now ≤ limit
        → Served limit start s
        → Served limit start (do_post issue_tls cfg now p s).1
    elsewhere :
        (ca : CaState) (offer : OfferFile) (s : Plane)
        → Served limit start s
        → Served limit start (record s { ca = ca; offer = offer })

  Asked-lookup :
      (now e : ℕ) (n : Text) (seen seen' : Seen)
      → Asked now seen seen'
      → now < e
      → Dict.lookup n seen ≡ some e
      → Dict.lookup n seen' ≡ some e
  Asked-lookup now e n seen seen' (inl p) lt h = rw p h
  Asked-lookup now e n seen seen' (inr (m, p)) lt h =
      rw p (check_and_add-lookup now e n m seen lt h)

  Served-lookup :
      (limit e : ℕ) (n : Text) (s t : Plane)
      → Served limit s t
      → limit < e
      → Dict.lookup n s.replay ≡ some e
      → Dict.lookup n t.replay ≡ some e
  Served-lookup limit e n s _ here lt h = h
  Served-lookup limit e n s _ (next now p t le run) lt h =
      Asked-lookup now e n t.replay _ (do_post-Asked issue_tls cfg now p t) (omega arith)
        (Served-lookup limit e n s t run lt h)
  Served-lookup limit e n s _ (elsewhere ca offer t run) lt h = Served-lookup limit e n s t run lt h

  -- Over a run the guard's memory stays within its hard limit, whatever requests come in.
  pub Served-length :
      (limit : ℕ) (s t : Plane) → Served limit s t → length s.replay ≤ hard → length t.replay ≤ hard
  Served-length limit s _ here h = h
  Served-length limit s _ (next now p t le run) h =
      bounded now t.replay _ (do_post-Asked issue_tls cfg now p t) (Served-length limit s t run h)
    where
      bounded :
          (now : ℕ) (seen seen' : Seen)
          → Asked now seen seen'
          → length seen ≤ hard
          → length seen' ≤ hard
      bounded now seen seen' (inl p) h = rw p h
      bounded now seen seen' (inr (m, p)) h = rw p (check_and_add-length now m seen h)
  Served-length limit s _ (elsewhere ca offer t run) h = Served-length limit s t run h

  -- A nonce is good for one request within the guard's window: after a request that was granted,
  -- every request with the same nonce, of whatever kind and whoever signed it, is refused and
  -- leaves the CA's state alone, whatever was served in between, until 600 seconds have passed.
  pub do_post_once :
      (now later : ℕ) (p q : Post) (n : Text) (s t : Plane)
      → Carries p n
      → is_error (do_post issue_tls cfg now p s).0 ≡ false
      → Served later (do_post issue_tls cfg now p s).1 t
      → later < now + window
      → Carries q n
      → (is_error (do_post issue_tls cfg later q t).0 ≡ true)
        × ((do_post issue_tls cfg later q t).1.ca ≡ t.ca)
  do_post_once now later p q n s t c granted run soon d = elim (Option-cases cfg.ca) [
    | inl e ↦ absurd (ground (arith, do_post-refused issue_tls cfg now p n s c e))
    | inr (ca, e) ↦
        let first = do_post-anchor issue_tls cfg ca now p s e in
        let again = do_post-anchor issue_tls cfg ca later q t e in
        let (fresh, used) = anchor_post-used issue_tls cfg ca now p n s c (rw first at granted) in
        let held : Dict.lookup n (do_post issue_tls cfg now p s).1.replay ≡ some (now + window) =
          rw (first, used) (check_and_add-held now n s.replay fresh) in
        let kept = Served-lookup later (now + window) n _ t run soon held in
        rw again (
          anchor_post-refused issue_tls cfg ca later q n t d
            (check_and_add-refused later (now + window) n t.replay soon kept))
  ]
