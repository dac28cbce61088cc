-- ===== src/Reconcile/Tracker.antt =====
-- `_endpoint_candidates` and `_EndpointTracker` of reconcile.py. Its floats of seconds are numbers of
-- microseconds; a handshake keeps its whole seconds.
use greasewood.Base.{
  ℕ, ◌+◌, ◌*◌, ◌≡◌, refl, Bool, true, false, not, ◌&&◌, ◌||◌, Option, none, some, List, [], ◌∷◌,
  keep, length, leb, ltb, ◌==◌, list_eq, nat_eq, if◌then◌else◌, contains, contains_iff, Has, ◌⊎◌,
  inl, inr, arith, Text, codes, starts_with, Bool-cases,
}
use greasewood.Base.Dict
use greasewood.Base.Dict.{Dict}
use greasewood.Wire.Time.{second}

-- `_endpoint_candidates`
unfoldable pub endpoint_candidates : List Text → List ℕ → List Text
unfolding starts_with
endpoint_candidates endpoints [] = endpoints
endpoint_candidates endpoints (f ∷ families) =
    keep (λ ep. contains (f ∷ families) (if starts_with (codes "[") ep then 6 else 4)) endpoints

-- `_PeerEndpoint`
pub record PeerEndpoint : Type 0 where
  pub current : Text
  pub since : ℕ
  pub unhealthy_since : Option ℕ
  pub dead : Bool

-- The settings of the tracker, and what it carries from one pass to the next.
pub record Windows : Type 0 where
  pub dwell : ℕ
  pub healthy : ℕ
  pub wake_rearm : ℕ
  pub wake_settle : ℕ

pub record Tracker : Type 0 where
  pub state : Dict Text PeerEndpoint
  pub last_witness : ℕ
  pub wake_until : ℕ

-- `_is_healthy`
abbrev pub is_healthy : Windows → ℕ → ℕ → Bool
is_healthy w hs now = ltb 0 hs && leb now (hs * second + w.healthy)

abbrev pub extend : Windows → ℕ → Bool → Tracker → Tracker
extend w now condition t = if condition then record t { wake_until = now + w.wake_settle } else t

-- `witness`
unfoldable pub witness : Windows → ℕ → ℕ → Tracker → Tracker
witness w now handshake t =
    let heard : Tracker =
      if ltb 0 handshake
      then (let t' =
            extend w now
              (ltb 0 t.last_witness
                && (ltb (t.last_witness + 500000) (handshake * second)
                    && ltb (t.last_witness + w.wake_rearm) now))
              t in
          record t' { last_witness = handshake * second })
      else t in
    extend w now (ltb 0 heard.last_witness && ltb (heard.last_witness + w.wake_rearm) now) heard

-- `in_wake`
abbrev pub in_wake : ℕ → Tracker → Bool
in_wake now t = ltb now t.wake_until

-- `candidates[(candidates.index(current) + 1) % len(candidates)]`
unfoldable pub following : Text → Text → List Text → Text
following first current [] = first
following first current (c ∷ []) = first
following first current (c ∷ d ∷ rest) =
    let later = following first current (d ∷ rest) in if current == c then d else later

-- The state of an unhealthy peer after `choose`.
unfoldable pub probe : Windows → Bool → ℕ → Text → List Text → PeerEndpoint → PeerEndpoint
unfolding following
probe w wake now first candidates p =
    let unhealthy : ℕ = elim p.unhealthy_since [ none ↦ now | some t ↦ t ] in
    let move : Bool = ltb 1 (length candidates) && leb (p.since + w.dwell) now in
    record {
      current = if move then following first p.current candidates else p.current;
      since = if move then now else p.since;
      unhealthy_since = some (if wake then now else unhealthy);
      dead = not wake && leb (unhealthy + w.dwell * length candidates) now;
    }

-- What a peer with candidates has after `choose`, from what it had.
unfoldable pub pin : Windows → Bool → ℕ → ℕ → Text → List Text → Option PeerEndpoint → PeerEndpoint
unfolding probe
pin w wake hs now first rest had =
    let new : PeerEndpoint = record {
      current = first;
      since = now;
      unhealthy_since = if is_healthy w hs now then none else some now;
      dead = false;
    } in
    elim had [
      | none ↦ new
      | some p ↦
          if not (contains (first ∷ rest) p.current)
          then new
          else if is_healthy w hs now
          then record p { since = now; unhealthy_since = none; dead = false }
          else probe w wake now first (first ∷ rest) p
    ]

-- `choose`: the endpoint, and the tracker after it
unfoldable pub choose : Windows → Text → List Text → ℕ → ℕ → Tracker → Option Text × Tracker
unfolding pin
choose w wg_pub [] hs now t = (none, record t { state = Dict.erase wg_pub t.state })
choose w wg_pub (first ∷ rest) hs now t =
    let p : PeerEndpoint = pin w (in_wake now t) hs now first rest (Dict.lookup wg_pub t.state) in
    (some p.current, record t { state = Dict.insert wg_pub p t.state })

-- `is_backoff`
unfoldable pub is_backoff : Text → Tracker → Bool
is_backoff wg_pub t = elim (Dict.lookup wg_pub t.state) [ none ↦ false | some p ↦ p.dead ]

following-Has :
    (first current : Text) (candidates : List Text)
    → Has (following first current candidates) candidates
      ⊎ (following first current candidates ≡ first)
unfolding following
following-Has first current [] = inr refl
following-Has first current (c ∷ []) = inr refl
following-Has first current (c ∷ d ∷ rest) = ground (arith, following-Has first current (d ∷ rest))

probe-Has :
    (w : Windows) (wake : Bool) (now : ℕ) (first : Text) (rest : List Text) (p : PeerEndpoint)
    → Has p.current (first ∷ rest)
    → Has (probe w wake now first (first ∷ rest) p).current (first ∷ rest)
unfolding probe
probe-Has w wake now first rest p m =
    elim (Bool-cases (ltb 1 (length (first ∷ rest)) && leb (p.since + w.dwell) now)) [
      | inl t ↦ elim (following-Has first p.current (first ∷ rest)) [
        | inl n ↦ ground arith
        | inr e ↦ ground arith
      ]
      | inr f ↦ ground arith
    ]

pin-Has :
    (w : Windows) (wake : Bool) (hs now : ℕ) (first : Text) (rest : List Text)
    (had : Option PeerEndpoint)
    → Has (pin w wake hs now first rest had).current (first ∷ rest)
unfolding pin
pin-Has w wake hs now first rest none = inl refl
pin-Has w wake hs now first rest (some p) =
    ground (arith, (contains_iff (first ∷ rest) p.current).0, probe-Has w wake now first rest p)

pin_awake :
    (w : Windows) (wake : Bool) (hs now : ℕ) (first : Text) (rest : List Text)
    (had : Option PeerEndpoint)
    → (is_healthy w hs now || wake) ≡ true
    → (pin w wake hs now first rest had).dead ≡ false
unfolding pin probe
pin_awake w wake hs now first rest none h = refl
pin_awake w wake hs now first rest (some p) h = ground arith

-- The endpoint that is pinned is always one that the peer advertises now, and there is one whenever it
-- advertises any.
pub choose-Has :
    (w : Windows) (wg_pub : Text) (candidates : List Text) (hs now : ℕ) (t : Tracker)
    → (((choose w wg_pub candidates hs now t).0 ≡ none) × (candidates ≡ []))
      ⊎ ((ep : Text) × ((choose w wg_pub candidates hs now t).0 ≡ some ep) × Has ep candidates)
unfolding choose
choose-Has w wg_pub [] hs now t = inl (refl, refl)
choose-Has w wg_pub (first ∷ rest) hs now t =
    inr (_, refl, pin-Has w (in_wake now t) hs now first rest (Dict.lookup wg_pub t.state))

-- A peer with a live handshake, and any peer during a wake window, is not in backoff after `choose`.
pub choose-is_backoff :
    (w : Windows) (wg_pub : Text) (candidates : List Text) (hs now : ℕ) (t : Tracker)
    → (is_healthy w hs now || in_wake now t) ≡ true
    → is_backoff wg_pub (choose w wg_pub candidates hs now t).1 ≡ false
unfolding choose is_backoff
choose-is_backoff w wg_pub [] hs now t h = ground (arith, Dict.lookup-erase wg_pub wg_pub t.state)
choose-is_backoff w wg_pub (first ∷ rest) hs now t h =
    let p = pin w (in_wake now t) hs now first rest (Dict.lookup wg_pub t.state) in
    ground (
      arith,
      Dict.lookup-insert wg_pub wg_pub p t.state,
      pin_awake w (in_wake now t) hs now first rest (Dict.lookup wg_pub t.state) h,
    )
