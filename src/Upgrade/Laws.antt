-- ===== src/Upgrade/Laws.antt =====
-- What the upgrades of upgrade.py come to: only an announced artifact is installed, never an older one,
-- and a failed announcement waits.
use greasewood.Base.{
  ℕ, ◌+◌, ◌≡◌, sym, ◌∙◌, ◌≢◌, ◌&&◌, true, false, none, some, List, [], ◌∷◌, ltb, ◌==◌, nat_eq,
  list_eq, option_eq, if◌then◌else◌, arith, Has, ==_self, Text, inl, inr, ◌⊎◌, Bool-cases,
  Option-cases,
}
use greasewood.Upgrade.Version.{is_newer}
use greasewood.Upgrade.Manager.{
  Announcement, Manager, Node, note_once, schedule, offer, Outcome, Action, install, upgrade,
  attempt, retry_after,
}

abbrev pub idle : Manager
idle = record { timer = none; noted_ts = none; failed_ts = none; retry_at = 0 }

-- The life of a manager: the announcements that it was offered, the newest first.
pub data Life : List Announcement → Manager → Type 0 where
  begin : Life [] idle
  offered :
      {l : List Announcement} {m : Manager} (node : Node) (now : ℕ) (a : Announcement)
      → Life l m
      → Life (a ∷ l) (offer node now a m)
  attempted :
      {l : List Announcement} {m : Manager} (node : Node) (o : Outcome) (now : ℕ)
      → Life l m
      → Life l (attempt node o now m).0

abbrev Scheduled : List Announcement → Manager → Type 0
Scheduled l m = (a : Announcement) → m.timer ≡ some a → Has a l

note_once_timer : (ts : ℕ) (m : Manager) → (note_once ts m).timer ≡ m.timer
unfolding note_once
note_once_timer ts m = ground arith

schedule_timer :
    (now : ℕ) (a : Announcement) (m : Manager)
    → ((schedule now a m).timer ≡ m.timer) ⊎ ((schedule now a m).timer ≡ some a)
unfolding schedule
schedule_timer now a m = elim (Option-cases m.timer) [
  | inr (b, e) ↦ inl (rw e (ground arith))
  | inl e ↦ elim (Bool-cases (some a.ts == m.failed_ts && ltb now m.retry_at)) [
    | inl t ↦ inl (ground arith)
    | inr f ↦ inr (ground arith)
  ]
]

offer_timer :
    (node : Node) (now : ℕ) (a : Announcement) (m : Manager)
    → ((offer node now a m).timer ≡ m.timer) ⊎ ((offer node now a m).timer ≡ some a)
unfolding offer
offer_timer node now a m = ground (arith, note_once_timer a.ts m, schedule_timer now a m)

attempt_timer :
    (node : Node) (o : Outcome) (now : ℕ) (m : Manager) → (attempt node o now m).0.timer ≡ none
unfolding attempt
attempt_timer node o now m = ground arith

Life-Scheduled : {l : List Announcement} {m : Manager} → Life l m → Scheduled l m
Life-Scheduled begin b h = absurd (ground arith)
Life-Scheduled (offered {l} {m} node now a life) b h =
    let before = Life-Scheduled life in
    elim (offer_timer node now a m) [
      | inl e ↦ inr (before b (sym e ∙ h))
      | inr e ↦ inl (ground arith)
    ]
Life-Scheduled (attempted {l} {m} node o now life) b h =
    absurd (ground (arith, attempt_timer node o now m))

-- An attempt touches the node only for a newer version, and with the announced tarball in hand.
upgrade-Has :
    (node : Node) (o : Outcome) (target sha : Text) (x : Action)
    → Has x (upgrade node o target sha).1
    → (is_newer target node.running ≡ true)
      × (o.digest ≡ some sha)
      × ((d : Text) → x ≡ install d → d ≡ sha)
unfolding upgrade
upgrade-Has node o target sha x m = elim (Bool-cases (is_newer target node.running)) [
  | inr f ↦ absurd (ground arith)
  | inl t ↦ elim (Option-cases o.digest) [
    | inl n ↦ absurd (ground arith)
    | inr (digest, n) ↦ elim (Bool-cases (digest == sha)) [
      | inr f ↦ absurd (ground arith)
      | inl same ↦ (t, ground arith, λ d e. ground arith)
    ]
  ]
]

-- Whatever announcements come in, and however the downloads and commands go: an attempt runs a command
-- only for an announcement that was offered, whose version is newer than the one that runs, and after a
-- download with the announced digest; and what it installs is the tarball with that digest.
pub Life-install :
    {l : List Announcement} {m : Manager} (node : Node) (o : Outcome) (now : ℕ) (x : Action)
    → Life l m
    → Has x (attempt node o now m).1
    → (a : Announcement) × Has a l
      × (is_newer a.version node.running ≡ true)
      × (o.digest ≡ some a.sha256)
      × ((d : Text) → x ≡ install d → d ≡ a.sha256)
unfolding attempt
Life-install {l} {m} node o now x life h = elim (Option-cases m.timer) [
  | inl e ↦ absurd (ground arith)
  | inr (a, e) ↦
      let u = upgrade-Has node o a.version a.sha256 x (ground arith) in
      (a, Life-Scheduled life a e, u.0, u.1, u.2)
]

abbrev failed : ℕ → Announcement → Manager → Manager
failed now a m = record m { timer = none; failed_ts = some a.ts; retry_at = now + retry_after }

attempt-failed :
    (node : Node) (o : Outcome) (now : ℕ) (a : Announcement) (m : Manager)
    → m.timer ≡ some a
    → (upgrade node o a.version a.sha256).0 ≡ true
    → (attempt node o now m).0 ≡ failed now a m
unfolding attempt
attempt-failed node o now a m t r = ground arith

offer-schedule :
    (node : Node) (now : ℕ) (a : Announcement) (m : Manager)
    → a.version ≢ []
    → a.sha256 ≢ []
    → is_newer a.version node.running ≡ true
    → node.auto_upgrade ≡ true
    → node.is_macos ≡ false
    → node.has_pipx ≡ true
    → offer node now a m ≡ schedule now a m
unfolding offer
offer-schedule node now a m v w newer auto linux pipx = ground arith

schedule-failed :
    (now later : ℕ) (a : Announcement) (m : Manager)
    → (schedule later a (failed now a m)).timer
      ≡ (if ltb later (now + retry_after) then none else some a)
unfolding schedule
schedule-failed now later a m = rw (==_self (some a.ts)) (ground arith)

-- A failed attempt waits. After an attempt that raises at the time `now`, a willing node that is offered
-- the same announcement schedules it again exactly if an hour has passed.
pub offer-attempt :
    (node later_node : Node) (o : Outcome) (now later : ℕ) (a : Announcement) (m : Manager)
    → m.timer ≡ some a
    → (upgrade node o a.version a.sha256).0 ≡ true
    → a.version ≢ []
    → a.sha256 ≢ []
    → is_newer a.version later_node.running ≡ true
    → later_node.auto_upgrade ≡ true
    → later_node.is_macos ≡ false
    → later_node.has_pipx ≡ true
    → (offer later_node later a (attempt node o now m).0).timer
      ≡ (if ltb later (now + retry_after) then none else some a)
offer-attempt node node' o now later a m t r v w newer auto linux pipx =
    rw
      (
        attempt-failed node o now a m t r,
        offer-schedule node' later a (failed now a m) v w newer auto linux pipx,
      )
      (schedule-failed now later a m)
