-- ===== src/Upgrade/Manager.antt =====
-- `UpgradeManager` of upgrade.py. Its lock makes each of the steps one; times are those of the monotonic
-- clock, in seconds. What the download, pipx and the service manager answer is an argument.
use greasewood.Base.{
  ℕ, ◌+◌, Bool, true, false, not, ◌&&◌, ◌||◌, Option, none, some, List, [], ◌∷◌, ltb, ◌==◌, nat_eq,
  list_eq, option_eq, if◌then◌else◌, Text,
}
use greasewood.Upgrade.Version.{is_newer}

-- An announcement: its `ts`, and the two strings of its payload, empty where they are missing.
pub record Announcement : Type 0 where
  pub ts : ℕ
  pub version : Text
  pub sha256 : Text

-- `_timer` with the arguments of its attempt, `_noted_ts`, `_failed_ts`, `_retry_at`.
pub record Manager : Type 0 where
  pub timer : Option Announcement
  pub noted_ts : Option ℕ
  pub failed_ts : Option ℕ
  pub retry_at : ℕ

-- The node: the version that runs, `auto_upgrade`, and whether it is a Mac and a pipx install.
pub record Node : Type 0 where
  pub running : Text
  pub auto_upgrade : Bool
  pub is_macos : Bool
  pub has_pipx : Bool

abbrev pub retry_after : ℕ
retry_after = 3600

abbrev is_empty : Text → Bool
is_empty [] = true
is_empty (c ∷ s) = false

-- `_note_once`
unfoldable pub note_once : ℕ → Manager → Manager
note_once ts m = if m.noted_ts == some ts then m else record m { noted_ts = some ts }

-- The end of `offer`, under the lock: the attempt is scheduled after a random delay.
unfoldable pub schedule : ℕ → Announcement → Manager → Manager
schedule now a m = elim m.timer [
  | some _ ↦ m
  | none ↦ if some a.ts == m.failed_ts && ltb now m.retry_at then m else record m { timer = some a }
]

-- `offer`
unfoldable pub offer : Node → ℕ → Announcement → Manager → Manager
unfolding note_once schedule
offer node now a m =
    if is_empty a.version || is_empty a.sha256
    then m
    else if not (is_newer a.version node.running)
    then m
    else if not node.auto_upgrade
    then note_once a.ts m
    else if node.is_macos
    then note_once a.ts m
    else if not node.has_pipx
    then note_once a.ts m
    else schedule now a m

-- What the attempt meets: the digest of the tarball, or none where the download fails, and whether the
-- two commands succeed.
pub record Outcome : Type 0 where
  pub digest : Option Text
  pub uninstalls : Bool
  pub installs : Bool

-- What it does to the node: the install is of the tarball with the digest.
pub data Action : Type 0 where
  uninstall restart : Action
  install : Text → Action

-- `_upgrade`: whether it raises, and the commands that were run
unfoldable pub upgrade : Node → Outcome → Text → Text → Bool × List Action
upgrade node o target sha =
    if not (is_newer target node.running)
    then (false, [])
    else if not node.has_pipx
    then (false, [])
    else elim o.digest [
      | none ↦ (true, [])
      | some digest ↦
          if not (digest == sha)
          then (true, [])
          else if not o.uninstalls
          then (true, uninstall ∷ [])
          else if not o.installs
          then (true, uninstall ∷ install digest ∷ [])
          else (false, uninstall ∷ install digest ∷ restart ∷ [])
    ]

-- `_attempt`, at the end of the timer: `now` is the clock after the attempt
unfoldable pub attempt : Node → Outcome → ℕ → Manager → Manager × List Action
unfolding upgrade
attempt node o now m = elim m.timer [
  | none ↦ (m, [])
  | some a ↦
      let (raised, actions) = upgrade node o a.version a.sha256 in
      if raised
      then (record m { timer = none; failed_ts = some a.ts; retry_at = now + retry_after }, actions)
      else (record m { timer = none }, actions)
]
