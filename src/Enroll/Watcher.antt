-- ===== src/Enroll/Watcher.antt =====
-- `DoorWatcher` of enroll.py: the window file is polled, and an `EnrollServer` runs for a window that is
-- live. A server is the number that the watcher started it under.
use greasewood.Base.{
  ℕ, ◌+◌, Bool, true, false, not, ◌&&◌, Option, none, some, List, ◌∷◌, ltb, ◌==◌, nat_eq, list_eq,
  option_eq, if◌then◌else◌, Text,
}

-- A window as `parse_window` of door.py returns it: `guest_pub` and `psk` are both there or not.
pub record DoorWindow : Type 0 where
  pub standing : Bool
  pub expires : Option ℕ
  pub has_door_keys : Bool

-- The window file: missing, not to be read as JSON, or an object with its fingerprint, its field
-- `expires`, and what `parse_window` makes of it.
pub data WindowFile : Type 0 where
  missing unreadable : WindowFile
  parsed : Text → Option Text → Option DoorWindow → WindowFile

-- `_enroll` and `_window_fp`, the window file, whether the door's interface exists, the number of the
-- next server, and the servers that `stop` was called on.
pub record Watcher : Type 0 where
  pub enroll : Option ℕ
  pub window_fp : Option Text
  pub file : WindowFile
  pub door_up : Bool
  pub next : ℕ
  pub stopped : List ℕ

-- `Window.live`
unfoldable pub live : ℕ → DoorWindow → Bool
live now w = if w.standing then true else elim w.expires [ none ↦ false | some t ↦ ltb now t ]

-- `_stop_server`
unfoldable pub stop_server : Watcher → Watcher
stop_server s = elim s.enroll [
  | none ↦ s
  | some n ↦ record s { enroll = none; stopped = n ∷ s.stopped }
]

-- `_clear_enroll`
unfoldable pub clear_enroll : Watcher → Watcher
unfolding stop_server
clear_enroll s = record (stop_server s) { door_up = false }

-- The test for a standing window whose interface a reboot took.
abbrev pub must_erect : DoorWindow → Watcher → Bool
must_erect w s = w.standing && w.has_door_keys && not s.door_up

abbrev pub launch : Watcher → Watcher
launch s = record s { enroll = some s.next; next = s.next + 1 }

-- `_start_server`, where `erects` says whether the interface can be erected
unfoldable pub start_server : Bool → DoorWindow → Watcher → Watcher
start_server erects w s = elim s.enroll [
  | some _ ↦ s
  | none ↦
      if must_erect w s
      then (if erects then launch (record s { door_up = true }) else s)
      else launch s
]

-- The end of `_tick`, for a window that is live
unfoldable pub serve_window : Bool → Text → DoorWindow → Watcher → Watcher
unfolding start_server stop_server
serve_window erects fp w s =
    let s' = if some fp == s.window_fp then s else stop_server s in
    record (start_server erects w s') { window_fp = some fp }

-- `_tick`
unfoldable pub tick : ℕ → Bool → Watcher → Watcher
unfolding clear_enroll serve_window live
tick now erects s = elim s.file [
  | missing ↦ record (clear_enroll s) { window_fp = none }
  | unreadable ↦ s
  | parsed fp expires_str win ↦ elim win [
    | none ↦ s
    | some w ↦
        if live now w
        then serve_window erects fp w s
        else record (clear_enroll s) { window_fp = none; file = missing }
  ]
]

-- What `on_done` makes of the window file: it removes the window of its own session.
unfoldable pub after_done : Bool → Option Text → WindowFile → WindowFile
after_done standing expires_str missing = missing
after_done standing expires_str unreadable = if standing then unreadable else missing
after_done standing expires_str (parsed fp e win) =
    if standing then parsed fp e win else (if e == expires_str then missing else parsed fp e win)

-- `on_done` of a server, for the window that it was started for
unfoldable pub on_done : Bool → Option Text → Watcher → Watcher
unfolding after_done
on_done standing expires_str s = record s {
  enroll = none;
  file = after_done standing expires_str s.file;
}
