-- ===== src/Enroll/Watching.antt =====
-- What the polling of the window file comes to: `DoorWatcher` of enroll.py.
use greasewood.Base.{
  ℕ, ◌+◌, ◌<◌, ◌≡◌, refl, Bool, true, false, Option, none, some, ◌∷◌, ◌==◌, nat_eq, list_eq,
  option_eq, arith, Has, Text, inl, inr, ◌⊎◌, Bool-cases, Option-cases,
}
use greasewood.Enroll.Watcher.{
  DoorWindow, parsed, Watcher, live, stop_server, must_erect, launch, start_server, serve_window,
  tick, after_done, on_done,
}

tick-serve_window :
    (now : ℕ) (erects : Bool) (s : Watcher) (fp : Text) (expires_str : Option Text) (w : DoorWindow)
    → s.file ≡ parsed fp expires_str (some w)
    → live now w ≡ true
    → tick now erects s ≡ serve_window erects fp w s
unfolding tick
tick-serve_window now erects s fp e w there l = rw (there, l) refl

start_server-launch :
    (erects : Bool) (w : DoorWindow) (s : Watcher)
    → s.enroll ≡ none
    → (must_erect w s ≡ false) ⊎ (erects ≡ true)
    → (u : Bool) × (start_server erects w s ≡ launch (record s { door_up = u }))
unfolding start_server
start_server-launch erects w s idle (inl fine) = (s.door_up, rw (idle, fine) refl)
start_server-launch erects w s idle (inr can) = elim (Bool-cases (must_erect w s)) [
  | inl must ↦ (true, rw (idle, must, can) refl)
  | inr fine ↦ (s.door_up, rw (idle, fine) refl)
]

start_server-some :
    (erects : Bool) (w : DoorWindow) (s : Watcher) (j : ℕ)
    → s.enroll ≡ some j
    → start_server erects w s ≡ s
unfolding start_server
start_server-some erects w s j n = rw n refl

-- What `_stop_server` leaves.
abbrev quiet : Watcher → ℕ → Watcher
quiet s j = record s { enroll = none; stopped = j ∷ s.stopped }

serve_window-superseded :
    (erects : Bool) (fp : Text) (s : Watcher) (w : DoorWindow) (j : ℕ)
    → (some fp == s.window_fp) ≡ false
    → s.enroll ≡ some j
    → serve_window erects fp w s
      ≡ record (start_server erects w (quiet s j)) { window_fp = some fp }
unfolding serve_window stop_server
serve_window-superseded erects fp s w j other n = rw other (rw n refl)

serve_window-idle :
    (erects : Bool) (fp : Text) (s : Watcher) (w : DoorWindow)
    → s.enroll ≡ none
    → serve_window erects fp w s ≡ record (start_server erects w s) { window_fp = some fp }
unfolding serve_window stop_server
serve_window-idle erects fp s w idle = elim (Bool-cases (some fp == s.window_fp)) [
  | inl same ↦ rw same refl
  | inr other ↦ rw other (ground arith)
]

serve_window-kept :
    (erects : Bool) (fp : Text) (s : Watcher) (w : DoorWindow) (j : ℕ)
    → (some fp == s.window_fp) ≡ true
    → s.enroll ≡ some j
    → (serve_window erects fp w s).enroll ≡ some j
unfolding serve_window
serve_window-kept erects fp s w j same n = rw same (rw (start_server-some erects w s j n) n)

-- The watcher after a tick that starts a server.
abbrev started : Text → Bool → Watcher → Watcher
started fp u s = record (launch (record s { door_up = u })) { window_fp = some fp }

serve_window-launch :
    (erects : Bool) (fp : Text) (s : Watcher) (w : DoorWindow)
    → s.enroll ≡ none
    → (must_erect w s ≡ false) ⊎ (erects ≡ true)
    → (u : Bool) × (serve_window erects fp w s ≡ started fp u s)
serve_window-launch erects fp s w idle can =
    let (u, e) = start_server-launch erects w s idle can in
    (u, rw (serve_window-idle erects fp s w idle, e) refl)

serve_window-relaunch :
    (erects : Bool) (fp : Text) (s : Watcher) (w : DoorWindow) (j : ℕ)
    → (some fp == s.window_fp) ≡ false
    → s.enroll ≡ some j
    → (must_erect w s ≡ false) ⊎ (erects ≡ true)
    → (u : Bool) × (serve_window erects fp w s ≡ started fp u (quiet s j))
serve_window-relaunch erects fp s w j other n can =
    let (u, e) = start_server-launch erects w (quiet s j) refl can in
    (u, rw (serve_window-superseded erects fp s w j other n, e) refl)

serve_window-enroll :
    (erects : Bool) (fp : Text) (s : Watcher) (w : DoorWindow)
    → (must_erect w s ≡ false) ⊎ (erects ≡ true)
    → (k : ℕ) × ((serve_window erects fp w s).enroll ≡ some k)
      × ((k ≡ s.next) ⊎ ((s.enroll ≡ some k) × (s.window_fp ≡ some fp)))
serve_window-enroll erects fp s w can = elim (Option-cases s.enroll) [
  | inl n ↦ let (u, e) = serve_window-launch erects fp s w n can in (s.next, rw e refl, inl refl)
  | inr (j, n) ↦ elim (Bool-cases (some fp == s.window_fp)) [
    | inl same ↦ (j, serve_window-kept erects fp s w j same n, inr (n, ground arith))
    | inr other ↦
        let (u, e) = serve_window-relaunch erects fp s w j other n can in
        (s.next, rw e refl, inl refl)
  ]
]

-- A window that is live is served: after a tick that can erect the interface where it must, the watcher
-- has a server, which is a new one unless it had one and the fingerprint of the window is unchanged.
pub tick-live :
    (now : ℕ) (erects : Bool) (s : Watcher) (fp : Text) (expires_str : Option Text) (w : DoorWindow)
    → s.file ≡ parsed fp expires_str (some w)
    → live now w ≡ true
    → (must_erect w s ≡ false) ⊎ (erects ≡ true)
    → (k : ℕ) × ((tick now erects s).enroll ≡ some k)
      × ((k ≡ s.next) ⊎ ((s.enroll ≡ some k) × (s.window_fp ≡ some fp)))
tick-live now erects s fp e w there l can =
    rw (tick-serve_window now erects s fp e w there l) (serve_window-enroll erects fp s w can)

after_done-parsed :
    (standing : Bool) (mine : Option Text) (fp : Text) (e : Option Text) (win : Option DoorWindow)
    → (standing ≡ true) ⊎ ((e == mine) ≡ false)
    → after_done standing mine (parsed fp e win) ≡ parsed fp e win
unfolding after_done
after_done-parsed standing mine fp e win (inl h) = rw h refl
after_done-parsed standing mine fp e win (inr h) = ground arith

on_done-file :
    (standing : Bool) (mine : Option Text) (s : Watcher) (fp : Text) (e : Option Text)
    (win : Option DoorWindow)
    → s.file ≡ parsed fp e win
    → (standing ≡ true) ⊎ ((e == mine) ≡ false)
    → on_done standing mine s ≡ record s { enroll = none }
unfolding on_done
on_done-file standing mine s fp e win there ended =
    let kept : after_done standing mine s.file ≡ s.file =
      rw there (after_done-parsed standing mine fp e win ended) in
    rw kept refl

-- A window that supersedes another is left to two servers. The file has a window with another
-- fingerprint than the one that is served, live at both ticks, and the interface can be erected; the
-- server of before is standing, or its window had another expiry; numbers are not given twice. Then the
-- first tick starts a new server; when the one of before ends, and calls `on_done`, the watcher forgets
-- the new one, which nothing has stopped, and the next tick starts another.
pub superseded-on_done :
    (now later : ℕ) (erects : Bool) (s : Watcher) (fp : Text) (e mine : Option Text)
    (standing : Bool) (w : DoorWindow) (j : ℕ)
    → s.file ≡ parsed fp e (some w)
    → s.enroll ≡ some j
    → (some fp == s.window_fp) ≡ false
    → ((i : ℕ) → Has i (j ∷ s.stopped) → i < s.next)
    → live now w ≡ true
    → live later w ≡ true
    → (must_erect w s ≡ false) ⊎ (erects ≡ true)
    → (standing ≡ true) ⊎ ((e == mine) ≡ false)
    → ((tick now erects s).enroll ≡ some s.next)
      × ((on_done standing mine (tick now erects s)).enroll ≡ none)
      × ¬ Has s.next (on_done standing mine (tick now erects s)).stopped
      × ((tick later true (on_done standing mine (tick now erects s))).enroll ≡ some (s.next + 1))
superseded-on_done now later erects s fp e mine standing w j there n other fresh l l' can ended =
    let (u, t) = serve_window-relaunch erects fp s w j other n can in
    let s1 = started fp u (quiet s j) in
    let d = on_done-file standing mine s1 fp e (some w) there ended in
    let s2 = record s1 { enroll = none } in
    let (v, t') = serve_window-launch true fp s2 w refl (inr refl) in
    rw
      (
        tick-serve_window now erects s fp e w there l,
        t,
        d,
        tick-serve_window later true s2 fp e w there l',
        t',
      )
      (refl, refl, λ m. absurd (ground (arith, fresh s.next m)), refl)
