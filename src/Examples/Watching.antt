-- ===== src/Examples/Watching.antt =====
-- A single-use window is superseded by a standing one while its server runs.
use greasewood.Base.{
  ℕ, ◌<◌, ◌≡◌, ◌==◌, refl, true, false, none, some, [], ◌∷◌, list_eq, nat_eq, option_eq, arith, Has,
  inl, inr, codes,
}
use native.Mathlib.Decide.{ℕ_discrete}
use greasewood.Enroll.Watcher.{DoorWindow, parsed, Watcher, live, tick, on_done}
use greasewood.Enroll.Watching.{superseded-on_done}

abbrev standing_door : DoorWindow
standing_door = record { standing = true; expires = none; has_door_keys = true }

abbrev serving_old : Watcher
serving_old = record {
  enroll = some 4;
  window_fp = some (codes "old");
  file = parsed (codes "new") none (some standing_door);
  door_up = true;
  next = 5;
  stopped = 3 ∷ [];
}

other_window : (some (codes "new") == serving_old.window_fp) ≡ false
unfolding ℕ_discrete option_eq list_eq
other_window = refl

always_live : (now : ℕ) → live now standing_door ≡ true
unfolding live
always_live now = refl

other_session : (none == some (codes "17:00")) ≡ false
unfolding ℕ_discrete option_eq list_eq
other_session = refl

numbered : (i : ℕ) → Has i (4 ∷ 3 ∷ []) → i < 5
numbered i (inl e) = omega arith
numbered i (inr (inl e)) = omega arith
numbered i (inr (inr m)) = absurd m

superseded-on_done_example :
    ((tick 100 false serving_old).enroll ≡ some 5)
    × ((on_done false (some (codes "17:00")) (tick 100 false serving_old)).enroll ≡ none)
    × ¬ Has 5 (on_done false (some (codes "17:00")) (tick 100 false serving_old)).stopped
    × ((tick 105 true (on_done false (some (codes "17:00")) (tick 100 false serving_old))).enroll
        ≡ some 6)
superseded-on_done_example =
    superseded-on_done 100 105 false serving_old (codes "new") none (some (codes "17:00")) false
      standing_door 4 refl refl other_window numbered (always_live 100) (always_live 105) (inl refl)
      (inr other_session)
