-- ===== src/Enroll/Window.antt =====
-- The accept loop of `EnrollServer`, `_serve` and `_handle` of enroll.py, over the list of what each
-- round of it meets.
use greasewood.Base.{
  ℕ, zero, suc, ◌≤◌, ◌≡◌, ◌≢◌, refl, Bool, true, false, Option, none, some, List, [], ◌∷◌,
  if◌then◌else◌, arith,
}
use greasewood.Errors.{ok, err}
use greasewood.Wire.Crypto.{Crypto}
use greasewood.Wire.Record.{NodeRecord}
use greasewood.Ca.Defs.{Config, CaState}
use greasewood.Enroll.Defs.{
  Window, Request, Install, refused, raised, granted, validate_request, issue_and_install,
  receive_first_record,
}

-- A connection: its request, none where it cannot be received; what `set_peer` does; whether
-- the replies can be sent; and the record that comes last.
pub record Connection : Type 0 where
  pub now : ℕ
  pub request : Option Request
  pub install : Install
  pub sent : Bool
  pub first_record : Option NodeRecord

-- A round of the loop: `accept` times out; the stop flag is set, or the socket closed; the deadline has
-- passed; or there is a connection.
pub data Event : Type 0 where
  idle stopped expired : Event
  connected : Connection → Event

-- Why the window is closed, if it is.
pub data End : Type 0 where
  still_open superseded timed_out enrolled attempts_exhausted : End

module _ ⦃C : Crypto⦄ (cfg : Config) (win : Window) where
  -- `_handle`, with what the loop makes of its exceptions: whether the enrollment succeeded
  unfoldable pub handle : Connection → CaState → Bool × CaState
  unfolding validate_request issue_and_install receive_first_record
  handle c st = elim c.request [
    | none ↦ (false, st)
    | some req ↦ elim (validate_request win req) [
      | err _ ↦ (false, st)
      | ok j ↦
          let (got, st') = issue_and_install cfg win c.now c.install j st in
          elim got [
            | refused ↦ (false, st')
            | raised ↦ (false, st')
            | granted cred ↦
                if c.sent
                then (true, receive_first_record cfg c.now c.first_record st')
                else (false, st')
          ]
    ]
  ]

  -- The loop of `_serve`, with the attempts left
  unfoldable pub serve_loop : ℕ → List Event → CaState → End × CaState
  unfolding handle
  serve_loop zero events st = (attempts_exhausted, st)
  serve_loop (suc left) [] st = (still_open, st)
  serve_loop (suc left) (idle ∷ events) st = serve_loop (suc left) events st
  serve_loop (suc left) (stopped ∷ events) st = (superseded, st)
  serve_loop (suc left) (expired ∷ events) st =
      let rest = serve_loop (suc left) events st in if win.standing then rest else (timed_out, st)
  serve_loop (suc left) (connected c ∷ events) st =
      let (success, st') = handle c st in
      let again = serve_loop (suc left) events st' in
      let fewer = serve_loop left events st' in
      if win.standing then again else if success then (enrolled, st') else fewer

  -- `_serve`; a window without attempts is closed as it is opened
  unfoldable pub serve : List Event → CaState → End × CaState
  unfolding serve_loop
  serve events st = elim win.max_attempts [
    | zero ↦ (superseded, st)
    | suc n ↦ serve_loop (suc n) events st
  ]

  abbrev pub connections : List Event → ℕ
  connections [] = 0
  connections (connected c ∷ events) = suc (connections events)
  connections (idle ∷ events) = connections events
  connections (stopped ∷ events) = connections events
  connections (expired ∷ events) = connections events

  serve_loop_ends :
      (left : ℕ) (events : List Event) (st : CaState)
      → win.standing ≡ false
      → left ≤ connections events
      → (serve_loop left events st).0 ≢ still_open
  unfolding serve_loop
  serve_loop_ends zero events st s h e = cc
  serve_loop_ends (suc left) [] st s h e = absurd (omega arith)
  serve_loop_ends (suc left) (idle ∷ events) st s h e = serve_loop_ends (suc left) events st s h e
  serve_loop_ends (suc left) (stopped ∷ events) st s h e = cc
  serve_loop_ends (suc left) (expired ∷ events) st s h e = ground arith
  serve_loop_ends (suc left) (connected c ∷ events) st s h e =
      ground (arith, serve_loop_ends left events (handle c st).1)

  -- A window that is not standing closes: after as many connections as it has attempts it is open no
  -- more, whatever they ask and however they fail.
  pub serve_ends :
      (events : List Event) (st : CaState)
      → win.standing ≡ false
      → win.max_attempts ≤ connections events
      → (serve events st).0 ≢ still_open
  unfolding serve
  serve_ends events st s h e = on win.max_attempts refl
    where
      on : (n : ℕ) → win.max_attempts ≡ n → ⊥
      on zero p = ground arith
      on (suc n) p = serve_loop_ends (suc n) events st s (omega arith) (rw p at e)
