-- ===== src/Daemon/Held.antt =====
-- The daemon of host/src/daemon.rs while a USB session does not end.
use ord.Prelude.{ℕ, ◌≡◌, refl, sym, ap, subst, List, [], ◌∷◌, Bool, true, false, All}
use ord.Daemon.{
  Daemon, connected, at_head, AcceptPoint, accepting, claiming, stopped, Event, wake,
  accessory_found, switch_initiated, connection, accept_error, claim, tcp_session_ends,
  usb_session_ends, ctrl_c, step, run, on_wake, on_found, on_switched, on_connection, on_claim,
  on_ctrl_c, at_loop_head,
}

-- A USB session is running, behind which the watcher waits; the accept loop is not about to set the
-- flag.
abbrev pub held : ℕ → AcceptPoint → Bool → ℕ → ℕ → Daemon
held cooldown acceptor discovery tcp usb = record {
  session_active = true;
  state = connected;
  switch_cooldown_ms = cooldown;
  watcher = at_head;
  acceptor = acceptor;
  discovery = discovery;
  tcp_sessions = tcp;
  usb_sessions = usb;
}

-- Any event but the end of a session.
abbrev pub NoEnd : Event → Type 0
NoEnd tcp_session_ends = ⊥
NoEnd usb_session_ends = ⊥
NoEnd _ = Unit

abbrev pub NotClaiming : AcceptPoint → Type 0
NotClaiming claiming = ⊥
NotClaiming _ = Unit

-- The daemon is held, with these numbers of sessions.
pub record IsHeld (tcp usb : ℕ) (d : Daemon) : Type 0 where
  pub cooldown : ℕ
  pub acceptor : AcceptPoint
  pub discovery : Bool
  pub same : d ≡ held cooldown acceptor discovery tcp usb
  pub open_still : NotClaiming acceptor

pub kept :
    {tcp usb : ℕ} (cooldown : ℕ) (a : AcceptPoint) (discovery : Bool)
    → NotClaiming a
    → IsHeld tcp usb (held cooldown a discovery tcp usb)
kept cooldown a discovery n = record {
  cooldown = cooldown;
  acceptor = a;
  discovery = discovery;
  same = refl;
  open_still = n;
}

-- No event but the end of a session frees a daemon that is held.
step-held :
    (cooldown : ℕ) (a : AcceptPoint) (discovery : Bool) (tcp usb : ℕ) (e : Event)
    → NotClaiming a
    → NoEnd e
    → IsHeld tcp usb (step (held cooldown a discovery tcp usb) e)
unfolding step on_wake at_loop_head on_found on_switched on_connection on_claim on_ctrl_c
step-held c accepting b tcp usb ctrl_c n h = kept c stopped false tt
step-held c stopped b tcp usb ctrl_c n h = kept c stopped b tt
step-held c claiming b tcp usb e n h = absurd n
step-held c a b tcp usb tcp_session_ends n h = absurd h
step-held c a b tcp usb usb_session_ends n h = absurd h
step-held c a b tcp usb wake n h = kept c a b n
step-held c a b tcp usb (accessory_found f) n h = kept c a b n
step-held c a b tcp usb (switch_initiated f) n h = kept c a b n
step-held c accepting b tcp usb connection n h = kept c accepting b n
step-held c stopped b tcp usb connection n h = kept c stopped b n
step-held c a b tcp usb accept_error n h = kept c a b n
step-held c accepting b tcp usb claim n h = kept c accepting b n
step-held c stopped b tcp usb claim n h = kept c stopped b n

pub step-IsHeld :
    {tcp usb : ℕ} (d : Daemon) (e : Event) → IsHeld tcp usb d → NoEnd e → IsHeld tcp usb (step d e)
step-IsHeld {tcp} {usb} d e h no_end =
    subst (λ x. IsHeld tcp usb (step x e)) (sym h.same)
      (step-held h.cooldown h.acceptor h.discovery tcp usb e h.open_still no_end)

run-IsHeld :
    (es : List Event) (d : Daemon) (tcp usb : ℕ)
    → All NoEnd es
    → IsHeld tcp usb d
    → IsHeld tcp usb (run d es)
unfolding run
run-IsHeld [] d tcp usb no_end h = h
run-IsHeld (e ∷ es) d tcp usb no_end h =
    run-IsHeld es (step d e) tcp usb no_end.1 (step-IsHeld d e h no_end.0)

-- As long as no session ends, a daemon with a USB session takes nobody else: whatever connections
-- come and whatever the watcher finds, the flag stays set and the numbers of sessions stay the same.
pub run-held :
    (es : List Event) (cooldown : ℕ) (discovery : Bool) (tcp usb : ℕ)
    → All NoEnd es
    → let d = run (held cooldown accepting discovery tcp usb) es in
      (d.session_active ≡ true) × (d.tcp_sessions ≡ tcp) × (d.usb_sessions ≡ usb)
run-held es cooldown discovery tcp usb no_end =
    let h =
      run-IsHeld es (held cooldown accepting discovery tcp usb) tcp usb no_end
        (kept cooldown accepting discovery tt) in
    (
      ap (λ (d : Daemon). d.session_active) h.same,
      ap (λ (d : Daemon). d.tcp_sessions) h.same,
      ap (λ (d : Daemon). d.usb_sessions) h.same,
    )
