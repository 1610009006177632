-- ===== src/Daemon/Freed.antt =====
-- host/src/daemon.rs together with the end of its USB session (host/src/session/mod.rs): the session's
-- task and its workers, and the daemon's own tasks, take steps in any order, and the flag is cleared
-- when `handle_usb_client` has returned.
use ord.Prelude.{ℕ, ◌≤◌, ◌≡◌, ◌↔◌, refl, ap, Bool, true, false, arith}
use ord.Daemon.{Daemon, accepting, Event, usb_session_ends, step, end_usb}
use ord.Daemon.Held.{held, NoEnd, IsHeld, kept, step-IsHeld}
use ord.Session.Shutdown.{closing, finished, receiving, Shutdown, Step, Reach, here, next}
use ord.Session.Shutdown.Backlog.{backlog}
use ord.Session.Shutdown.Ends.{shutdown_ends}

-- The session's task has still to return, or it has and the flag has been cleared.
pub data Together : Type 0 where
  ending : Shutdown → Daemon → Together
  over : Daemon → Together

pub data Move : Together → Together → Type 0 where
  -- the session, or one of its workers
  session : {s t : Shutdown} {d : Daemon} → Step s t → Move (ending s d) (ending t d)
  -- the watcher or the accept loop
  daemon :
      {s : Shutdown} {d : Daemon} (e : Event) → NoEnd e → Move (ending s d) (ending s (step d e))
  -- `handle_usb_client` has returned, and its task clears the flag
  returns :
      {s : Shutdown} {d : Daemon}
      → s.main ≡ finished
      → Move (ending s d) (over (step d usb_session_ends))

pub data Moves (a : Together) : Together → Type 0 where
  none_yet : Moves a a
  further : {b c : Together} → Moves a b → Move b c → Moves a c

-- The flag that the accept loop and the watcher read.
abbrev pub is_active : Together → Bool
is_active (ending s d) = d.session_active
is_active (over d) = d.session_active

-- What holds of a daemon whose USB session began to end in a state.
abbrev IsTraced : ℕ → Shutdown → Together → Type 0
IsTraced tcp s (ending t d) = Reach s t × IsHeld tcp 1 d
IsTraced tcp s (over d) = (t : Shutdown) × Reach s t × (t.main ≡ finished)

Move-IsTraced :
    {a b : Together} (tcp : ℕ) (s : Shutdown) → Move a b → IsTraced tcp s a → IsTraced tcp s b
Move-IsTraced tcp s (session st) (r, h) = (next r st, h)
Move-IsTraced tcp s (daemon {d = d} e no_end) (r, h) = (r, step-IsHeld d e h no_end)
Move-IsTraced tcp s (returns {s = t} f) (r, h) = (t, r, f)

Moves-IsTraced :
    {a b : Together} (tcp : ℕ) (s : Shutdown) → Moves a b → IsTraced tcp s a → IsTraced tcp s b
Moves-IsTraced tcp s none_yet h = h
Moves-IsTraced tcp s (further ms m) h = Move-IsTraced tcp s m (Moves-IsTraced tcp s ms h)

Reach-Moves : {s t : Shutdown} (d : Daemon) → Reach s t → Moves (ending s d) (ending t d)
Reach-Moves d here = none_yet
Reach-Moves d (next r st) = further (Reach-Moves d r) (session st)

traced_free :
    (tcp : ℕ) (s : Shutdown) (b : Together)
    → IsTraced tcp s b
    → is_active b ≡ false
    → (t : Shutdown) × Reach s t × (t.main ≡ finished)
traced_free tcp s (ending t d) (r, h) free =
    let active : d.session_active ≡ true = ap (λ (x : Daemon). x.session_active) h.same in
    absurd (ground (arith, active, free))
traced_free tcp s (over d) ended free = ended

-- Where no TCP session ends meanwhile, a daemon whose USB session stands behind its loop can get to take
-- another session exactly when the packets that the read worker has to send before its next read fit into the
-- channel and the write worker does not wait on an empty one. In the other case the flag stays set for good, whatever
-- connections come and whatever the watcher finds.
pub daemon_freed :
    (s : Shutdown) (cooldown : ℕ) (discovery : Bool) (tcp : ℕ)
    → s.main ≡ closing
    → ((b : Together) × Moves (ending s (held cooldown accepting discovery tcp 1)) b
        × (is_active b ≡ false))
      ↔ ((backlog s.reader ≤ s.in_room) × (¬ ((s.writer ≡ receiving) × (s.out_queue ≡ 0))))
unfolding step end_usb
daemon_freed s cooldown discovery tcp m =
    let d = held cooldown accepting discovery tcp 1 in
    (
      λ (b, ms, free). (shutdown_ends s m).0 (
          traced_free tcp s b (Moves-IsTraced tcp s ms (here, kept cooldown accepting discovery tt))
            free),
      λ able.
          let (t, r, f) = (shutdown_ends s m).1 able in
          (over (step d usb_session_ends), further (Reach-Moves d r) (returns f), refl),
    )
