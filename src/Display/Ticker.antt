-- ===== src/Display/Ticker.antt =====
-- host/src/display/ticker.rs: the process that makes the compositor repaint. Which files exist, and the
-- process that `spawn` gives, are arguments.
use ord.Prelude.{ℕ, List, [], ◌∷◌, Bool, Option, none, some, if◌then◌else◌}
use Prim.Native.String.{String}

pub record FrameTicker : Type 0 where
  pub process : Option ℕ  -- its PID

unfoldable pub driver_path : (String → Bool) → String
driver_path exists =
    if exists "./host/ord-display-driver"
    then "./host/ord-display-driver"
    else if exists "./ord-display-driver"
    then "./ord-display-driver"
    else "/tmp/ord-display-driver"

-- `FrameTicker::start`; a process that cannot be started is none.
unfoldable pub start_ticker : (String → Bool) → (String → Option ℕ) → FrameTicker
unfolding driver_path
start_ticker exists spawn = record { process = spawn (driver_path exists) }

pub data ProcessCall : Type 0 where
  kill wait : ℕ → ProcessCall

abbrev pub killed : Option ℕ → List ProcessCall
killed none = []
killed (some pid) = kill pid ∷ wait pid ∷ []

-- `drop`
unfoldable pub drop_ticker : FrameTicker → List ProcessCall
drop_ticker t = killed t.process
