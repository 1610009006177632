-- ===== src/Daemon/Timing.antt =====
-- How long the USB watcher of host/src/daemon.rs stays in its states.
use ord.Prelude.{
  ℕ, zero, suc, ◌+◌, ◌-◌, ◌*◌, ◌≤◌, ◌<◌, ◌≡◌, refl, ap, ◌∙◌, List, [], ◌∷◌, true, false, arith,
}
use ord.Daemon.{
  idle, waiting_for_accessory, at_head, looking, scanning, Daemon, Event, wake, accessory_found,
  switch_initiated, step, run,
}

-- Sleeps that end in a poll without an accessory, and sleeps alone.
abbrev pub polls : ℕ → List Event
polls zero = []
polls (suc n) = wake ∷ accessory_found false ∷ polls n

abbrev pub wakes : ℕ → List Event
wakes zero = []
wakes (suc n) = wake ∷ wakes n

poll_once :
    (d : Daemon) (k : ℕ)
    → d.watcher ≡ at_head
    → d.state ≡ waiting_for_accessory (500 * k)
    → k ≤ 15
    → let d' = run d (polls 1) in
      (d'.watcher ≡ at_head) × (d'.state ≡ waiting_for_accessory (500 * suc k))
unfolding run step
poll_once d k w s h = ground arith

poll_last :
    (d : Daemon)
    → d.watcher ≡ at_head
    → d.state ≡ waiting_for_accessory (500 * 16)
    → let d' = run d (polls 1) in
      (d'.watcher ≡ at_head) × (d'.state ≡ idle) × (d'.switch_cooldown_ms ≡ 5000)
unfolding run step
poll_last d w s = ground arith

run-polls : (d : Daemon) (n : ℕ) → run d (polls (suc n)) ≡ run (run d (polls 1)) (polls n)
unfolding run
run-polls d n = refl

poll_on :
    (left k : ℕ) (d : Daemon)
    → left + k ≡ 16
    → d.watcher ≡ at_head
    → d.state ≡ waiting_for_accessory (500 * k)
    → let d' = run d (polls (suc left)) in
      (d'.watcher ≡ at_head) × (d'.state ≡ idle) × (d'.switch_cooldown_ms ≡ 5000)
unfolding run
poll_on zero k d e w s =
    let k-eq : k ≡ 16 = omega arith in
    poll_last d w (s ∙ ap (λ m. waiting_for_accessory (500 * m)) k-eq)
poll_on (suc left) k d e w s =
    let (w', s') = poll_once d k w s (omega arith) in
    poll_on left (suc k) (run d (polls 1)) (omega arith) w' s'

switched :
    (d : Daemon)
    → d.watcher ≡ scanning
    → let d' = step d (switch_initiated true) in
      (d'.watcher ≡ at_head) × (d'.state ≡ waiting_for_accessory (500 * 0))
unfolding step
switched d w = ground arith

-- Once a device was switched, the watcher polls for it 17 times at most, over 8.5 s: if it does not
-- come back by then, the watcher is idle again, with a pause of 5 s before it.
pub waiting_ends :
    (d : Daemon)
    → d.watcher ≡ scanning
    → let d' = run d (switch_initiated true ∷ polls 17) in
      (d'.watcher ≡ at_head) × (d'.state ≡ idle) × (d'.switch_cooldown_ms ≡ 5000)
unfolding run
waiting_ends d w =
    let (w', s') = switched d w in poll_on 16 0 (step d (switch_initiated true)) refl w' s'

cool :
    (d : Daemon)
    → d.watcher ≡ at_head
    → d.state ≡ idle
    → d.session_active ≡ false
    → 0 < d.switch_cooldown_ms
    → step d wake ≡ record d { switch_cooldown_ms = d.switch_cooldown_ms - 500 }
unfolding step
cool d w s f pos = ground arith

look :
    (d : Daemon)
    → d.watcher ≡ at_head
    → d.state ≡ idle
    → d.session_active ≡ false
    → d.switch_cooldown_ms ≤ 0
    → step d wake ≡ record d { switch_cooldown_ms = 0; watcher = looking }
unfolding step
look d w s f z = ground arith

-- Without a session, the pause passes in steps of 500 ms, and after it the watcher looks for a device.
pub cooldown_ends :
    (n : ℕ) (d : Daemon)
    → d.watcher ≡ at_head
    → d.state ≡ idle
    → d.session_active ≡ false
    → d.switch_cooldown_ms ≤ 500 * n
    → 500 * n < d.switch_cooldown_ms + 500
    → run d (wakes (suc n)) ≡ record d { switch_cooldown_ms = 0; watcher = looking }
unfolding run
cooldown_ends zero d w s f h l = look d w s f (omega arith)
cooldown_ends (suc n) d w s f h l =
    let next : Daemon = record d { switch_cooldown_ms = d.switch_cooldown_ms - 500 } in
    ap (λ t. run t (wakes (suc n))) (cool d w s f (omega arith))
    ∙ cooldown_ends n next w s f (omega arith) (omega arith)
