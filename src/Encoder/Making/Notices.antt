-- ===== src/Encoder/Making/Notices.antt =====
-- Which errors of the pipeline of host/src/encoder/pipeline.rs a session hears of.
use ord.Prelude.{
  ℕ, suc, ◌+◌, ◌≡◌, refl, ap, ◌∙◌, List, [], ◌∷◌, Bool, true, false, if◌then◌else◌, if-true,
  if-false, Bool-cases, inl, inr, arith,
}
use ord.Encoder.Making.{
  BusEvent, gst_error, gst_eos, gst_other, waits, leaves, Notifier, notify_waiters, bus_message,
  on_bus, watch_bus,
}

bus_message-over : (n : Notifier) → n.task_runs ≡ false → bus_message n ≡ n
bus_message-over n off = if-false n.task_runs (notify_waiters n) n off

-- A task that has ended wakes nobody.
over : (es : List BusEvent) (n : Notifier) → n.task_runs ≡ false → (watch_bus n es).woken ≡ n.woken
unfolding watch_bus on_bus
over [] n off = refl
over (gst_error ∷ es) n off =
    ap (λ m. (watch_bus m es).woken) (bus_message-over n off) ∙ over es n off
over (gst_eos ∷ es) n off =
    ap (λ m. (watch_bus m es).woken) (bus_message-over n off) ∙ over es n off
over (gst_other ∷ es) n off = over es n off
over (waits ∷ es) n off = over es (record n { waiting = true }) off
over (leaves ∷ es) n off = over es (record n { waiting = false }) off

away :
    (n : Notifier) (es : List BusEvent)
    → n.task_runs ≡ true
    → n.waiting ≡ false
    → (watch_bus n (gst_error ∷ es)).woken ≡ n.woken
unfolding watch_bus on_bus
away n es runs gone =
    let ended : Notifier = record n { task_runs = false; notices = suc n.notices } in
    ap (λ m. (watch_bus m es).woken)
      (if-true n.task_runs (notify_waiters n) n runs ∙ if-false n.waiting _ ended gone)
    ∙ over es ended refl

present :
    (n : Notifier) (es : List BusEvent)
    → n.task_runs ≡ true
    → n.waiting ≡ true
    → (watch_bus n (gst_error ∷ es)).woken ≡ suc n.woken
unfolding watch_bus on_bus
present n es runs here =
    let ended : Notifier = record {
      task_runs = false;
      waiting = false;
      woken = suc n.woken;
      notices = suc n.notices;
    } in
    ap (λ m. (watch_bus m es).woken)
      (if-true n.task_runs (notify_waiters n) n runs ∙ if-true n.waiting ended _ here)
    ∙ over es ended refl

-- The first error that the bus reports wakes the session exactly once if it waits in `notified` at
-- that moment, and is lost if it does not: nothing that the bus reports later wakes the session.
pub watch_bus_error :
    (n : Notifier) (es : List BusEvent)
    → n.task_runs ≡ true
    → (watch_bus n (gst_error ∷ es)).woken ≡ n.woken + (if n.waiting then 1 else 0)
watch_bus_error n es runs = elim (Bool-cases n.waiting) [
  | inl here ↦ present n es runs here ∙ counted n.waiting n.woken here
  | inr gone ↦ away n es runs gone ∙ uncounted n.waiting n.woken gone
]
  where
    counted : (b : Bool) (k : ℕ) → b ≡ true → suc k ≡ k + (if b then 1 else 0)
    counted b k e = rw e (omega arith)

    uncounted : (b : Bool) (k : ℕ) → b ≡ false → k ≡ k + (if b then 1 else 0)
    uncounted b k e = rw e (omega arith)
