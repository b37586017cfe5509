-- ===== src/Thread/Entry.antt =====
-- When `run` of jni/main/Thread.cpp is entered, among any number of objects: not before `start` of
-- its object.
use vr_admin.Prelude.{ℕ, ◌≡◌, arith}
use vr_admin.Thread.{find_thread, running, Startup, at, Threads, AnySteps, initial}
use vr_admin.Thread.Order.{
  IsOpen, is_absent, is_waiting, IsForeign, IsOrdered, outside, entering, building, open_gate,
  passing, passed,
}
use vr_admin.Thread.Family.{IsInjective, AnySteps-IsOrderly, expected}

-- A point of the creating thread, behind `start`, and what is known there.
pub record Entered (thread_id : ℕ → ℕ) (n : ℕ) (s : Threads) : Type 0 where
  pub opened : IsOpen (s.creators n)
  pub unheld : IsForeign n s.holder
  pub in_map : find_thread (thread_id n) s.registry ≡ expected n (s.creators n)

abbrev IsOpenAt : ℕ → Startup → Type 0
IsOpenAt n (at c w h threads) = w ≡ running → IsOpen c × IsForeign n h

IsOrdered-IsOpenAt : (n : ℕ) {s : Startup} → IsOrdered n s → IsOpenAt n s
IsOrdered-IsOpenAt n (outside f) = λ e. grind arith
IsOrdered-IsOpenAt n entering = λ e. grind arith
IsOrdered-IsOpenAt n (building i is_absent) = λ e. grind arith
IsOrdered-IsOpenAt n (building i is_waiting) = λ e. grind arith
IsOrdered-IsOpenAt n (open_gate o is_absent f) = λ e. grind arith
IsOrdered-IsOpenAt n (open_gate o is_waiting f) = λ e. grind arith
IsOrdered-IsOpenAt n (passing o) = λ e. grind arith
IsOrdered-IsOpenAt n (passed o p f) = λ e. (o, f)

-- However the steps of any number of objects interleave, whose threads have distinct ids: when `run`
-- of an object is entered, `start` of it was called, so it is constructed; neither of its two threads
-- holds the startup mutex; and the map has it under its thread, unless it is destroyed.
pub run-Entered :
    (thread_id : ℕ → ℕ)
    → IsInjective thread_id
    → (n : ℕ) {s : Threads} → AnySteps thread_id initial s
    → s.workers n ≡ running
    → Entered thread_id n s
run-Entered thread_id injective n {s} steps at_run =
    let o = AnySteps-IsOrderly thread_id injective steps in
    let (opened, unheld) = IsOrdered-IsOpenAt n (o.ordered n) at_run in
    record { opened = opened; unheld = unheld; in_map = o.tracked n }
