-- ===== src/Tests/Threads.antt =====
-- Starts of two threads of jni/main/Thread.cpp at the same time.
use vr_admin.Prelude.{ℕ, ◌≡◌, refl, [], ◌∷◌, arith}
use vr_admin.Thread.{
  Registry, find_thread, insert_thread, erase_thread, lock, create, register, construct, start,
  entry_lock, entry_unlock, enter_run, running, Threads, AnySteps, stay, after, pick, initial,
}
use vr_admin.Thread.Family.{IsInjective}
use vr_admin.Thread.Entry.{Entered, run-Entered}
use vr_admin.Thread.Progress.{BelowSteps, below, begin, more, IsInevitable, waiting-IsInevitable}
use vr_admin.Thread.Nested.{begin as nothing_more, Waits, nested-Waits}

abbrev threads : Registry
threads = (1, 10) ∷ []

program : Unit {0}
unfolding find_thread insert_thread erase_thread
program = tt

insert_thread-threads : insert_thread 2 20 threads ≡ (1, 10) ∷ (2, 20) ∷ []
unfolding program
insert_thread-threads = refl

abbrev thread_id : ℕ → ℕ
thread_id n = n

thread_id-IsInjective : IsInjective thread_id
thread_id-IsInjective n m e = e

-- The object 1 is constructed, and 2 is started; then the thread of 1 waits, and that of 2 runs.
abbrev Interleaved : Threads → Type 0
Interleaved s = AnySteps thread_id initial s

one_constructed : (s : Threads) × Interleaved s
one_constructed = (
  _,
  after (after (after (after stay (pick 1 lock)) (pick 1 create)) (pick 1 register))
      (pick 1 construct),
)

two_started : (s : Threads) × Interleaved s
unfolding one_constructed
two_started = (
  _,
  after
      (after
        (after (after (after (one_constructed.1) (pick 1 start)) (pick 2 lock)) (pick 2 create))
        (pick 2 register))
      (pick 2 construct),
)

two_runs : (s : Threads) × Interleaved s
unfolding two_started one_constructed
two_runs = (
  _,
  after
      (after (after (after two_started.1 (pick 2 start)) (pick 2 entry_lock)) (pick 2 entry_unlock))
      (pick 2 enter_run),
)

run-Entered_example : Entered thread_id 2 two_runs.0
unfolding two_runs two_started one_constructed
run-Entered_example = run-Entered thread_id thread_id-IsInjective 2 two_runs.1 refl

-- Of three objects, the thread of 1 waits while 2 is being constructed.
one_waits : (s : Threads) × BelowSteps thread_id 3 initial s
one_waits = (
  _,
  more
      (more
        (more
          (more
            (more (more (more begin (below 1 (omega arith) lock)) (below 1 (omega arith) create))
              (below 1 (omega arith) register))
            (below 1 (omega arith) construct))
          (below 1 (omega arith) start))
        (below 2 (omega arith) lock))
      (below 2 (omega arith) create),
)

waiting-IsInevitable_example : IsInevitable thread_id 3 (λ t. t.workers 1 ≡ running) one_waits.0
unfolding one_waits
waiting-IsInevitable_example =
    waiting-IsInevitable thread_id 3 thread_id-IsInjective 1 (omega arith) one_waits.1 refl

-- The thread that constructed the object 1 constructs 2 before it starts 1.
nested-Waits_example : Waits thread_id 1 2 one_constructed.0 one_constructed.0
unfolding one_constructed
nested-Waits_example =
    nested-Waits thread_id thread_id-IsInjective 1 2 one_constructed.1 refl refl nothing_more
