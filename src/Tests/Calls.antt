-- ===== src/Tests/Calls.antt =====
-- src/core/operation.rs at concrete inputs.
use xssh_rust_lib.Base.{
  ℕ, ◌+◌, ◌<◌, ◌≤◌, ◌⊎◌, Text, codes, true, Option, none, some, ok, err, max, ltb, ◌≡◌, refl, arith,
}
use xssh_rust_lib.Base.Fallible.{map_err}
use xssh_rust_lib.Base.Async.{ready}
use xssh_rust_lib.Error
use xssh_rust_lib.Error.{SshError}
use xssh_rust_lib.Operation.{
  OperationContext, Surroundings, Future, with_timeout_from_now, run, timeout_error,
  cancelled_error,
}
use xssh_rust_lib.Operation.Laws.{
  NotAfter, Before, Limited, with_timeout_from_now_lem, run-ok, run-future, run-timeout,
  run-cancelled,
}
use xssh_rust_lib.Operation.Token.{
  Notify, System, finished, start, wait, swap, wake, waits, swaps, wakes, Reach, begin, next,
}
use xssh_rust_lib.Operation.Token.Wakeup.{cancelled_finishes, finished-cancelled}

abbrev connect : Text
connect = codes "connect"

-- From the instant 10, with a deadline at 20 and a cancellation at 30.
abbrev around : Surroundings
around = record {
  latest = 18446744073709551615;
  now = 10;
  cancelled_at = some 30;
  cancel_first = true;
}

abbrev by_20 : OperationContext
by_20 = record { deadline = some 20 }

abbrev answer_at : Option ℕ → Future SshError ℕ
answer_at instant = record { ready_at = instant; output = ok 1 }

abbrev fault : Future SshError ℕ
fault = record { ready_at = some 5; output = err (Error.channel (codes "closed")) }

run-future_example :
    run around by_20 connect fault
    ≡ ready (map_err (Error.with_operation connect) (err (Error.channel (codes "closed"))))
run-future_example = run-future around by_20 connect fault 10 refl (omega arith) (omega arith)

run-timeout_example :
    run around by_20 connect (answer_at (some 40)) ≡ ready (err (timeout_error connect))
run-timeout_example =
    run-timeout around by_20 connect (answer_at (some 40)) 20 refl (omega arith) (omega arith)

abbrev by_50 : OperationContext
by_50 = record { deadline = some 50 }

run-cancelled_example :
    run around by_50 connect (answer_at (some 40)) ≡ ready (err (cancelled_error connect))
run-cancelled_example =
    run-cancelled around by_50 connect (answer_at (some 40)) 30 refl (omega arith) (omega arith)

answered : run around by_20 connect (answer_at (some 12)) ≡ ready (ok 1)
unfolding run
answered = refl

run-timeout_late :
    run around by_20 connect (answer_at (some 40)) ≡ ready (err (timeout_error connect))
unfolding run
run-timeout_late = refl

run-ok_example :
    ((answer_at (some 12)).output ≡ ok 1)
    × (at : ℕ) × (some 12 ≡ some at)
    × NotAfter (max at 10) (some 20)
    × NotAfter (max at 10) (some 30)
    × Before 10 (some 30)
run-ok_example = run-ok around by_20 connect (answer_at (some 12)) 1 answered

-- Wake-ups by the number of calls of `notify_waiters`.
ltb_suc : (s : ℕ) → ltb s (s + 1) ≡ true
ltb_suc s = ground arith

ltb_later : (s n : ℕ) → ltb n s ≡ true → ltb n (s + 1) ≡ true
ltb_later s n h = ground arith

abbrev counted : Notify
counted = record {
  State = ℕ;
  Notified = ℕ;
  new = 0;
  notified = λ s. s;
  notify_waiters = λ s. s + 1;
  is_woken = λ s n. ltb n s;
  wakes_registered = ltb_suc;
  stays_woken = ltb_later;
}

-- The task is registered when the flag is set, and is then woken.
abbrev asleep : System counted
asleep = wait counted (wait counted (wait counted (start counted)))

asleep-Reach : Reach counted asleep
asleep-Reach = next (next (next begin (waits _)) (waits _)) (waits _)

abbrev through : System counted
through = wake counted (swap counted asleep)

through-Reach : Reach counted through
unfolding swap wait
through-Reach = next (next asleep-Reach (swaps _)) (wakes _ (omega arith))

through_set : through.cancelled ≡ true
unfolding wait swap wake
through_set = refl

through_idle : through.notifying ≡ 0
unfolding wait swap wake
through_idle = refl

abbrev over : System counted
over = wait counted (wait counted (wait counted through))

over-Reach : Reach counted over
over-Reach = next (next (next through-Reach (waits _)) (waits _)) (waits _)

cancelled_finishes_example : (wait counted (wait counted (wait counted through))).waiter ≡ finished
cancelled_finishes_example =
    cancelled_finishes counted through through-Reach through_set through_idle

over_finished : over.waiter ≡ finished
unfolding wait swap wake
over_finished = refl

finished-cancelled_example : over.cancelled ≡ true
finished-cancelled_example = finished-cancelled counted over over-Reach over_finished

with_timeout_from_now_lem_example :
    ((18446744073709551615 < 10 + 18446744073709551615)
      × (with_timeout_from_now around 18446744073709551615 by_20 ≡ none))
    ⊎ ((10 + 18446744073709551615 ≤ 18446744073709551615)
        × Limited by_20
            (10 + 18446744073709551615)
            (with_timeout_from_now around 18446744073709551615 by_20))
with_timeout_from_now_lem_example = with_timeout_from_now_lem around 18446744073709551615 by_20
