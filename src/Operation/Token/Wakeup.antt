-- ===== src/Operation/Token/Wakeup.antt =====
-- src/core/operation.rs, `CancellationToken`: when a task that waits in `cancelled` finishes.
use xssh_rust_lib.Base.{
  ℕ, ◌-◌, ◌<◌, Bool, true, false, ◌≡◌, ◌⊎◌, inl, inr, refl, ap, ◌∙◌, arith, if_cases, subst,
}
use xssh_rust_lib.Operation.Token.{
  Notify, Waiter, at_entry, at_loop, registered, awaiting, finished, System, wait, swap, wake, Step,
  waits, swaps, wakes, Reach, begin, next,
}

module _ (notify : Notify) where
  open notify use {State, Notified, notify_waiters, is_woken, wakes_registered, stays_woken}

  -- The next `notify_waiters` wakes it.
  abbrev IsArmed : State → Notified → Type 0
  IsArmed wakeups n = is_woken (notify_waiters wakeups) n ≡ true

  abbrev Inv : Bool → State → ℕ → Waiter notify → Type 0
  Inv cancelled wakeups notifying (registered n) = IsArmed wakeups n
  Inv cancelled wakeups notifying (awaiting n) =
      IsArmed wakeups n × ((is_woken wakeups n ≡ true) ⊎ ((cancelled ≡ false) ⊎ (0 < notifying)))
  Inv cancelled wakeups notifying finished = cancelled ≡ true
  Inv cancelled wakeups notifying _ = Unit

  abbrev Holds : System notify → Type 0
  Holds s = Inv s.cancelled s.wakeups s.notifying s.waiter

  wait-Inv :
      (cancelled : Bool) (wakeups : State) (notifying : ℕ) (w : Waiter notify)
      → Inv cancelled wakeups notifying w
      → Holds (
          wait notify (record {
            cancelled = cancelled;
            wakeups = wakeups;
            notifying = notifying;
            waiter = w;
          }))
  unfolding wait
  wait-Inv cancelled wakeups notifying at_entry i =
      if_cases (Inv cancelled wakeups notifying) cancelled _ _ (λ e. e) (λ e. tt)
  wait-Inv cancelled wakeups notifying at_loop i = wakes_registered wakeups
  wait-Inv true wakeups notifying (registered n) i = refl
  wait-Inv false wakeups notifying (registered n) i = (i, inr (inl refl))
  wait-Inv cancelled wakeups notifying (awaiting n) i =
      if_cases (Inv cancelled wakeups notifying) (is_woken wakeups n) _ _ (λ e. tt) (λ e. i)
  wait-Inv cancelled wakeups notifying finished i = i

  swap-Inv :
      (cancelled : Bool) (wakeups : State) (notifying : ℕ) (w : Waiter notify)
      → Inv cancelled wakeups notifying w
      → Holds (
          swap notify (record {
            cancelled = cancelled;
            wakeups = wakeups;
            notifying = notifying;
            waiter = w;
          }))
  unfolding swap
  swap-Inv true wakeups notifying w i = i
  swap-Inv false wakeups notifying at_entry i = tt
  swap-Inv false wakeups notifying at_loop i = tt
  swap-Inv false wakeups notifying (registered n) i = i
  swap-Inv false wakeups notifying (awaiting n) (armed, _) = (armed, inr (inr (omega arith)))
  swap-Inv false wakeups notifying finished i = refl

  wake-Inv :
      (cancelled : Bool) (wakeups : State) (notifying : ℕ) (w : Waiter notify)
      → Inv cancelled wakeups notifying w
      → Inv cancelled (notify_waiters wakeups) (notifying - 1) w
  wake-Inv cancelled wakeups notifying at_entry i = tt
  wake-Inv cancelled wakeups notifying at_loop i = tt
  wake-Inv cancelled wakeups notifying (registered n) i = stays_woken (notify_waiters wakeups) n i
  wake-Inv cancelled wakeups notifying (awaiting n) (armed, _) =
      (stays_woken (notify_waiters wakeups) n armed, inl armed)
  wake-Inv cancelled wakeups notifying finished i = i

  Step-Holds : {s t : System notify} → Step notify s t → Holds s → Holds t
  Step-Holds (waits s) i = wait-Inv s.cancelled s.wakeups s.notifying s.waiter i
  Step-Holds (swaps s) i = swap-Inv s.cancelled s.wakeups s.notifying s.waiter i
  Step-Holds (wakes s _) i = unfold wake in wake-Inv s.cancelled s.wakeups s.notifying s.waiter i

  Reach-Holds : {s : System notify} → Reach notify s → Holds s
  Reach-Holds begin = tt
  Reach-Holds (next r step) = Step-Holds step (Reach-Holds r)

  abbrev wait_thrice : System notify → System notify
  wait_thrice s = wait notify (wait notify (wait notify s))

  -- The flag set and all calls of `cancel` through, three steps are enough from anywhere.
  finishes :
      (wakeups : State) (w : Waiter notify)
      → Inv true wakeups 0 w
      → (wait_thrice
          (record { cancelled = true; wakeups = wakeups; notifying = 0; waiter = w })).waiter
        ≡ finished
  unfolding wait
  finishes wakeups at_entry i = refl
  finishes wakeups at_loop i = refl
  finishes wakeups (registered n) i = refl
  finishes wakeups (awaiting n) (armed, why) = ground arith
  finishes wakeups finished i = refl

  -- However the steps of the task and of the calls of `cancel` interleave: once the flag is set and
  -- each call that set it has notified, three more steps of the waiting task finish it.
  pub cancelled_finishes :
      (s : System notify)
      → Reach notify s
      → s.cancelled ≡ true
      → s.notifying ≡ 0
      → (wait notify (wait notify (wait notify s))).waiter ≡ finished
  cancelled_finishes s r set through =
      let holds =
        subst (λ k. Inv true s.wakeups k s.waiter) through
          (subst (λ b. Inv b s.wakeups s.notifying s.waiter) set (Reach-Holds r)) in
      ap (λ t. (wait_thrice t).waiter) (λ i. record s { cancelled = set i; notifying = through i })
      ∙ finishes s.wakeups s.waiter holds

  -- A task leaves `cancelled` only after some call of `cancel` has set the flag.
  pub finished-cancelled :
      (s : System notify) → Reach notify s → s.waiter ≡ finished → s.cancelled ≡ true
  finished-cancelled s r done = subst (Inv s.cancelled s.wakeups s.notifying) done (Reach-Holds r)
