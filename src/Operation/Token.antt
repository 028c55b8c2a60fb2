-- ===== src/Operation/Token.antt =====
-- src/core/operation.rs: `CancellationToken`, as interleavings of a task that waits in `cancelled`
-- with any number of calls of `cancel`. Each step is one atomic access of the shared state.
pub mod Wakeup
use xssh_rust_lib.Base.{ℕ, zero, suc, ◌+◌, ◌-◌, ◌<◌, Bool, true, false, ◌≡◌, if◌then◌else◌}

-- `tokio::sync::Notify`, as far as the token uses it: `notified` registers when it is called, and
-- `notify_waiters` wakes everything registered before it, for good.
pub record Notify : Type 1 where
  pub State : Type 0
  pub Notified : Type 0
  pub new : State
  pub notified : State → Notified
  pub notify_waiters : State → State
  pub is_woken : State → Notified → Bool
  pub wakes_registered : (s : State) → is_woken (notify_waiters s) (notified s) ≡ true
  pub stays_woken :
      (s : State) (n : Notified) → is_woken s n ≡ true → is_woken (notify_waiters s) n ≡ true

module _ (notify : Notify) where
  open notify use {State, Notified, notified, notify_waiters, is_woken}

  -- Where a task stands in `cancelled`.
  pub data Waiter : Type 0 where
    at_entry : Waiter
    at_loop : Waiter
    registered : Notified → Waiter
    awaiting : Notified → Waiter
    finished : Waiter

  -- `cancelled` is the flag. Some callers of `cancel` have found it unset and not yet notified.
  pub record System : Type 0 where
    pub cancelled : Bool
    pub wakeups : State
    pub notifying : ℕ
    pub waiter : Waiter

  abbrev pub start : System
  start = record { cancelled = false; wakeups = notify.new; notifying = 0; waiter = at_entry }

  advance : Bool → State → Waiter → Waiter
  advance cancelled wakeups at_entry = if cancelled then finished else at_loop
  advance cancelled wakeups at_loop = registered (notified wakeups)
  advance cancelled wakeups (registered n) = if cancelled then finished else awaiting n
  advance cancelled wakeups (awaiting n) = if is_woken wakeups n then at_loop else awaiting n
  advance cancelled wakeups finished = finished

  -- One step of `cancelled`; at an `await` that is not woken it changes nothing.
  unfoldable pub wait : System → System
  unfolding advance
  wait s = record s { waiter = advance s.cancelled s.wakeups s.waiter }

  -- The swap of `cancel`.
  unfoldable pub swap : System → System
  swap s = if s.cancelled then s else record s { cancelled = true; notifying = s.notifying + 1 }

  -- The call of `notify_waiters` by a caller whose swap found the flag unset.
  unfoldable pub wake : System → System
  wake s = record s { wakeups = notify_waiters s.wakeups; notifying = s.notifying - 1 }

  pub data Step : System → System → Type 0 where
    waits : (s : System) → Step s (wait s)
    swaps : (s : System) → Step s (swap s)
    wakes : (s : System) → 0 < s.notifying → Step s (wake s)

  pub data Reach : System → Type 0 where
    begin : Reach start
    next : {s t : System} → Reach s → Step s t → Reach t
