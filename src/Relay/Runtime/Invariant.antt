-- ===== src/Relay/Runtime/Invariant.antt =====
-- src/core/relay.rs: permits and counters of the runtime, whatever the interleaving of its tasks.
use xssh_rust_lib.Base.{
  inr, sym, subst, inl, ◌⊎◌, ℕ, suc, ◌+◌, ◌%◌, ◌≤◌, ◌<◌, List, [], ◌∷◌, ◌++◌, Option, length,
  length-append, nat_eq, not, ◌&&◌, ◌==◌, ◌-◌, if◌then◌else◌, ◌≡◌, refl, ap, ◌∙◌, arith,
}
use xssh_rust_lib.Relay.Policy.{IpAddr, allows}
use xssh_rust_lib.Relay.Target.{ForwardingRelayOptions}
use xssh_rust_lib.Relay.Stats.{
  u64_modulus, start_connection, drop_guard, record_completed, record_read, local_to_remote,
  remote_to_local,
}
use xssh_rust_lib.Relay.Runtime.{
  LoopPhase, waiting, counted, refusing, Phase, spawned, running, stopped, recorded, unwound,
  Runtime, count_peer, admit, reject_peer, finish_dispatch, dispatch, Step, counts, decides,
  refuses, starts, reads, stops, unwinds, records, releases, releases_unwound, Reach, begin, next,
}

-- Tasks between `start_connection` and the drop of its guard.
abbrev pub count_running : List Phase → ℕ
count_running [] = 0
count_running (running ∷ tasks) = suc (count_running tasks)
count_running (spawned ∷ tasks) = count_running tasks
count_running (stopped _ ∷ tasks) = count_running tasks
count_running (recorded ∷ tasks) = count_running tasks
count_running (unwound ∷ tasks) = count_running tasks

-- Tasks that may still count themselves as completed.
abbrev pub count_unfinished : List Phase → ℕ
count_unfinished [] = 0
count_unfinished (recorded ∷ tasks) = count_unfinished tasks
count_unfinished (unwound ∷ tasks) = count_unfinished tasks
count_unfinished (spawned ∷ tasks) = suc (count_unfinished tasks)
count_unfinished (running ∷ tasks) = suc (count_unfinished tasks)
count_unfinished (stopped _ ∷ tasks) = suc (count_unfinished tasks)

count_running-append :
    (xs ys : List Phase) → count_running (xs ++ ys) ≡ count_running xs + count_running ys
count_running-append [] ys = omega arith
count_running-append (spawned ∷ xs) ys = count_running-append xs ys
count_running-append (running ∷ xs) ys = omega (arith, count_running-append xs ys)
count_running-append (stopped _ ∷ xs) ys = count_running-append xs ys
count_running-append (recorded ∷ xs) ys = count_running-append xs ys
count_running-append (unwound ∷ xs) ys = count_running-append xs ys

count_unfinished-append :
    (xs ys : List Phase) → count_unfinished (xs ++ ys) ≡ count_unfinished xs + count_unfinished ys
count_unfinished-append [] ys = omega arith
count_unfinished-append (spawned ∷ xs) ys = omega (arith, count_unfinished-append xs ys)
count_unfinished-append (running ∷ xs) ys = omega (arith, count_unfinished-append xs ys)
count_unfinished-append (stopped _ ∷ xs) ys = omega (arith, count_unfinished-append xs ys)
count_unfinished-append (recorded ∷ xs) ys = count_unfinished-append xs ys
count_unfinished-append (unwound ∷ xs) ys = count_unfinished-append xs ys

count_running-le : (xs : List Phase) → count_running xs ≤ length xs
count_running-le [] = omega arith
count_running-le (spawned ∷ xs) = omega (arith, count_running-le xs)
count_running-le (running ∷ xs) = omega (arith, count_running-le xs)
count_running-le (stopped _ ∷ xs) = omega (arith, count_running-le xs)
count_running-le (recorded ∷ xs) = omega (arith, count_running-le xs)
count_running-le (unwound ∷ xs) = omega (arith, count_running-le xs)

-- Peers that were counted as accepted and are not yet admitted or counted as rejected.
abbrev undecided : LoopPhase → ℕ
undecided waiting = 0
undecided (counted _) = 1
undecided refusing = 1

pub record Inv (options : ForwardingRelayOptions) (s : Runtime) : Type 0 where
  pub permits_held : s.permits + length s.tasks ≡ options.max_connections
  pub active_counted : s.stats.active_connections ≡ count_running s.tasks % u64_modulus
  pub accepted_counted :
      s.stats.accepted_connections
      ≡ (s.stats.rejected_connections
          + s.stats.completed_connections
          + count_unfinished s.tasks
          + s.unwound_tasks
          + undecided s.loop)
        % u64_modulus

-- What a step does to the lists of tasks around the one that moves.
sums :
    (before after : List Phase) (p : Phase) (tasks : List Phase)
    → tasks ≡ before ++ p ∷ after
    → (length tasks ≡ length before + length (p ∷ after))
      × (count_running tasks ≡ count_running before + count_running (p ∷ after))
      × (count_unfinished tasks ≡ count_unfinished before + count_unfinished (p ∷ after))
sums before after p tasks e = (
  ap length e ∙ length-append before (p ∷ after),
  ap count_running e ∙ count_running-append before (p ∷ after),
  ap count_unfinished e ∙ count_unfinished-append before (p ∷ after),
)

module _ (options : ForwardingRelayOptions) where
  admit-Inv :
      (peer_ip : Option IpAddr) (s : Runtime)
      → s.loop ≡ counted peer_ip
      → Inv options s
      → Inv options (admit options peer_ip s)
  unfolding admit
  admit-Inv peer_ip s here i =
      ground (arith, ap undecided here, sums s.tasks [] spawned (s.tasks ++ spawned ∷ []) refl)

  Step-Inv : {s t : Runtime} → Step options s t → Inv options s → Inv options t
  unfolding count_peer reject_peer start_connection drop_guard record_completed record_read
  Step-Inv {s} (counts peer_ip here) i = omega (arith, ap undecided here)
  Step-Inv {s} (decides peer_ip here) i = admit-Inv peer_ip s here i
  Step-Inv {s} (refuses here) i = omega (arith, ap undecided here)
  Step-Inv {s} (starts before after e) i =
      omega (arith, sums before after spawned s.tasks e, sums before after running _ refl)
  Step-Inv {s} (reads before after local_to_remote bytes e) i = record {
    permits_held = i.permits_held;
    active_counted = i.active_counted;
    accepted_counted = i.accepted_counted;
  }
  Step-Inv {s} (reads before after remote_to_local bytes e) i = record {
    permits_held = i.permits_held;
    active_counted = i.active_counted;
    accepted_counted = i.accepted_counted;
  }
  Step-Inv {s} (stops before after result e) i =
      omega (arith, sums before after running s.tasks e, sums before after (stopped result) _ refl)
  Step-Inv {s} (unwinds before after e) i =
      omega (arith, sums before after running s.tasks e, sums before after unwound _ refl)
  Step-Inv {s} (records before after result e) i =
      omega (arith, sums before after (stopped result) s.tasks e, sums before after recorded _ refl)
  Step-Inv {s} (releases before after e) i = omega (
    arith,
    sums before after recorded s.tasks e,
    length-append before after,
    count_running-append before after,
    count_unfinished-append before after,
  )
  Step-Inv {s} (releases_unwound before after e) i = omega (
    arith,
    sums before after unwound s.tasks e,
    length-append before after,
    count_running-append before after,
    count_unfinished-append before after,
  )

  Reach-Inv : {now : ℕ} {s : Runtime} → Reach now options s → Inv options s
  Reach-Inv begin = omega arith
  Reach-Inv (next r step) = Step-Inv step (Reach-Inv r)

  -- Where `max_connections` fits in 64 bits, in every reachable state the tasks and the free permits
  -- make up `max_connections`, the counter of active connections is the number of tasks that relay,
  -- and it is at most `max_connections`.
  pub Reach-bounded :
      (now : ℕ) (s : Runtime)
      → Reach now options s
      → options.max_connections < u64_modulus
      → (s.permits + length s.tasks ≡ options.max_connections)
        × (s.stats.active_connections ≡ count_running s.tasks)
        × (s.stats.active_connections ≤ options.max_connections)
  Reach-bounded now s r h = let i = Reach-Inv r in omega (arith, i, count_running-le s.tasks)

  -- Once the loop waits and no task is left every permit is back, no connection counts as active, and
  -- the accepted ones are those that were counted as rejected, those that were counted as completed and
  -- those whose task has panicked, modulo the width of the counters.
  pub Reach-idle :
      (now : ℕ) (s : Runtime)
      → Reach now options s
      → s.loop ≡ waiting
      → s.tasks ≡ []
      → (s.permits ≡ options.max_connections)
        × (s.stats.active_connections ≡ 0)
        × (s.stats.accepted_connections
            ≡ (s.stats.rejected_connections + s.stats.completed_connections + s.unwound_tasks)
              % u64_modulus)
  Reach-idle now s r waits idle =
      let i = Reach-Inv r in
      omega (
        arith,
        i,
        ap undecided waits,
        ap length idle,
        ap count_running idle,
        ap count_unfinished idle,
      )

  admit-loop :
      (peer_ip : Option IpAddr) (s : Runtime)
      → ((admit options peer_ip s).loop ≡ refusing) ⊎ ((admit options peer_ip s).loop ≡ waiting)
  unfolding admit
  admit-loop peer_ip s = ground arith

  -- A dispatch is a run of the loop's steps, after which the loop waits again.
  pub dispatch-Reach :
      (now : ℕ) (peer_ip : Option IpAddr) (s : Runtime)
      → s.loop ≡ waiting
      → Reach now options s
      → Reach now options (dispatch options peer_ip s)
        × ((dispatch options peer_ip s).loop ≡ waiting)
  unfolding dispatch count_peer
  dispatch-Reach now peer_ip s waits reached =
      let decided = admit options peer_ip (count_peer peer_ip s) in
      let on = next (next reached (counts peer_ip waits)) (decides peer_ip refl) in
      elim (admit-loop peer_ip (count_peer peer_ip s)) [
        | inl refused ↦
            subst
              (λ phase.
                Reach now options (finish_dispatch phase decided)
                × ((finish_dispatch phase decided).loop ≡ waiting))
              (sym refused) (next on (refuses refused), refl)
        | inr admitted ↦
            subst
              (λ phase.
                Reach now options (finish_dispatch phase decided)
                × ((finish_dispatch phase decided).loop ≡ waiting))
              (sym admitted) (on, admitted)
      ]

  -- A peer that the policy refuses, and any peer when no permit is free, is counted as accepted and
  -- as rejected, and starts no task; any other takes one permit and starts one.
  dispatch_lem :
      (peer_ip : Option IpAddr) (s : Runtime)
      → let admitted = allows options.access_policy peer_ip && not (s.permits == 0) in
        let t = dispatch options peer_ip s in
        (t.stats.accepted_connections ≡ (s.stats.accepted_connections + 1) % u64_modulus)
        × (t.stats.rejected_connections ≡ (
            if admitted
            then s.stats.rejected_connections
            else (s.stats.rejected_connections + 1) % u64_modulus))
        × (t.tasks ≡ (if admitted then s.tasks ++ spawned ∷ [] else s.tasks))
        × (t.permits ≡ (if admitted then s.permits - 1 else s.permits))
  unfolding dispatch count_peer admit reject_peer
  dispatch_lem peer_ip s = ground arith
