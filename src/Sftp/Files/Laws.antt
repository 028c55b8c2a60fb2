-- ===== src/Sftp/Files/Laws.antt =====
-- src/sftp/client.rs: what an error of an operation on a path tells, and that operations come to an end.
use xssh_rust_lib.Base.{
  ℕ, Text, codes, List, none, some, ok, err, ◌≡◌, ◌⊎◌, inl, inr, refl, arith, sym, subst,
}
use xssh_rust_lib.Base.Async.{Async, Outcome, ready, panics, pending, fail_with, fail_with_outcome}
use xssh_rust_lib.Base.Async.Failing.{Raises, Ends, >>=-Ends, fail_with-Raises, fail_with-Ends}
use xssh_rust_lib.Error
use xssh_rust_lib.Error.{SshError}
use xssh_rust_lib.Error.Kind.{ErrorKind}
use xssh_rust_lib.Operation.{cancelled_error, timeout_error}
use xssh_rust_lib.Operation.Within.Timed.{timed-err, timed-Ends}
use xssh_rust_lib.Operation.Within.Interrupted.{run_with_in-err, run_with_in-ne-pending}
use xssh_rust_lib.Operation.Within.{Environment}
use xssh_rust_lib.Sftp
use xssh_rust_lib.Sftp.{SftpCrate, SftpClient, run_path}
use xssh_rust_lib.Sftp.Failure.{SftpError, from_russh_sftp, kind, operation, path, with_path}
use xssh_rust_lib.Sftp.Files.{
  canonicalize, exists, read, write, open_file, create, open_with_flags, create_dir, read_dir,
  metadata, remove_file, remove_dir, rename,
}

-- How an operation on a path fails: with an error of the server or the crate, of the kind `protocol`
-- and without the name of the operation, or, under that name, because it was cancelled or has timed out.
abbrev pub Reported : {A : Type 0} → Text → Text → Outcome Text A → SftpError → Type 0
Reported name at outcome error =
    (path error ≡ some at)
    × (((shown : Text) × (outcome ≡ ready (err shown))
          × (kind error ≡ some ErrorKind.protocol)
          × (operation error ≡ none))
        ⊎ (((kind error ≡ some ErrorKind.cancelled) ⊎ (kind error ≡ some ErrorKind.timeout))
            × (operation error ≡ some name)))

converted-err :
    {A : Type 0} (outcome : Outcome Text A) {e : SftpError}
    → fail_with_outcome from_russh_sftp outcome ≡ ready (err e)
    → (shown : Text) × (outcome ≡ ready (err shown)) × (from_russh_sftp shown ≡ e)
converted-err (ready (ok a)) h = absurd cc
converted-err (ready (err shown)) h = (shown, refl, ground arith)
converted-err panics h = absurd cc
converted-err pending h = absurd cc

module _ {World Session : Type 0} (environment : Environment World)
    (client : SftpClient Session) where
  run_path-Raises :
      {A : Type 0} (name at : Text) (code : Async World Text A) (world : World)
      → Raises
          (run_path environment client name at (fail_with from_russh_sftp code) world)
          (Reported name at (code world).0)
  unfolding run_path Sftp.run with_path path kind operation cancelled_error timeout_error
      from_russh_sftp Error.from_source Error.new Error.with_path Error.with_operation
      Error.cancelled Error.timeout
  run_path-Raises name at code world =
      fail_with-Raises (with_path at)
        (Sftp.run environment client name (fail_with from_russh_sftp code)) world
        (λ error failed.
          let (limited, _, h) =
            timed-err environment client.operation_timeout client.context _ world failed in
          elim (run_with_in-err environment SftpError.core limited name
            (fail_with from_russh_sftp code) world h) [
              | inl own ↦
                  let (shown, failed, same) = converted-err (code world).0 own in
                  subst (λ t. Reported name at (code world).0 (with_path at t)) same
                    (refl, inl (shown, failed, refl, refl))
              | inr (inl same) ↦
                  subst (λ t. Reported name at (code world).0 (with_path at t)) (sym same)
                    (refl, inr (inl refl, refl))
              | inr (inr same) ↦
                  subst (λ t. Reported name at (code world).0 (with_path at t)) (sym same)
                    (refl, inr (inr refl, refl))
            ])

  -- Every error of an operation on a path carries the path. Either the crate has failed, and the error
  -- is of the kind `protocol` and does not name the operation; or the operation was cancelled or has
  -- timed out, and the error says so and names it.
  pub run_path-err :
      {A : Type 0} (name at : Text) (code : Async World Text A) (world : World) (error : SftpError)
      → (run_path environment client name at (fail_with from_russh_sftp code) world).0
        ≡ ready (err error)
      → Reported name at (code world).0 error
  run_path-err name at code world error h = (run_path-Raises name at code world).raised h

  run_path-Ends :
      {A : Type 0} (name at : Text) (code : Async World SftpError A) (world : World)
      → Ends (run_path environment client name at code world)
  unfolding run_path Sftp.run
  run_path-Ends name at code world =
      fail_with-Ends (with_path at) (Sftp.run environment client name code) world (
        timed-Ends environment client.operation_timeout client.context _ world
          (λ limited deadline set.
            run_with_in-ne-pending environment SftpError.core limited name code world deadline set))

module _ {World Stream : Type 0} (environment : Environment World) (sftp : SftpCrate World Stream)
    (client : SftpClient sftp.Session) where
  -- Every operation on remote files and directories comes to an end, even if the server never answers:
  -- it succeeds, fails or panics, and does not wait for ever.
  pub operations-Ends :
      (at to : Text) (bytes : List ℕ) (flags : sftp.OpenFlags) (world : World)
      → Ends (canonicalize environment sftp client at world)
        × Ends (exists environment sftp client at world)
        × Ends (read environment sftp client at world)
        × Ends (write environment sftp client at bytes world)
        × Ends (open_file environment sftp client at world)
        × Ends (create environment sftp client at world)
        × Ends (open_with_flags environment sftp client at flags world)
        × Ends (create_dir environment sftp client at world)
        × Ends (read_dir environment sftp client at world)
        × Ends (metadata environment sftp client at world)
        × Ends (remove_file environment sftp client at world)
        × Ends (remove_dir environment sftp client at world)
        × Ends (rename environment sftp client at to world)
  unfolding canonicalize exists read write open_file create open_with_flags create_dir read_dir
      metadata remove_file remove_dir rename
  operations-Ends at to bytes flags world = (
    run_path-Ends environment client _ at _ world,
    run_path-Ends environment client _ at _ world,
    run_path-Ends environment client _ at _ world,
    run_path-Ends environment client _ at _ world,
    run_path-Ends environment client _ at _ world,
    run_path-Ends environment client _ at _ world,
    run_path-Ends environment client _ at _ world,
    run_path-Ends environment client _ at _ world,
    >>=-Ends (run_path environment client (codes "read SFTP directory") at _) _ world
        (run_path-Ends environment client _ at _ world) (λ entries s h. cc),
    run_path-Ends environment client _ at _ world,
    run_path-Ends environment client _ at _ world,
    run_path-Ends environment client _ at _ world,
    run_path-Ends environment client _ _ _ world,
  )
