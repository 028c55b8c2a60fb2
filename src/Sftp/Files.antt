-- ===== src/Sftp/Files.antt =====
-- src/sftp/client.rs: the operations on remote files and directories.
pub mod Laws
use xssh_rust_lib.Base.{ℕ, Text, codes, Bool, List, ◌++◌, map}
use xssh_rust_lib.Base.Async.{Async, pure, fail_with, ◌>>=◌}
use xssh_rust_lib.Operation.Within.{Environment}
use xssh_rust_lib.Session.Transport.{Transport}
use xssh_rust_lib.Sftp.{SftpCrate, SftpClient, run_path}
use xssh_rust_lib.Sftp.Failure.{SftpError, from_russh_sftp}

-- src/sftp/types.rs
pub record RemoteDirEntry (Metadata : Type 0) : Type 0 where
  pub name : Text
  pub metadata : Metadata

module _ {World Stream : Type 0} (environment : Environment World) (sftp : SftpCrate World Stream)
    (client : SftpClient sftp.Session) where
  -- An operation on a path: a call of the crate with its errors converted.
  abbrev on_path : {A : Type 0} → Text → Text → Async World Text A → Async World SftpError A
  on_path operation path code =
      run_path environment client operation path (fail_with from_russh_sftp code)

  unfoldable pub canonicalize : Text → Async World SftpError Text
  unfolding run_path
  canonicalize path =
      on_path (codes "canonicalize SFTP path") path (sftp.canonicalize client.inner path)

  unfoldable pub exists : Text → Async World SftpError Bool
  unfolding run_path
  exists path = on_path (codes "check SFTP path existence") path (sftp.try_exists client.inner path)

  unfoldable pub read : Text → Async World SftpError (List ℕ)
  unfolding run_path
  read path = on_path (codes "read SFTP file") path (sftp.read client.inner path)

  unfoldable pub write : Text → List ℕ → Async World SftpError (Unit {0})
  unfolding run_path
  write path bytes = on_path (codes "write SFTP file") path (sftp.write client.inner path bytes)

  unfoldable pub open_file : Text → Async World SftpError sftp.File
  unfolding run_path
  open_file path = on_path (codes "open SFTP file") path (sftp.open_file client.inner path)

  unfoldable pub create : Text → Async World SftpError sftp.File
  unfolding run_path
  create path = on_path (codes "create SFTP file") path (sftp.create client.inner path)

  unfoldable pub open_with_flags : Text → sftp.OpenFlags → Async World SftpError sftp.File
  unfolding run_path
  open_with_flags path flags =
      on_path (codes "open SFTP file with flags") path
        (sftp.open_with_flags client.inner path flags)

  unfoldable pub create_dir : Text → Async World SftpError (Unit {0})
  unfolding run_path
  create_dir path = on_path (codes "create SFTP directory") path (sftp.create_dir client.inner path)

  unfoldable pub metadata : Text → Async World SftpError sftp.Metadata
  unfolding run_path
  metadata path = on_path (codes "read SFTP metadata") path (sftp.metadata client.inner path)

  unfoldable pub remove_file : Text → Async World SftpError (Unit {0})
  unfolding run_path
  remove_file path = on_path (codes "remove SFTP file") path (sftp.remove_file client.inner path)

  unfoldable pub remove_dir : Text → Async World SftpError (Unit {0})
  unfolding run_path
  remove_dir path = on_path (codes "remove SFTP directory") path (sftp.remove_dir client.inner path)

  unfoldable pub read_dir : Text → Async World SftpError (List (RemoteDirEntry sftp.Metadata))
  unfolding run_path
  read_dir path = do
    entries ← on_path (codes "read SFTP directory") path (sftp.read_dir client.inner path)
    pure (map (λ entry. record { name = entry.0; metadata = entry.1 }) entries)

  unfoldable pub rename : Text → Text → Async World SftpError (Unit {0})
  unfolding run_path
  rename old_path new_path =
      on_path (codes "rename SFTP path") (old_path ++ (codes " -> " ++ new_path))
        (sftp.rename client.inner old_path new_path)
