-- ===== src/Files.antt =====
-- The file manager of gui_app/app.py: `safe_path` and the actions that change files.
pub mod System
pub mod Glob
pub mod Rows
pub mod Search
pub mod Tree
pub mod Paths
pub mod Deleting
pub mod Creating
pub mod Copying
use project_linux.Base.{Bool, true, false, List, [], ◌∷◌, ◌++◌, ◌==◌, if◌then◌else◌}
use project_linux.Text.{Str, codes}
use project_linux.Value.{Json, null, text, type_error, runtime_error, get, value_or, as_text}
use project_linux.Value.Exec.{Exec, pure, throw, lift, ◌>>=◌, ◌>>◌}
use project_linux.FilePath.{FilePath, Root, relative, path_of, is_absolute, ◌/◌, parent, show}
use project_linux.Host.{Host, App, system, effect}
use project_linux.Command.{Reply, reply}
use project_linux.Files.System.{FileSystem}

abbrev pub starts_with_tilde : Str → Bool
starts_with_tilde [] = false
starts_with_tilde (c ∷ s) = c == b'~'

abbrev pub joined : FilePath → List Str → FilePath
joined p names = record p { parts = p.parts ++ names }

abbrev pub missing_source : FilePath → Reply
missing_source src = reply false (codes "Nguon khong ton tai: " ++ show src)

module _ (H : Host) (F : FileSystem H) where
  -- What stands for a first part that begins with "~".
  abbrev pub homed : Str → List Str → Exec (App H) FilePath
  homed home rest =
      if starts_with_tilde home then throw runtime_error else pure (joined (path_of home) rest)

  -- `p.expanduser()`: only the first part of a relative path counts.
  unfoldable pub expand : Root → List Str → Exec (App H) FilePath
  expand relative (first ∷ rest) =
      if starts_with_tilde first
      then (do home ← effect H (F.expand_home first); homed home rest)
      else pure (record { root = relative; parts = first ∷ rest })
  expand root parts = pure (record { root = root; parts = parts })

  -- A relative path is one below the project.
  abbrev pub resolved : FilePath → Exec (App H) FilePath
  resolved p = if is_absolute p then pure p else system H (F.resolve (◌/◌ H.root p))

  unfoldable pub safe_path : Json → Exec (App H) FilePath
  unfolding expand
  safe_path value = do
    t ← lift (as_text type_error (value_or value (text (codes "."))))
    p ← expand (path_of t).root (path_of t).parts
    resolved p

  -- `safe_path(data.get(key))`
  unfoldable pub path_arg : Json → Str → Exec (App H) FilePath
  unfolding safe_path
  path_arg data' key = do v ← lift (get data' key null); safe_path v

  unfoldable pub action_file_create_dir : Json → Exec (App H) Reply
  action_file_create_dir data' = do
    path ← path_arg data' (codes "path")
    system H (F.mkdir path)
    pure (reply true (codes "Da tao thu muc: " ++ show path))

  unfoldable pub action_file_create_file : Json → Exec (App H) Reply
  action_file_create_file data' = do
    path ← path_arg data' (codes "path")
    system H (F.mkdir (parent path))
    system H (F.touch path)
    pure (reply true (codes "Da tao file: " ++ show path))

  abbrev pub remove : Bool → FilePath → Exec (App H) (Unit {0})
  remove is_dir path = if is_dir then system H (F.rmtree path) else system H (F.unlink path)

  unfoldable pub action_file_delete : Json → Exec (App H) Reply
  action_file_delete data' = do
    path ← path_arg data' (codes "path")
    found ← system H (H.exists path)
    if found
        then (do
          is_dir ← system H (F.is_dir path)
          remove is_dir path
          pure (reply true (codes "Da xoa: " ++ show path)))
        else pure (reply false (codes "Khong ton tai: " ++ show path))

  abbrev pub copy_one : Bool → FilePath → FilePath → Exec (App H) (Unit {0})
  copy_one is_dir src dst =
      if is_dir
      then system H (F.copytree src dst)
      else (do system H (F.mkdir (parent dst)); system H (F.copy2 src dst))

  unfoldable pub copy_found : FilePath → FilePath → Exec (App H) Reply
  copy_found src dst = do
    is_dir ← system H (F.is_dir src)
    copy_one is_dir src dst
    pure (reply true (codes "Da copy " ++ (show src ++ (codes " -> " ++ show dst))))

  unfoldable pub action_file_copy : Json → Exec (App H) Reply
  unfolding copy_found
  action_file_copy data' = do
    src ← path_arg data' (codes "src")
    dst ← path_arg data' (codes "dst")
    found ← system H (H.exists src)
    if found then copy_found src dst else pure (missing_source src)

  unfoldable pub move_found : FilePath → FilePath → Exec (App H) Reply
  move_found src dst = do
    system H (F.mkdir (parent dst))
    system H (F.move src dst)
    pure (reply true (codes "Da move " ++ (show src ++ (codes " -> " ++ show dst))))

  unfoldable pub action_file_move : Json → Exec (App H) Reply
  unfolding move_found
  action_file_move data' = do
    src ← path_arg data' (codes "src")
    dst ← path_arg data' (codes "dst")
    found ← system H (H.exists src)
    if found then move_found src dst else pure (missing_source src)
