-- ===== src/Files/Search.antt =====
-- `action_file_find_name` and `action_file_find_content` of gui_app/app.py.
pub mod SortedNames
pub mod NameRows
pub mod Texts
pub mod Hits
pub mod Looking
pub mod Names
pub mod Contents
use project_linux.Base.{
  ℕ, Bool, true, false, Option, none, some, List, [], ◌∷◌, ◌++◌, take, if◌then◌else◌,
}
use project_linux.Text.{Str, codes}
use project_linux.Text.Lines.{splitlines}
use project_linux.Value.{
  Json, null, text, Exception, os_error, file_not_found, process_lookup_error, get, truthy,
  value_or,
}
use project_linux.Value.Exec.{Exec, pure, lift, try_except, ◌>>=◌}
use project_linux.FilePath.{FilePath}
use project_linux.Table.{table}
use project_linux.Host.{Host, App, system, effect}
use project_linux.Command.{Reply, reply}
use project_linux.Files.{safe_path}
use project_linux.Files.System.{FileSystem, Walked}
use project_linux.Files.Rows.{in_dir, sorted_set, name_rows, line_rows}

-- `rows[:300]`
abbrev pub most_rows : ℕ
most_rows = 300

abbrev pub found_rows : List Str → Reply
found_rows rows = reply true (table (take most_rows rows))

module _ (H : Host) (F : FileSystem H) where
  -- `[name for name in names if (Path(dirpath) / name).is_dir()]`
  unfoldable pub only_dirs : Str → List Str → Exec (App H) (List Str)
  only_dirs dirpath [] = pure []
  only_dirs dirpath (n ∷ ns) = do
    is_dir ← system H (F.is_dir (in_dir dirpath n))
    rest ← only_dirs dirpath ns
    pure (if is_dir then n ∷ rest else rest)

  -- One round of the walk.
  unfoldable pub visit : Json → Walked → Exec (App H) (List Str)
  unfolding only_dirs
  visit pat dir = do
    listed ← system H (F.listdir dir.dirpath)
    dirs ← only_dirs dir.dirpath listed
    lift (name_rows pat dir.dirpath (sorted_set (dir.files ++ dirs)))

  unfoldable pub visit_all : Json → List Walked → Exec (App H) (List Str)
  visit_all pat [] = pure []
  visit_all pat (dir ∷ dirs) = do
    rows ← visit pat dir
    rest ← visit_all pat dirs
    pure (rows ++ rest)

  -- `safe_path(data.get("base") or ".")`
  abbrev pub base_arg : Json → Exec (App H) FilePath
  base_arg data' = do
    v ← lift (get data' (codes "base") null)
    safe_path H F (value_or v (text (codes ".")))

  unfoldable pub action_file_find_name : Json → Exec (App H) Reply
  unfolding visit visit_all
  action_file_find_name data' = do
    base ← base_arg data'
    v ← lift (get data' (codes "pattern") null)
    dirs ← effect H (F.walk base)
    rows ← visit_all (value_or v (text (codes "*"))) dirs
    pure (found_rows rows)

  -- `except OSError: pass`
  abbrev pub skipped : Exception → Option (Exec (App H) (List Str))
  skipped (os_error errno message) = some (pure [])
  skipped (file_not_found message) = some (pure [])
  skipped process_lookup_error = some (pure [])
  skipped _ = none

  -- One round of the loop over the paths, for a file.
  unfoldable pub read_rows : Json → FilePath → Exec (App H) (List Str)
  read_rows keyword path =
      try_except
        (do t ← system H (F.read_text path); lift (line_rows keyword path 1 (splitlines t))) skipped

  unfoldable pub search_file : Json → FilePath → Exec (App H) (List Str)
  unfolding read_rows
  search_file keyword path = do
    is_file ← system H (F.is_file path)
    if is_file then read_rows keyword path else pure []

  unfoldable pub search_all : Json → List FilePath → Exec (App H) (List Str)
  search_all keyword [] = pure []
  search_all keyword (path ∷ paths) = do
    rows ← search_file keyword path
    rest ← search_all keyword paths
    pure (rows ++ rest)

  -- `base.rglob("*") if base.is_dir() else [base]`
  abbrev pub paths_of : FilePath → Bool → Exec (App H) (List FilePath)
  paths_of base is_dir = if is_dir then system H (F.rglob base) else pure (base ∷ [])

  -- The paths that the loop goes through.
  unfoldable pub searched_paths : FilePath → Exec (App H) (List FilePath)
  searched_paths base = do is_dir ← system H (F.is_dir base); paths_of base is_dir

  abbrev pub search_from : FilePath → Json → Exec (App H) Reply
  search_from base keyword = do
    paths ← searched_paths base
    rows ← search_all keyword paths
    pure (found_rows rows)

  unfoldable pub action_file_find_content : Json → Exec (App H) Reply
  unfolding searched_paths search_file search_all
  action_file_find_content data' = do
    base ← base_arg data'
    v ← lift (get data' (codes "keyword") null)
    let keyword = value_or v (text [])
    if truthy keyword
        then search_from base keyword
        else pure (reply false (codes "Nhap keyword truoc."))
