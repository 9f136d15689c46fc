-- ===== src/Files/Deleting.antt =====
-- What `action_file_delete` does to the tree of files.
use project_linux.Base.{◌≡◌, ◌∙◌, ap, Bool, true, false, ◌++◌, if◌then◌else◌}
use project_linux.Text.{codes}
use project_linux.Value.{Json, ok}
use project_linux.Value.Exec.{pure, ◌>>=◌, ◌>>◌}
use project_linux.Value.Ensures.{Ensures, Ensures-ok, continue-Ensures}
use project_linux.FilePath.{FilePath, show}
use project_linux.Host.{Host, App, system}
use project_linux.Command.{Reply, reply}
use project_linux.Files.{path_arg, remove, action_file_delete}
use project_linux.Files.System.{FileSystem}
use project_linux.Files.Tree.{Tree, HasTree, is_there, is_folder, removed}
use project_linux.Files.Paths.{tree_of, path_arg-Looks}

module _ (H : Host) (F : FileSystem H) (T : HasTree H F) where
  abbrev tree : App H → Tree
  tree = tree_of H F T

  remove-removed :
      (d : Bool) (p : FilePath) (s : App H) {u : Unit {0}}
      → is_folder (tree s p) ≡ d
      → (remove H F d p s).0 ≡ ok u
      → tree (remove H F d p s).1 ≡ removed p (tree s)
  remove-removed true p s = T.rmtree_removes p s.world
  remove-removed false p s = T.unlink_removes p s.world

  module _ (data' : Json) (s : App H) where
    -- What the reply `r` of a deletion says of the state behind it.
    abbrev pub Deleted : Reply → App H → Type 0
    Deleted r t =
        (p : FilePath) × ((path_arg H F data' (codes "path") s).0 ≡ ok p)
        × (is_there (tree s p) ≡ r.is_ok)
        × (tree t ≡ (if r.is_ok then removed p (tree s) else tree s))

    found-Deleted :
        (b : Bool) (p : FilePath) (t : App H)
        → (path_arg H F data' (codes "path") s).0 ≡ ok p
        → tree t ≡ tree s
        → is_there (tree s p) ≡ b
        → Ensures Deleted (
            (if b
                then (do
                  is_dir ← system H (F.is_dir p)
                  remove H F is_dir p
                  pure (reply true (codes "Da xoa: " ++ show p)))
                else pure (reply false (codes "Khong ton tai: " ++ show p)))
              t)
    found-Deleted true p t e same there =
        continue-Ensures Deleted (system H (F.is_dir p) t) _ (λ d ed.
          continue-Ensures Deleted (remove H F d p (system H (F.is_dir p) t).1) _ (λ u eu. (
            p,
            e,
            there,
            remove-removed d p (system H (F.is_dir p) t).1
                  (rw (T.is_dir_keeps p t.world) (T.is_dir_tells p t.world ed)) eu
                ∙ ap (removed p) (T.is_dir_keeps p t.world ∙ same),
          )))
    found-Deleted false p t e same there = (p, e, there, same)

    delete-Deleted : Ensures Deleted (action_file_delete H F data' s)
    unfolding action_file_delete
    delete-Deleted = continue-Ensures Deleted (path_arg H F data' (codes "path") s) _ (λ p e.
        let t = (path_arg H F data' (codes "path") s).1 in
        let same = path_arg-Looks H F T data' (codes "path") s in
        continue-Ensures Deleted (system H (H.exists p) t) _ (λ b eb.
          found-Deleted b p (system H (H.exists p) t).1 e (T.exists_keeps p t.world ∙ same)
            (rw (← same) (T.exists_tells p t.world eb))))

    -- Where `file.delete` returns, its reply is `ok` exactly where something stood at the path that
    -- was asked for. Then nothing is left at that path and below it, and all else is as it was; with
    -- any other reply the whole tree of files is as it was.
    pub action_file_delete-Deleted :
        (r : Reply)
        → (action_file_delete H F data' s).0 ≡ ok r
        → Deleted r (action_file_delete H F data' s).1
    action_file_delete-Deleted r =
        Ensures-ok Deleted (action_file_delete H F data' s) delete-Deleted
