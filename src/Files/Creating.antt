-- ===== src/Files/Creating.antt =====
-- What `action_file_create_dir` and `action_file_create_file` do to the tree of files.
use project_linux.Base.{◌≡◌, ◌∙◌, ap, true, some, ◌++◌}
use project_linux.Text.{codes}
use project_linux.Value.{Json, ok}
use project_linux.Value.Ensures.{Ensures, Ensures-ok, continue-Ensures, continue-ok}
use project_linux.FilePath.{FilePath, parent, show}
use project_linux.Host.{Host, App, system}
use project_linux.Command.{Reply, reply}
use project_linux.Files.{path_arg, action_file_create_dir, action_file_create_file}
use project_linux.Files.System.{FileSystem}
use project_linux.Files.Tree.{Tree, Entry, folder, HasTree, made, touched}
use project_linux.Files.Paths.{tree_of, path_arg-Looks}

-- An empty file, with the folders above it.
abbrev pub created_file : FilePath → Tree → Tree
created_file p t = touched p (made (parent p) t)

module _ (H : Host) (F : FileSystem H) (T : HasTree H F) (data' : Json) (s : App H) where
  abbrev tree : App H → Tree
  tree = tree_of H F T

  -- The action has made `f p` of the tree, at the path `p` that was asked for.
  abbrev pub Created : (FilePath → Tree → Tree) → Reply → App H → Type 0
  Created f r t =
      (p : FilePath) × ((path_arg H F data' (codes "path") s).0 ≡ ok p) × (tree t ≡ f p (tree s))

  dir-Created : Ensures (Created made) (action_file_create_dir H F data' s)
  unfolding action_file_create_dir
  dir-Created = continue-Ensures (Created made) (path_arg H F data' (codes "path") s) _ (λ p e.
      let t = (path_arg H F data' (codes "path") s).1 in
      let same = path_arg-Looks H F T data' (codes "path") s in
      continue-Ensures (Created made) (system H (F.mkdir p) t) _
        (λ u eu. (p, e, T.mkdir_makes p t.world eu ∙ ap (made p) same)))

  file-Created : Ensures (Created created_file) (action_file_create_file H F data' s)
  unfolding action_file_create_file
  file-Created =
      continue-Ensures (Created created_file) (path_arg H F data' (codes "path") s) _ (λ p e.
        let t = (path_arg H F data' (codes "path") s).1 in
        let same = path_arg-Looks H F T data' (codes "path") s in
        continue-Ensures (Created created_file) (system H (F.mkdir (parent p)) t) _ (λ u eu.
          let v = (system H (F.mkdir (parent p)) t).1 in
          continue-Ensures (Created created_file) (system H (F.touch p) v) _ (λ w ew. (
            p,
            e,
            T.touch_makes p v.world ew
                ∙ ap (touched p) (T.mkdir_makes (parent p) t.world eu ∙ ap (made (parent p)) same),
          ))))

  -- Where `file.create_dir` returns, the tree has folders at the path that was asked for and above it wherever
  -- nothing stood; whatever was there before is there as it was.
  pub action_file_create_dir-Created :
      (r : Reply)
      → (action_file_create_dir H F data' s).0 ≡ ok r
      → Created made r (action_file_create_dir H F data' s).1
  action_file_create_dir-Created r =
      Ensures-ok (Created made) (action_file_create_dir H F data' s) dir-Created

  -- Where `file.create_file` returns, something stands at the path that was asked for, an empty file where nothing
  -- stood, and folders above it wherever nothing stood; whatever was there before is there as it was.
  pub action_file_create_file-Created :
      (r : Reply)
      → (action_file_create_file H F data' s).0 ≡ ok r
      → Created created_file r (action_file_create_file H F data' s).1
  action_file_create_file-Created r =
      Ensures-ok (Created created_file) (action_file_create_file H F data' s) file-Created

  made-there : (p q : FilePath) (t : Tree) {e : Entry} → t q ≡ some e → made p t q ≡ some e
  unfolding made
  made-there p q t h = rw h

  touched-there : (p q : FilePath) (t : Tree) {e : Entry} → t q ≡ some e → touched p t q ≡ some e
  unfolding touched
  touched-there p q t h = rw h

  file_reply :
      (p : FilePath) {u v : Unit {0}}
      → (path_arg H F data' (codes "path") s).0 ≡ ok p
      → (F.mkdir (parent p) (path_arg H F data' (codes "path") s).1.world).0 ≡ ok u
      → (F.touch p (F.mkdir (parent p) (path_arg H F data' (codes "path") s).1.world).1).0 ≡ ok v
      → (action_file_create_file H F data' s).0 ≡ ok (reply true (codes "Da tao file: " ++ show p))
  unfolding action_file_create_file
  file_reply p e em et =
      let t = (path_arg H F data' (codes "path") s).1 in
      let w = (system H (F.mkdir (parent p)) t).1 in
      ap (λ x. x.0)
        (continue-ok (path_arg H F data' (codes "path") s) _ e
          ∙ continue-ok (system H (F.mkdir (parent p)) t) _ em
          ∙ continue-ok (system H (F.touch p) w) _ et)

  -- Where a folder stands at the path that was asked for, and the calls on the file system succeed,
  -- `file.create_file` replies with `ok` that it has created the file, and the folder is still there:
  -- there is no file.
  pub action_file_create_file_on_folder :
      (p : FilePath) {u v : Unit {0}}
      → (path_arg H F data' (codes "path") s).0 ≡ ok p
      → tree s p ≡ some folder
      → (F.mkdir (parent p) (path_arg H F data' (codes "path") s).1.world).0 ≡ ok u
      → (F.touch p (F.mkdir (parent p) (path_arg H F data' (codes "path") s).1.world).1).0 ≡ ok v
      → ((action_file_create_file H F data' s).0
          ≡ ok (reply true (codes "Da tao file: " ++ show p)))
        × (tree (action_file_create_file H F data' s).1 p ≡ some folder)
  action_file_create_file_on_folder p e there em et =
      let done = file_reply p e em et in
      let (q, _, made_so) = action_file_create_file-Created _ done in
      (
        done,
        ap (λ t. t p) made_so
            ∙ touched-there q p (made (parent q) (tree s)) (made-there (parent q) p (tree s) there),
      )
