-- ===== src/Files/Copying.antt =====
-- What `action_file_copy` and `action_file_move` do to the tree of files.
use mathlib.Core.Path.{subst}
use project_linux.Base.{◌≡◌, refl, sym, ◌∙◌, ap, Bool, true, false, if◌then◌else◌}
use project_linux.Text.{codes}
use project_linux.Value.{Json, ok}
use project_linux.Value.Exec.{Exec, pure, ◌>>=◌}
use project_linux.Value.Ensures.{Ensures, Ensures-ok, continue-ok, continue-Ensures}
use project_linux.FilePath.{FilePath, is_under, is_plain, parent}
use project_linux.Host.{Host, App, system}
use project_linux.Command.{Reply}
use project_linux.Files.{path_arg, missing_source, move_found, action_file_move}
use project_linux.Files.System.{FileSystem}
use project_linux.Files.Tree.{
  Tree, HasTree, is_there, is_folder, made, target, copied_file, copied_tree, moved,
}
use project_linux.Files.Paths.{tree_of, path_arg-Looks}

-- The tree after a copy, and after a move; the folders above the destination are made first.
abbrev pub copied : FilePath → FilePath → Tree → Tree
copied src dst t =
    if is_folder (t src) then copied_tree src dst t else copied_file src dst (made (parent dst) t)

abbrev pub moved_to : FilePath → FilePath → Tree → Tree
moved_to src dst t = moved src dst (made (parent dst) t)

module _ (H : Host) (F : FileSystem H) (T : HasTree H F) where
  abbrev tree : App H → Tree
  tree = tree_of H F T

  module _ (data' : Json) (s : App H) (src dst : FilePath)
      (from : (path_arg H F data' (codes "src") s).0 ≡ ok src)
      (to : (path_arg H F data' (codes "dst") (path_arg H F data' (codes "src") s).1).0
        ≡ ok dst) where
    abbrev asked : App H
    asked = (path_arg H F data' (codes "dst") (path_arg H F data' (codes "src") s).1).1

    asked_same : tree asked ≡ tree s
    asked_same =
        path_arg-Looks H F T data' (codes "dst") (path_arg H F data' (codes "src") s).1
        ∙ path_arg-Looks H F T data' (codes "src") s

    -- The reply `r` is `ok` exactly where something stands at the source, and then the tree is `f` of
    -- what it was; else it is as it was.
    abbrev pub Transferred : (Tree → Tree) → Reply → App H → Type 0
    Transferred f r t =
        (is_there (tree s src) ≡ r.is_ok) × (tree t ≡ (if r.is_ok then f (tree s) else tree s))

    looked_same :
        (b : Bool)
        → (system H (H.exists src) asked).0 ≡ ok b
        → (tree (system H (H.exists src) asked).1 ≡ tree s) × (is_there (tree s src) ≡ b)
    looked_same b e = (
      T.exists_keeps src asked.world ∙ asked_same,
      rw (← asked_same) (T.exists_tells src asked.world e),
    )

    -- What the two actions share: the paths, and the question for the source.
    abbrev transfer : (FilePath → FilePath → Exec (App H) Reply) → Exec (App H) Reply
    transfer work = do
      src ← path_arg H F data' (codes "src")
      dst ← path_arg H F data' (codes "dst")
      found ← system H (H.exists src)
      if found then work src dst else pure (missing_source src)

    found-Transferred :
        (f : Tree → Tree) (work : Exec (App H) Reply) (b : Bool) (t : App H)
        → tree t ≡ tree s
        → is_there (tree s src) ≡ b
        → (b ≡ true → Ensures (Transferred f) (work t))
        → Ensures (Transferred f) ((if b then work else pure (missing_source src)) t)
    found-Transferred f work true t same there h = h refl
    found-Transferred f work false t same there h = (there, same)

    transfer-Transferred :
        (f : Tree → Tree) (work : FilePath → FilePath → Exec (App H) Reply)
        → ((t : App H)
            → tree t ≡ tree s
            → is_there (tree s src) ≡ true
            → Ensures (Transferred f) (work src dst t))
        → Ensures (Transferred f) (transfer work s)
    transfer-Transferred f work h =
        let x = path_arg H F data' (codes "src") s in
        let y = path_arg H F data' (codes "dst") x.1 in
        let reached = continue-ok x _ from ∙ continue-ok y _ to in
        subst (λ z. Ensures (Transferred f) z) (sym reached)
          (continue-Ensures (Transferred f) (system H (H.exists src) asked) _ (λ b e.
            let (same, there) = looked_same b e in
            found-Transferred f (work src dst) b (system H (H.exists src) asked).1 same there
              (λ yes_b. h _ same (there ∙ yes_b))))

    move_found-Transferred :
        is_plain src ≡ true
        → is_plain dst ≡ true
        → is_under src (target src dst (made (parent dst) (tree s))) ≡ false
        → (t : App H) → tree t ≡ tree s
        → is_there (tree s src) ≡ true
        → Ensures (Transferred (moved_to src dst)) (move_found H F src dst t)
    unfolding move_found
    move_found-Transferred plain_src plain_dst apart t same there =
        let Q = Transferred (moved_to src dst) in
        continue-Ensures Q (system H (F.mkdir (parent dst)) t) _ (λ u eu.
          let v = (system H (F.mkdir (parent dst)) t).1 in
          let made_so = T.mkdir_makes (parent dst) t.world eu ∙ ap (made (parent dst)) same in
          continue-Ensures Q (system H (F.move src dst) v) _ (λ w ew. (
            there,
            T.move_moves src dst v.world plain_src plain_dst (rw made_so apart) ew
                ∙ ap (moved src dst) made_so,
          )))

    move-Transferred :
        is_plain src ≡ true
        → is_plain dst ≡ true
        → is_under src (target src dst (made (parent dst) (tree s))) ≡ false
        → Ensures (Transferred (moved_to src dst)) (action_file_move H F data' s)
    unfolding action_file_move
    move-Transferred plain_src plain_dst apart =
        transfer-Transferred (moved_to src dst) (move_found H F)
          (move_found-Transferred plain_src plain_dst apart)

    -- For two paths without "..", a target that is not the source or under it, and where `file.move` returns: its
    -- reply is `ok` exactly where something stands at the source. Then all that was at the source and below it is at
    -- the target, which is the destination, or in it under the name of the source where the destination is a folder
    -- when the folders above it have been made; nothing is left at the source. The folders above the destination that
    -- were missing are there, and all else is as it was. With any other reply the whole tree of files is as it was.
    pub action_file_move-Transferred :
        (r : Reply)
        → is_plain src ≡ true
        → is_plain dst ≡ true
        → is_under src (target src dst (made (parent dst) (tree s))) ≡ false
        → (action_file_move H F data' s).0 ≡ ok r
        → Transferred (moved_to src dst) r (action_file_move H F data' s).1
    action_file_move-Transferred r plain_src plain_dst apart =
        Ensures-ok (Transferred (moved_to src dst)) _ (move-Transferred plain_src plain_dst apart)
