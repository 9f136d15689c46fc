-- ===== src/Files/Search/Looking.antt =====
-- The searches find their base and their paths without a change of the tree.
use project_linux.Base.{[], ◌∷◌, ◌≡◌, refl}
use project_linux.Text.{codes}
use project_linux.Value.{Json, text, null, get, value_or}
use project_linux.Value.Exec.{pure}
use project_linux.FilePath.{FilePath}
use project_linux.Host.{Host, system}
use project_linux.Files.System.{FileSystem}
use project_linux.Files.Tree.{HasTree}
use project_linux.Files.Paths.{Looks, if-Looks, lift-Looks, bind-Looks, safe_path-Looks}
use project_linux.Files.Search.{base_arg, paths_of, searched_paths}

module _ (H : Host) (F : FileSystem H) (T : HasTree H F) where
  pub base_arg-Looks : (data' : Json) → Looks H F T (base_arg H F data')
  base_arg-Looks data' =
      lift-Looks H F T (get data' (codes "base") null) _
        (λ v. safe_path-Looks H F T (value_or v (text (codes "."))))

  pub searched_paths-Looks :
      (rglob_keeps : (p : FilePath) (w : H.World) → T.tree (F.rglob p w).1 ≡ T.tree w)
      (base : FilePath)
      → Looks H F T (searched_paths H F base)
  unfolding searched_paths
  searched_paths-Looks rglob_keeps base =
      bind-Looks H F T (system H (F.is_dir base)) (paths_of H F base)
        (λ s. T.is_dir_keeps base s.world)
        (λ b.
          if-Looks H F T b (system H (F.rglob base)) (pure (base ∷ []))
            (λ s. rglob_keeps base s.world) (λ s. refl))
