-- ===== src/Files/Search/Names.antt =====
-- What `action_file_find_name` finds.
use mathlib.Core.List.Memᴰ
use mathlib.Core.Path.{subst}
use project_linux.Base.{
  ◌≡◌, refl, sym, ◌∙◌, ◌⊎◌, inl, inr, ◌↔◌, true, List, [], ◌∷◌, ◌++◌, map, keep, keep_sound,
  keep_complete, Memᴰ,
}
use project_linux.Text.{Str, codes}
use project_linux.Value.{Json, text, null, get, value_or, ok}
use project_linux.Value.Ensures.{Ensures, Ensures-ok, continue-Ensures, then-Ensures, Ensures-map}
use project_linux.FilePath.{FilePath, show}
use project_linux.Host.{Host, App, system, effect}
use project_linux.Command.{Reply}
use project_linux.Files.System.{FileSystem, Walked}
use project_linux.Files.Tree.{Tree, HasTree, is_folder}
use project_linux.Files.Glob.{fnmatch}
use project_linux.Files.Rows.{sorted_set, in_dir, name_rows}
use project_linux.Files.Search.SortedNames.{sorted_set_sound, sorted_set_complete}
use project_linux.Files.Search.NameRows.{name_rows_lem}
use project_linux.Files.Search.Looking.{base_arg-Looks}
use project_linux.Files.Paths.{tree_of}
use project_linux.Files.Search.{
  only_dirs, visit, visit_all, base_arg, found_rows, action_file_find_name,
}

-- What the file system lists: `names_in` of a tree are the names in a directory. The calls only look.
pub record HasNames (H : Host) (F : FileSystem H) (T : HasTree H F) : Type 0 where
  pub names_in : Tree → Str → List Str
  pub listdir_tells :
      (dirpath : Str) (w : H.World) {names : List Str}
      → (F.listdir dirpath w).0 ≡ ok names
      → names ≡ names_in (T.tree w) dirpath
  pub listdir_keeps : (dirpath : Str) (w : H.World) → T.tree (F.listdir dirpath w).1 ≡ T.tree w
  pub walk_keeps : (base : FilePath) (w : H.World) → T.tree (F.walk base w).1 ≡ T.tree w

module _ (H : Host) (F : FileSystem H) (T : HasTree H F) (N : HasNames H F T) where
  abbrev tree : App H → Tree
  tree = tree_of H F T

  -- The state has the tree `t`, and a list is `expected`.
  abbrev Gives : Tree → List Str → List Str → App H → Type 0
  Gives t expected got s = (got ≡ expected) × (tree s ≡ t)

  only_dirs-Gives :
      (dirpath : Str) (ns : List Str) (t : Tree) (s : App H)
      → tree s ≡ t
      → Ensures
          (Gives t (keep (λ n. is_folder (t (in_dir dirpath n))) ns))
          (only_dirs H F dirpath ns s)
  unfolding only_dirs
  only_dirs-Gives dirpath [] t s same = (refl, same)
  only_dirs-Gives dirpath (n ∷ ns) t s same =
      let at = in_dir dirpath n in
      let Q = Gives t (keep (λ m. is_folder (t (in_dir dirpath m))) (n ∷ ns)) in
      let P = Gives t (keep (λ m. is_folder (t (in_dir dirpath m))) ns) in
      continue-Ensures Q (system H (F.is_dir at) s) _ (λ b eb.
        let u = (system H (F.is_dir at) s).1 in
        let told : is_folder (t at) ≡ b = rw (← same) (T.is_dir_tells at s.world eb) in
        then-Ensures P Q (only_dirs H F dirpath ns u) _
          (only_dirs-Gives dirpath ns t u (T.is_dir_keeps at s.world ∙ same))
          (λ got v (e, now). (rw (e, told) refl, now)))

  module _ (p : Str) where
    -- The rows of one directory of the walk.
    abbrev dir_rows : Tree → Walked → List Str
    dir_rows t dir =
        map (λ n. show (in_dir dir.dirpath n))
          (keep (λ n. fnmatch n p)
            (sorted_set (
              dir.files
              ++ keep (λ n. is_folder (t (in_dir dir.dirpath n))) (N.names_in t dir.dirpath))))

    abbrev all_rows : Tree → List Walked → List Str
    all_rows t [] = []
    all_rows t (dir ∷ dirs) = dir_rows t dir ++ all_rows t dirs

    matched-Gives :
        (dir : Walked) (t : Tree) (listed got : List Str) (s : App H)
        → listed ≡ N.names_in t dir.dirpath
        → got ≡ keep (λ n. is_folder (t (in_dir dir.dirpath n))) listed
        → tree s ≡ t
        → Ensures
            (Gives t (dir_rows t dir))
            (name_rows (text p) dir.dirpath (sorted_set (dir.files ++ got)), s)
    matched-Gives dir t listed got s names e now =
        rw (name_rows_lem p dir.dirpath (sorted_set (dir.files ++ got)), e, names) (refl, now)

    visit-Gives :
        (dir : Walked) (t : Tree) (s : App H)
        → tree s ≡ t
        → Ensures (Gives t (dir_rows t dir)) (visit H F (text p) dir s)
    unfolding visit
    visit-Gives dir t s same =
        let Q = Gives t (dir_rows t dir) in
        continue-Ensures Q (system H (F.listdir dir.dirpath) s) _ (λ listed el.
          let u = (system H (F.listdir dir.dirpath) s).1 in
          let names : listed ≡ N.names_in t dir.dirpath =
            rw (← same) (N.listdir_tells dir.dirpath s.world el) in
          then-Ensures (Gives t (keep (λ n. is_folder (t (in_dir dir.dirpath n))) listed)) Q
            (only_dirs H F dir.dirpath listed u) _
            (only_dirs-Gives dir.dirpath listed t u (N.listdir_keeps dir.dirpath s.world ∙ same))
            (λ got v (e, now). matched-Gives dir t listed got v names e now))

    visit_all-Gives :
        (dirs : List Walked) (t : Tree) (s : App H)
        → tree s ≡ t
        → Ensures (Gives t (all_rows t dirs)) (visit_all H F (text p) dirs s)
    unfolding visit_all
    visit_all-Gives [] t s same = (refl, same)
    visit_all-Gives (dir ∷ dirs) t s same =
        let Q = Gives t (all_rows t (dir ∷ dirs)) in
        then-Ensures (Gives t (dir_rows t dir)) Q (visit H F (text p) dir s) _
          (visit-Gives dir t s same)
          (λ rows u (e, now).
            then-Ensures (Gives t (all_rows t dirs)) Q (visit_all H F (text p) dirs u) _
              (visit_all-Gives dirs t u now) (λ rest v (f, later). (rw (e, f) refl, later)))

    -- A row for the name `n` of a directory.
    abbrev pub Row : Tree → Walked → Str → Str → Type 0
    Row t dir n row =
        (Memᴰ n dir.files
          ⊎ (Memᴰ n (N.names_in t dir.dirpath) × (is_folder (t (in_dir dir.dirpath n)) ≡ true)))
        × (fnmatch n p ≡ true)
        × (row ≡ show (in_dir dir.dirpath n))

    -- What a search in the directories `dirs` has to find.
    abbrev pub Found : Tree → List Walked → Str → Type 0
    Found t dirs row = (dir : Walked) × (n : Str) × Memᴰ dir dirs × Row t dir n row

    -- The reply shows at most 300 rows of a list that holds exactly what is to be found.
    abbrev pub Lists : Tree → List Walked → Reply → Type 0
    Lists t dirs r =
        (rows : List Str) × (r ≡ found_rows rows) × ((row : Str) → Memᴰ row rows ↔ Found t dirs row)

    dir_rows_sound :
        (t : Tree) (dir : Walked) (row : Str)
        → Memᴰ row (dir_rows t dir)
        → (n : Str) × Row t dir n row
    dir_rows_sound t dir row m =
        let (n, kept, e) = Memᴰ.of_map (λ n. show (in_dir dir.dirpath n)) _ m in
        let (listed, matches) = keep_sound (λ n. fnmatch n p) _ kept in
        elim (Memᴰ.append_cases dir.files (sorted_set_sound _ listed)) [
          | inl h ↦ (n, (inl h, matches, sym e))
          | inr h ↦ (
            n,
            (inr (keep_sound (λ n. is_folder (t (in_dir dir.dirpath n))) _ h), matches, sym e),
          )
        ]

    dir_rows_complete :
        (t : Tree) (dir : Walked) (n row : Str) → Row t dir n row → Memᴰ row (dir_rows t dir)
    dir_rows_complete t dir n row (found, matches, e) =
        let dirs = keep (λ n. is_folder (t (in_dir dir.dirpath n))) (N.names_in t dir.dirpath) in
        let listed : Memᴰ n (dir.files ++ dirs) = elim found [
          | inl h ↦ Memᴰ.append_left dirs h
          | inr h ↦
              Memᴰ.append_right dir.files
                (keep_complete (λ n. is_folder (t (in_dir dir.dirpath n))) _ h.0 h.1)
        ] in
        Memᴰ.cast e (
          Memᴰ.map (λ n. show (in_dir dir.dirpath n))
            (keep_complete (λ n. fnmatch n p) _ (sorted_set_complete _ listed) matches))

    all_rows_sound :
        (t : Tree) (dirs : List Walked) (row : Str) → Memᴰ row (all_rows t dirs) → Found t dirs row
    all_rows_sound t [] row m = elim m [ ]
    all_rows_sound t (dir ∷ dirs) row m = elim (Memᴰ.append_cases (dir_rows t dir) m) [
      | inl h ↦ let (n, found) = dir_rows_sound t dir row h in (dir, n, Memᴰ.head refl, found)
      | inr h ↦ let (d, n, at, found) = all_rows_sound t dirs row h in (d, n, Memᴰ.tail at, found)
    ]

    all_rows_complete :
        (t : Tree) (dirs : List Walked) (dir : Walked) (n row : Str)
        → Memᴰ dir dirs
        → Row t dir n row
        → Memᴰ row (all_rows t dirs)
    all_rows_complete t [] dir n row m found = elim m [ ]
    all_rows_complete t (d ∷ dirs) dir n row (Memᴰ.head e) found =
        Memᴰ.append_left (all_rows t dirs)
          (dir_rows_complete t d n row (subst (λ x. Row t x n row) e found))
    all_rows_complete t (d ∷ dirs) dir n row (Memᴰ.tail m) found =
        Memᴰ.append_right (dir_rows t d) (all_rows_complete t dirs dir n row m found)

    visit_all-Lists :
        (dirs : List Walked) (t : Tree) (s : App H)
        → tree s ≡ t
        → Ensures (λ rows u. Lists t dirs (found_rows rows)) (visit_all H F (text p) dirs s)
    visit_all-Lists dirs t s same =
        Ensures-map _ _ (visit_all H F (text p) dirs s) (visit_all-Gives dirs t s same)
          (λ rows u (e, now). (
            rows,
            refl,
            λ row. (
              λ m. all_rows_sound t dirs row (rw (← e) m),
              λ (dir, n, at, found). rw e (all_rows_complete t dirs dir n row at found),
            ),
          ))

  -- A search for a name that returns replies with the first 300 rows of a list which holds, for the
  -- directories that the walk of the base yields, exactly the paths of the names that match the pattern,
  -- where a name is one of the files of the walk or one that is listed and is a folder.
  pub action_file_find_name-Lists :
      (data' v : Json) (p : Str) (s : App H) {base : FilePath} {r : Reply}
      → get data' (codes "pattern") null ≡ ok v
      → value_or v (text (codes "*")) ≡ text p
      → (base_arg H F data' s).0 ≡ ok base
      → (action_file_find_name H F data' s).0 ≡ ok r
      → Lists p (tree s) (F.walk base (base_arg H F data' s).1.world).0 r
  unfolding action_file_find_name
  action_file_find_name-Lists data' v p s {base} given is_text at =
      let u = (base_arg H F data' s).1 in
      let dirs = (F.walk base u.world).0 in
      let Q = λ (r : Reply) (x : App H). Lists p (tree s) dirs r in
      Ensures-ok Q (action_file_find_name H F data' s) (
        continue-Ensures Q (base_arg H F data' s) _ (λ b eb.
          let same : b ≡ base = cc in
          rw (same, given, is_text)
            (then-Ensures (λ rows x. Lists p (tree s) dirs (found_rows rows)) Q
              (visit_all H F (text p) dirs (effect H (F.walk base) u).1) _
              (visit_all-Lists p dirs (tree s) _
                (N.walk_keeps base u.world ∙ base_arg-Looks H F T data' s))
              (λ rows x h. h))))
