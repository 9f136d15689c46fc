-- ===== src/Files/Search/Contents.antt =====
-- What `action_file_find_content` finds.
use mathlib.Core.List.Memᴰ
use mathlib.Core.Path.{subst}
use project_linux.Base.{
  ◌≡◌, refl, ◌∙◌, inl, inr, ◌↔◌, Bool, true, false, Option, none, some, List, [], ◌∷◌, ◌++◌,
  if◌then◌else◌, Memᴰ,
}
use project_linux.Text.{Str, codes}
use project_linux.Text.Lines.{splitlines}
use project_linux.Value.{
  Json, text, null, truthy, Exception, os_error, file_not_found, process_lookup_error, get,
  value_or, Result, ok, raise,
}
use project_linux.Value.Exec.{pure, lift, except, continue}
use project_linux.Value.Ensures.{Ensures, Ensures-ok, continue-Ensures, then-Ensures, Ensures-map}
use project_linux.FilePath.{FilePath}
use project_linux.Host.{Host, App, system}
use project_linux.Command.{Reply}
use project_linux.Files.System.{FileSystem}
use project_linux.Files.Tree.{Tree, HasTree}
use project_linux.Files.Rows.{line_rows}
use project_linux.Files.Paths.{tree_of}
use project_linux.Files.Search.{
  skipped, read_rows, search_file, search_all, searched_paths, found_rows, base_arg,
  action_file_find_content,
}
use project_linux.Files.Search.Hits.{hits, line_rows_lem, Hit, hits_sound, hits_complete}
use project_linux.Files.Search.Texts.{HasTexts, is_file_entry}
use project_linux.Files.Search.Looking.{base_arg-Looks, searched_paths-Looks}

module _ (H : Host) (F : FileSystem H) (T : HasTree H F) (X : HasTexts H F T) where
  abbrev tree : App H → Tree
  tree = tree_of H F T

  -- The state has the tree `t`, and a list is `expected`.
  abbrev Gives : Tree → List Str → List Str → App H → Type 0
  Gives t expected got s = (got ≡ expected) × (tree s ≡ t)

  module _ (k : Str) where
    abbrev text_hits : FilePath → Option Str → List Str
    text_hits path none = []
    text_hits path (some t) = hits k path 1 (splitlines t)

    abbrev file_hits : Tree → FilePath → List Str
    file_hits t path = if is_file_entry (t path) then text_hits path (X.text_at t path) else []

    abbrev all_hits : Tree → List FilePath → List Str
    all_hits t [] = []
    all_hits t (path ∷ paths) = file_hits t path ++ all_hits t paths

    raised-Gives :
        (x : Exception) (path : FilePath) (t : Tree) (s : App H)
        → X.text_at t path ≡ none
        → tree s ≡ t
        → Ensures (Gives t (text_hits path (X.text_at t path))) (except (skipped H F) (raise x, s))
    raised-Gives (os_error errno message) path t s unread now = (rw unread refl, now)
    raised-Gives (file_not_found message) path t s unread now = (rw unread refl, now)
    raised-Gives process_lookup_error path t s unread now = (rw unread refl, now)
    raised-Gives _ path t s unread now = tt

    read-Gives :
        (r : Result Str) (path : FilePath) (t : Tree) (s : App H)
        → ((tx : Str) → r ≡ ok tx → X.text_at t path ≡ some tx)
        → ((x : Exception) → r ≡ raise x → X.text_at t path ≡ none)
        → tree s ≡ t
        → Ensures (Gives t (text_hits path (X.text_at t path))) (
            except
              (skipped H F)
              (continue (λ tx. lift (line_rows (text k) path 1 (splitlines tx))) (r, s)))
    read-Gives (ok tx) path t s tells fails now =
        rw (line_rows_lem k path 1 (splitlines tx), tells tx refl) (refl, now)
    read-Gives (raise x) path t s tells fails now = raised-Gives x path t s (fails x refl) now

    read_rows-Gives :
        (path : FilePath) (t : Tree) (s : App H)
        → tree s ≡ t
        → Ensures (Gives t (text_hits path (X.text_at t path))) (read_rows H F (text k) path s)
    unfolding read_rows
    read_rows-Gives path t s same =
        read-Gives (F.read_text path s.world).0 path t _
          (λ y e. rw (← same) (X.read_text_tells path s.world e))
          (λ y e. rw (← same) (X.read_text_fails path s.world e))
          (X.read_text_keeps path s.world ∙ same)

    kept-Gives :
        (b : Bool) (path : FilePath) (t : Tree) (s : App H)
        → is_file_entry (t path) ≡ b
        → tree s ≡ t
        → Ensures
            (Gives t (file_hits t path))
            ((if b then read_rows H F (text k) path else pure []) s)
    kept-Gives true path t s is now = rw is (read_rows-Gives path t s now)
    kept-Gives false path t s is now = rw is (refl, now)

    search_file-Gives :
        (path : FilePath) (t : Tree) (s : App H)
        → tree s ≡ t
        → Ensures (Gives t (file_hits t path)) (search_file H F (text k) path s)
    unfolding search_file
    search_file-Gives path t s same =
        continue-Ensures (Gives t (file_hits t path)) (system H (F.is_file path) s) _ (λ b eb.
          kept-Gives b path t (system H (F.is_file path) s).1
            (rw (← same) (X.is_file_tells path s.world eb)) (X.is_file_keeps path s.world ∙ same))

    search_all-Gives :
        (paths : List FilePath) (t : Tree) (s : App H)
        → tree s ≡ t
        → Ensures (Gives t (all_hits t paths)) (search_all H F (text k) paths s)
    unfolding search_all
    search_all-Gives [] t s same = (refl, same)
    search_all-Gives (path ∷ paths) t s same =
        let Q = Gives t (all_hits t (path ∷ paths)) in
        then-Ensures (Gives t (file_hits t path)) Q (search_file H F (text k) path s) _
          (search_file-Gives path t s same)
          (λ rows u (e, now).
            then-Ensures (Gives t (all_hits t paths)) Q (search_all H F (text k) paths u) _
              (search_all-Gives paths t u now) (λ rest v (f, later). (rw (e, f) refl, later)))

    -- A row for a line of the file `path` that holds the keyword.
    abbrev pub Row : Tree → FilePath → Str → Type 0
    Row t path row =
        (is_file_entry (t path) ≡ true)
        × (tx : Str) × (X.text_at t path ≡ some tx)
        × Hit k path 1 (splitlines tx) row

    -- The reply shows at most 300 rows of a list that holds exactly what is to be found.
    abbrev pub Lists : Tree → List FilePath → Reply → Type 0
    Lists t paths r =
        (rows : List Str) × (r ≡ found_rows rows)
        × ((row : Str) → Memᴰ row rows ↔ ((path : FilePath) × Memᴰ path paths × Row t path row))

    read_hits_sound :
        (path : FilePath) (o : Option Str) {row : Str}
        → Memᴰ row (text_hits path o)
        → (tx : Str) × (o ≡ some tx) × Hit k path 1 (splitlines tx) row
    read_hits_sound path none m = elim m [ ]
    read_hits_sound path (some tx) m = (tx, refl, hits_sound k path 1 (splitlines tx) m)

    file_hits_sound :
        (b : Bool) (path : FilePath) (o : Option Str) {row : Str}
        → Memᴰ row (if b then text_hits path o else [])
        → (b ≡ true) × (tx : Str) × (o ≡ some tx) × Hit k path 1 (splitlines tx) row
    file_hits_sound true path o m = let (tx, e, h) = read_hits_sound path o m in (refl, tx, e, h)
    file_hits_sound false path o m = elim m [ ]

    file_hits_complete :
        (path : FilePath) (t : Tree) {row : Str} → Row t path row → Memᴰ row (file_hits t path)
    file_hits_complete path t (is, tx, there, (i, line, at, has, e)) =
        rw (is, there) (hits_complete k path 1 (splitlines tx) i at has e)

    all_hits_sound :
        (t : Tree) (paths : List FilePath) {row : Str}
        → Memᴰ row (all_hits t paths)
        → (path : FilePath) × Memᴰ path paths × Row t path row
    all_hits_sound t [] m = elim m [ ]
    all_hits_sound t (path ∷ paths) m = elim (Memᴰ.append_cases (file_hits t path) m) [
      | inl h ↦
          (path, Memᴰ.head refl, file_hits_sound (is_file_entry (t path)) path (X.text_at t path) h)
      | inr h ↦ let (p, at, row) = all_hits_sound t paths h in (p, Memᴰ.tail at, row)
    ]

    all_hits_complete :
        (t : Tree) (paths : List FilePath) (path : FilePath) {row : Str}
        → Memᴰ path paths
        → Row t path row
        → Memᴰ row (all_hits t paths)
    all_hits_complete t [] path m h = elim m [ ]
    all_hits_complete t (p ∷ paths) path {row} (Memᴰ.head e) h =
        Memᴰ.append_left (all_hits t paths) (file_hits_complete p t (subst (λ q. Row t q row) e h))
    all_hits_complete t (p ∷ paths) path (Memᴰ.tail m) h =
        Memᴰ.append_right (file_hits t p) (all_hits_complete t paths path m h)

    search_all-Lists :
        (paths : List FilePath) (t : Tree) (s : App H)
        → tree s ≡ t
        → Ensures (λ rows u. Lists t paths (found_rows rows)) (search_all H F (text k) paths s)
    search_all-Lists paths t s same =
        Ensures-map _ _ (search_all H F (text k) paths s) (search_all-Gives paths t s same)
          (λ rows u (e, now). (
            rows,
            refl,
            λ row. (
              λ m. all_hits_sound t paths (rw (← e) m),
              λ (path, at, h). rw e (all_hits_complete t paths path at h),
            ),
          ))

  -- A search for a keyword that returns replies with the first 300 rows of a list which holds, for the
  -- paths that the search goes through, exactly the lines with the keyword of the files among them that
  -- can be read, each with its path and its number from 1.
  pub action_file_find_content-Lists :
      (data' v : Json) (k : Str) (s : App H) {base : FilePath} {paths : List FilePath} {r : Reply}
      → get data' (codes "keyword") null ≡ ok v
      → value_or v (text []) ≡ text k
      → truthy (text k) ≡ true
      → (base_arg H F data' s).0 ≡ ok base
      → (searched_paths H F base (base_arg H F data' s).1).0 ≡ ok paths
      → (action_file_find_content H F data' s).0 ≡ ok r
      → Lists k (tree s) paths r
  unfolding action_file_find_content
  action_file_find_content-Lists data' v k s {base} {paths} given is_text some_text at through =
      let u = (base_arg H F data' s).1 in
      let Q = λ (r : Reply) (x : App H). Lists k (tree s) paths r in
      Ensures-ok Q (action_file_find_content H F data' s) (
        continue-Ensures Q (base_arg H F data' s) _ (λ b eb.
          let same : b ≡ base = cc in
          rw (same, given, is_text, some_text)
            (continue-Ensures Q (searched_paths H F base u) _ (λ ps eps.
              let all : ps ≡ paths = cc in
              rw all (
                then-Ensures (λ rows x. Lists k (tree s) paths (found_rows rows)) Q
                  (search_all H F (text k) paths (searched_paths H F base u).1) _
                  (search_all-Lists k paths (tree s) _ (
                    searched_paths-Looks H F T X.rglob_keeps base u ∙ base_arg-Looks H F T data' s))
                  (λ rows x h. h))))))
