-- ===== src/Files/Search/NameRows.antt =====
-- The rows of a directory are its names that match.
use project_linux.Base.{◌≡◌, refl, ap, Bool, true, false, List, [], ◌∷◌, map, keep}
use project_linux.Text.{Str}
use project_linux.Value.{text, ok, as_text}
use project_linux.FilePath.{show}
use project_linux.Files.Glob.{fnmatch}
use project_linux.Files.Rows.{row_if, in_dir, name_rows}

rows_step :
    (b : Bool) (dirpath n : Str) (ns : List Str) (p : Str)
    → fnmatch n p ≡ b
    → row_if b
        (show (in_dir dirpath n))
        (map (λ m. show (in_dir dirpath m)) (keep (λ m. fnmatch m p) ns))
      ≡ map (λ m. show (in_dir dirpath m)) (keep (λ m. fnmatch m p) (n ∷ ns))
rows_step true dirpath n ns p e = rw e refl
rows_step false dirpath n ns p e = rw e refl

pub name_rows_lem :
    (p dirpath : Str) (ns : List Str)
    → name_rows (text p) dirpath ns
      ≡ ok (map (λ n. show (in_dir dirpath n)) (keep (λ n. fnmatch n p) ns))
unfolding name_rows as_text
name_rows_lem p dirpath [] = refl
name_rows_lem p dirpath (n ∷ ns) =
    rw (name_rows_lem p dirpath ns) (ap ok (rows_step (fnmatch n p) dirpath n ns p refl))
