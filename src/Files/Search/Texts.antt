-- ===== src/Files/Search/Texts.antt =====
-- What is assumed of the calls that read files.
use project_linux.Base.{◌≡◌, Bool, true, false, Option, none, some}
use project_linux.Text.{Str}
use project_linux.Value.{Exception, ok, raise}
use project_linux.FilePath.{FilePath}
use project_linux.Host.{Host}
use project_linux.Files.System.{FileSystem}
use project_linux.Files.Tree.{Entry, file, Tree, HasTree}

abbrev pub is_file_entry : Option Entry → Bool
is_file_entry (some (file t)) = true
is_file_entry _ = false

-- What reading tells: `text_at` is the text of a file that can be read. The calls only look.
pub record HasTexts (H : Host) (F : FileSystem H) (T : HasTree H F) : Type 0 where
  pub text_at : Tree → FilePath → Option Str
  pub is_file_tells :
      (p : FilePath) (w : H.World) {b : Bool}
      → (F.is_file p w).0 ≡ ok b
      → is_file_entry (T.tree w p) ≡ b
  pub is_file_keeps : (p : FilePath) (w : H.World) → T.tree (F.is_file p w).1 ≡ T.tree w
  pub read_text_tells :
      (p : FilePath) (w : H.World) {t : Str}
      → (F.read_text p w).0 ≡ ok t
      → text_at (T.tree w) p ≡ some t
  pub read_text_fails :
      (p : FilePath) (w : H.World) {x : Exception}
      → (F.read_text p w).0 ≡ raise x
      → text_at (T.tree w) p ≡ none
  pub rglob_keeps : (p : FilePath) (w : H.World) → T.tree (F.rglob p w).1 ≡ T.tree w
  pub read_text_keeps : (p : FilePath) (w : H.World) → T.tree (F.read_text p w).1 ≡ T.tree w
