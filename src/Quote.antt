-- ===== src/Quote.antt =====
-- `sh_quote` of gui_app/app.py.
pub mod Reading
use project_linux.Base.{ℕ, [], ◌∷◌, ◌++◌, ◌==◌, if◌then◌else◌}
use project_linux.Text.{Str, codes}

-- `s.replace(c, by)` of one character
unfoldable pub replace : ℕ → Str → Str → Str
replace old by [] = []
replace old by (c ∷ s) = (if c == old then by else c ∷ []) ++ replace old by s

-- The text is that of `str(value)`.
unfoldable pub sh_quote : Str → Str
unfolding replace codes
sh_quote s = codes "'" ++ (replace b'\'' (codes "'\"'\"'") s ++ codes "'")
