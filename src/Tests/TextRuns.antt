-- ===== src/Tests/TextRuns.antt =====
-- Control sequences, quoted words and tables.
use project_linux.Base.{◌≡◌, refl, some, [], ◌∷◌, ◌++◌, List, All, arith}
use project_linux.Text.{Str, codes}
use project_linux.Ansi.{escape, clean_output}
use project_linux.Ansi.Matching.{Sequence, body}
use project_linux.Ansi.Cleaning.{
  Piece, plain, control, Fits, written, visible, clean_output-written, clean_output_exposes,
}
use project_linux.Quote.{sh_quote}
use project_linux.Quote.Reading.{bare, scan-sh_quote}
use project_linux.Tests.WordShell.{word_shell}

-- "[1;31m"
abbrev red : Sequence
red = record {
  params = b'1' ∷ b';' ∷ b'3' ∷ b'1' ∷ [];
  intermediates = [];
  final = b'm';
  params_fit = (refl, (refl, (refl, (refl, tt))));
  intermediates_fit = tt;
  final_fits = refl;
}

abbrev pieces : List Piece
pieces = control red ∷ plain b'a' ∷ plain b'[' ∷ control red ∷ plain b'b' ∷ []

pieces_fit : All Fits pieces
pieces_fit = (tt, (omega arith, (omega arith, (tt, (omega arith, tt)))))

clean_output-written_example : clean_output (some (written pieces)) ≡ b'a' ∷ b'[' ∷ b'b' ∷ []
unfolding visible
clean_output-written_example = clean_output-written pieces pieces_fit

clean_output_exposes_example :
    clean_output (some (escape ∷ escape ∷ (body red ++ body red))) ≡ escape ∷ body red
clean_output_exposes_example = clean_output_exposes red red

abbrev name : Str
name = codes "it's a \"test\""

scan-sh_quote_example :
    word_shell.scan bare [] (sh_quote name ++ codes " next")
    ≡ word_shell.scan bare name (codes " next")
scan-sh_quote_example = scan-sh_quote word_shell name (codes " next") []
