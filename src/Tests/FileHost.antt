-- ===== src/Tests/FileHost.antt =====
-- A machine that is a tree of files: each call does its work on the tree and never raises, and what a call
-- yields is found in the tree at a few known paths.
use project_linux.Base.{
  none, some, Option, List, [], ◌∷◌, map, ◌≡◌, refl, if◌then◌else◌, arith, keep, String,
}
use project_linux.Base.Int.{pos}
use project_linux.Text.{Str, codes}
use project_linux.Value.{Result, ok, raise, file_not_found}
use project_linux.FilePath.{FilePath, path_of, is_under, show}
use project_linux.Host.{Host}
use project_linux.Files.{joined}
use project_linux.Files.System.{FileSystem, Walked}
use project_linux.Files.Rows.{in_dir}
use project_linux.Files.Tree.{
  Tree, Entry, folder, file, HasTree, is_there, is_folder, made, touched, removed, copied_file,
  copied_tree, moved, same_path,
}
use project_linux.Files.Search.Names.{HasNames}
use project_linux.Files.Search.Texts.{HasTexts, is_file_entry}
use project_linux.Tests.Machine.{ascii, no_repr, home}

abbrev pub host : Host
host = record {
  World = Tree;
  unicode = ascii;
  repr = no_repr;
  root = home;
  run = λ c w. (raise (file_not_found []), w);
  exists = λ p w. (ok (is_there (w p)), w);
  stat = λ p w. (raise (file_not_found []), w);
  Process = Unit {0};
  popen = λ args cwd w. (ok tt, w);
  pid = λ p. 7;
  poll = λ p w. (some (pos 0), w);
  wait = λ p seconds w. (ok (pos 0), w);
  killpg = λ p sig w. (ok tt, w);
  sleep = λ ms w. w;
}

-- All names that are used.
abbrev known : List Str
known = codes "notes" ∷ codes "a.txt" ∷ codes "b.md" ∷ []

abbrev names_in : Tree → Str → List Str
names_in w dirpath = keep (λ n. is_there (w (in_dir dirpath n))) known

abbrev files_in : Tree → Str → List Str
files_in w dirpath = keep (λ n. is_file_entry (w (in_dir dirpath n))) known

abbrev walked : Tree → Str → Walked
walked w dirpath = record { dirpath = dirpath; files = files_in w dirpath }

abbrev text_in : Option Entry → Option Str
text_in (some (file t)) = some t
text_in _ = none

abbrev read_entry : Option Entry → Result Str
read_entry (some (file t)) = ok t
read_entry _ = raise (file_not_found [])

abbrev pub files : FileSystem host
files = record {
  expand_home = λ t w. (t, w);
  resolve = λ p w. (ok p, w);
  is_dir = λ p w. (ok (is_folder (w p)), w);
  is_file = λ p w. (ok (is_file_entry (w p)), w);
  mkdir = λ p w. (ok tt, made p w);
  touch = λ p w. (ok tt, touched p w);
  rmtree = λ p w. (ok tt, removed p w);
  unlink = λ p w. (ok tt, removed p w);
  copytree = λ p q w. (ok tt, copied_tree p q w);
  copy2 = λ p q w. (ok tt, copied_file p q w);
  move = λ p q w. (ok tt, moved p q w);
  -- The base, and one folder in it.
  walk = λ p w. (walked w (show p) ∷ walked w (show (joined p (codes "notes" ∷ []))) ∷ [], w);
  listdir = λ dirpath w. (ok (names_in w dirpath), w);
  rglob = λ p w. (ok (map (λ n. joined p (n ∷ [])) known), w);
  read_text = λ p w. (read_entry (w p), w);
}

unfoldable pub has_tree : HasTree host files
has_tree = record {
  tree = λ w. w;
  expand_keeps = λ t w. refl;
  resolve_keeps = λ p w. refl;
  resolve_absolute = λ p w {q} h e. let same : p ≡ q = cc in rw (← same) h;
  exists_tells = λ p w e. cc;
  exists_keeps = λ p w. refl;
  is_dir_tells = λ p w e. cc;
  is_dir_keeps = λ p w. refl;
  mkdir_makes = λ p w e. refl;
  touch_makes = λ p w e. refl;
  rmtree_removes = λ p w h e. refl;
  unlink_removes = λ p w h e. refl;
  copytree_copies = λ p q w h k e. refl;
  copy2_copies = λ p q w e. refl;
  move_moves = λ p q w a b h e. refl;
}

unfoldable pub has_names : HasNames host files has_tree
unfolding has_tree
has_names = record {
  names_in = names_in;
  listdir_tells = λ dirpath w e. cc;
  listdir_keeps = λ dirpath w. refl;
  walk_keeps = λ p w. refl;
}

pub read_tells : (o : Option Entry) {t : Str} → read_entry o ≡ ok t → text_in o ≡ some t
read_tells none e = cc
read_tells (some folder) e = cc
read_tells (some (file s)) e = cc

unfoldable pub has_texts : HasTexts host files has_tree
unfolding has_tree
has_texts = record {
  text_at = λ w p. text_in (w p);
  is_file_tells = λ p w e. cc;
  is_file_keeps = λ p w. refl;
  read_text_tells = λ p w e. read_tells (w p) e;
  read_text_fails = λ p w e. ground arith;
  read_text_keeps = λ p w. refl;
  rglob_keeps = λ p w. refl;
}

-- The project with a folder `notes`, a text in it and a text beside it.
abbrev pub place : String → FilePath
place s = path_of (codes s)

abbrev pub project : Tree
project p =
    if same_path p (place "/home/user/SysProject/notes/a.txt")
    then some (file (codes "one\ntwo words\n"))
    else if same_path p (place "/home/user/SysProject/b.md")
    then some (file (codes "one"))
    else if is_under p (place "/home/user/SysProject/notes")
    then some folder
    else none
