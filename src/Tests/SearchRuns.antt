-- ===== src/Tests/SearchRuns.antt =====
-- Searches in the same project.
use project_linux.Text.Lines.{splitlines}
use project_linux.Table.{table}
use project_linux.Files.Rows.{line_rows, sorted_set, name_rows}
use project_linux.Files.{safe_path}
use project_linux.Base.{◌≡◌, refl, true, none, List, [], ◌∷◌}
use project_linux.Text.{codes}
use project_linux.Value.{as_text, Json, text, object, end, field, get, value_or, ok}
use project_linux.FilePath.{◌/◌, ◌/◌, to_text, ◌/◌, is_under, ◌/◌, is_absolute, path_of, FilePath}
use project_linux.Host.{App}
use project_linux.Command.{Reply, reply}
use project_linux.Files.Search.{
  base_arg, searched_paths, action_file_find_name, action_file_find_content,
}
use project_linux.Files.Search.Names
use project_linux.Files.Search.Contents
use project_linux.Tests.FileHost.{host, files, has_tree, has_names, has_texts, place, project}

abbrev here : App host
here = record { world = project; socket_demo_process = none }

abbrev by_name : Json
by_name = object (field (codes "pattern") (text (codes "*.[mt]*")) end)

abbrev both_texts : Reply
both_texts =
    reply true (codes "  1. /home/user/SysProject/b.md\n  2. /home/user/SysProject/notes/a.txt")

base_found : (base_arg host files by_name here).0 ≡ ok (place "/home/user/SysProject")
unfolding get safe_path as_text value_or codes path_of is_absolute ◌/◌
base_found = refl

find_name_run : (action_file_find_name host files by_name here).0 ≡ ok both_texts
unfolding action_file_find_name get safe_path as_text value_or codes path_of is_absolute is_under
    ◌/◌ to_text name_rows sorted_set table
find_name_run = refl

action_file_find_name-Lists_example :
    Names.Lists host files has_tree has_names
      (codes "*.[mt]*")
      project
      (files.walk (place "/home/user/SysProject") project).0
      both_texts
unfolding get codes value_or is_under safe_path has_tree as_text path_of is_absolute
action_file_find_name-Lists_example =
    Names.action_file_find_name-Lists host files has_tree has_names by_name (text (codes "*.[mt]*"))
      (codes "*.[mt]*") here refl refl base_found find_name_run

abbrev by_word : Json
by_word =
    object (
      field (codes "keyword") (text (codes "wo")) (field (codes "base") (text (codes "notes")) end))

abbrev second_line : Reply
second_line = reply true (codes "  1. /home/user/SysProject/notes/a.txt:2: two words")

word_base : (base_arg host files by_word here).0 ≡ ok (place "/home/user/SysProject/notes")
unfolding get safe_path as_text value_or codes path_of is_absolute ◌/◌
word_base = refl

abbrev notes_paths : List FilePath
notes_paths =
    place "/home/user/SysProject/notes/notes"
    ∷ place "/home/user/SysProject/notes/a.txt"
    ∷ place "/home/user/SysProject/notes/b.md"
    ∷ []

word_paths :
    (searched_paths host files
      (place "/home/user/SysProject/notes")
      (base_arg host files by_word here).1).0
    ≡ ok notes_paths
unfolding searched_paths get safe_path as_text value_or codes path_of is_absolute is_under
word_paths = refl

find_content_run : (action_file_find_content host files by_word here).0 ≡ ok second_line
unfolding action_file_find_content get safe_path as_text value_or codes path_of is_absolute is_under
    ◌/◌ line_rows splitlines table to_text
find_content_run = refl

action_file_find_content-Lists_example :
    Contents.Lists host files has_tree has_texts (codes "wo") project notes_paths second_line
unfolding get codes value_or is_under has_tree
action_file_find_content-Lists_example =
    Contents.action_file_find_content-Lists host files has_tree has_texts by_word
      (text (codes "wo")) (codes "wo") here refl refl refl word_base word_paths find_content_run
