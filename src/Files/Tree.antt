-- ===== src/Files/Tree.antt =====
-- The file system as a tree without links: what stands at each path. Each call of the file manager has
-- its meaning on such a tree.
use project_linux.Base.{
  ◌≡◌, Bool, true, false, Option, none, some, [], ◌∷◌, drop, length, if◌then◌else◌, ◌&&◌,
}
use project_linux.Text.{Str}
use project_linux.Value.{ok}
use project_linux.FilePath.{FilePath, is_absolute, is_under, is_plain, name}
use project_linux.Host.{Host}
use project_linux.Files.{joined}
use project_linux.Files.System.{FileSystem}

pub data Entry : Type 0 where
  folder : Entry
  file : Str → Entry

abbrev pub Tree : Type 0
Tree = FilePath → Option Entry

abbrev pub is_there : Option Entry → Bool
is_there none = false
is_there (some e) = true

abbrev pub is_folder : Option Entry → Bool
is_folder (some folder) = true
is_folder _ = false

abbrev pub or_else : Option Entry → Option Entry → Option Entry
or_else (some e) other = some e
or_else none other = other

-- Two paths are the same where each is under the other.
abbrev pub same_path : FilePath → FilePath → Bool
same_path p q = is_under p q && is_under q p

-- A folder at `p`, with the folders above it; what is there stays.
unfoldable pub made : FilePath → Tree → Tree
made p t q = or_else (t q) (if is_under q p then some folder else none)

-- An empty file at `p`, unless something is there.
unfoldable pub touched : FilePath → Tree → Tree
touched p t q = or_else (t q) (if same_path p q then some (file []) else none)

unfoldable pub removed : FilePath → Tree → Tree
removed p t q = if is_under p q then none else t q

-- A copy or a move into a folder keeps the name of the source.
unfoldable pub target : FilePath → FilePath → Tree → FilePath
target src dst t = if is_folder (t dst) then joined dst (name src ∷ []) else dst

unfoldable pub copied_file : FilePath → FilePath → Tree → Tree
unfolding target
copied_file src dst t q = if same_path (target src dst t) q then t src else t q

-- The path below `src` that stands to it as `q` stands to `dst`.
abbrev pub counterpart : FilePath → FilePath → FilePath → FilePath
counterpart src dst q = joined src (drop (length dst.parts) q.parts)

-- Every entry of `src` goes to its place in `dst`, with the folders above `dst`; what else is there stays.
unfoldable pub copied_tree : FilePath → FilePath → Tree → Tree
unfolding made
copied_tree src dst t q =
    if is_under dst q then or_else (t (counterpart src dst q)) (t q) else made dst t q

-- Nothing stays under `src`, and under the target is what was there.
unfoldable pub moved : FilePath → FilePath → Tree → Tree
unfolding target
moved src dst t q =
    if is_under (target src dst t) q
    then t (counterpart src (target src dst t) q)
    else if is_under src q
    then none
    else t q

-- The calls on a file system without links. Where a call returns it has done its work; the calls that
-- only look change nothing.
pub record HasTree (H : Host) (F : FileSystem H) : Type 0 where
  pub tree : H.World → Tree
  pub expand_keeps : (t : Str) (w : H.World) → tree (F.expand_home t w).1 ≡ tree w
  pub resolve_keeps : (p : FilePath) (w : H.World) → tree (F.resolve p w).1 ≡ tree w
  pub resolve_absolute :
      (p : FilePath) (w : H.World) {q : FilePath}
      → is_absolute p ≡ true
      → (F.resolve p w).0 ≡ ok q
      → is_absolute q ≡ true
  pub exists_tells :
      (p : FilePath) (w : H.World) {b : Bool} → (H.exists p w).0 ≡ ok b → is_there (tree w p) ≡ b
  pub exists_keeps : (p : FilePath) (w : H.World) → tree (H.exists p w).1 ≡ tree w
  pub is_dir_tells :
      (p : FilePath) (w : H.World) {b : Bool} → (F.is_dir p w).0 ≡ ok b → is_folder (tree w p) ≡ b
  pub is_dir_keeps : (p : FilePath) (w : H.World) → tree (F.is_dir p w).1 ≡ tree w
  pub mkdir_makes :
      (p : FilePath) (w : H.World) {u : Unit {0}}
      → (F.mkdir p w).0 ≡ ok u
      → tree (F.mkdir p w).1 ≡ made p (tree w)
  pub touch_makes :
      (p : FilePath) (w : H.World) {u : Unit {0}}
      → (F.touch p w).0 ≡ ok u
      → tree (F.touch p w).1 ≡ touched p (tree w)
  -- For a folder, and for what is none; each of the two calls is for one of them only.
  pub rmtree_removes :
      (p : FilePath) (w : H.World) {u : Unit {0}}
      → is_folder (tree w p) ≡ true
      → (F.rmtree p w).0 ≡ ok u
      → tree (F.rmtree p w).1 ≡ removed p (tree w)
  pub unlink_removes :
      (p : FilePath) (w : H.World) {u : Unit {0}}
      → is_folder (tree w p) ≡ false
      → (F.unlink p w).0 ≡ ok u
      → tree (F.unlink p w).1 ≡ removed p (tree w)
  -- For two paths of which none is under the other.
  pub copytree_copies :
      (src dst : FilePath) (w : H.World) {u : Unit {0}}
      → is_under src dst ≡ false
      → is_under dst src ≡ false
      → (F.copytree src dst w).0 ≡ ok u
      → tree (F.copytree src dst w).1 ≡ copied_tree src dst (tree w)
  pub copy2_copies :
      (src dst : FilePath) (w : H.World) {u : Unit {0}}
      → (F.copy2 src dst w).0 ≡ ok u
      → tree (F.copy2 src dst w).1 ≡ copied_file src dst (tree w)
  -- For two paths without "..", and a target that is not the source or under it.
  pub move_moves :
      (src dst : FilePath) (w : H.World) {u : Unit {0}}
      → is_plain src ≡ true
      → is_plain dst ≡ true
      → is_under src (target src dst (tree w)) ≡ false
      → (F.move src dst w).0 ≡ ok u
      → tree (F.move src dst w).1 ≡ moved src dst (tree w)
