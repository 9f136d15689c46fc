-- ===== src/Files/System.antt =====
-- What the file manager calls: `pathlib`, `os` and `shutil` where they act on the file system.
use project_linux.Base.{Bool, List}
use project_linux.Text.{Str}
use project_linux.Value.{Result}
use project_linux.FilePath.{FilePath}
use project_linux.Host.{Host}

-- What `os.walk` yields for a directory: its path as text, and the names in it that are no
-- directories.
pub record Walked : Type 0 where
  pub dirpath : Str
  pub files : List Str

pub record FileSystem (H : Host) : Type 0 where
  -- os.path.expanduser of a text
  pub expand_home : Str → H.World → Str × H.World
  -- Path.resolve
  pub resolve : FilePath → H.World → Result FilePath × H.World
  pub is_dir : FilePath → H.World → Result Bool × H.World
  pub is_file : FilePath → H.World → Result Bool × H.World
  -- p.mkdir(parents=True, exist_ok=True), p.touch(exist_ok=True)
  pub mkdir : FilePath → H.World → Result (Unit {0}) × H.World
  pub touch : FilePath → H.World → Result (Unit {0}) × H.World
  -- shutil.rmtree, Path.unlink
  pub rmtree : FilePath → H.World → Result (Unit {0}) × H.World
  pub unlink : FilePath → H.World → Result (Unit {0}) × H.World
  -- shutil.copytree(…, dirs_exist_ok=True), shutil.copy2,
  -- shutil.move(str(src), str(dst))
  pub copytree : FilePath → FilePath → H.World → Result (Unit {0}) × H.World
  pub copy2 : FilePath → FilePath → H.World → Result (Unit {0}) × H.World
  pub move : FilePath → FilePath → H.World → Result (Unit {0}) × H.World
  -- All that os.walk yields, os.listdir, all that Path.rglob("*") yields
  pub walk : FilePath → H.World → List Walked × H.World
  pub listdir : Str → H.World → Result (List Str) × H.World
  pub rglob : FilePath → H.World → Result (List FilePath) × H.World
  -- p.read_text(errors="ignore"), the line ends translated
  pub read_text : FilePath → H.World → Result Str × H.World
