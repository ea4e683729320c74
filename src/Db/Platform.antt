-- ===== src/Db/Platform.antt =====
-- What the control plane takes from the host and from Python's library: identifiers, the file
-- system, hashes, archives, the environment, JSON texts, paths as texts and dates as texts. A file
-- operation returns the new disk, or the text of what it raises.
use labos.Prelude.{ℕ, String, Bool, Option, Result, List}
use labos.Policy.Values.{Item}
use labos.Db.Rows.{FilePath}

-- An integer of Python; `negsuc n` is -(n + 1).
pub data ℤ : Type 0 where
  pos negsuc : ℕ → ℤ

-- What `json.loads` returns: a dictionary, or another value.
pub data Json : Type 0 where
  object : List (String × Item) → Json
  other : Json

pub record Platform : Type 1 where
  pub Disk : Type 0
  -- the n-th result of `uuid4`
  pub uuid4 : ℕ → String
  pub getenv : String → Option String
  pub exists : Disk → FilePath → Bool
  pub is_file : Disk → FilePath → Bool
  pub is_dir : Disk → FilePath → Bool
  pub resolve : Disk → FilePath → FilePath
  -- the names that `iterdir` yields
  pub iterdir : Disk → FilePath → List String
  pub mkdir : FilePath → Disk → Result String Disk
  pub copy2 : FilePath → FilePath → Disk → Result String Disk
  pub rmtree : FilePath → Disk → Result String Disk
  pub unlink : FilePath → Disk → Result String Disk
  pub rmdir : FilePath → Disk → Result String Disk
  pub replace : FilePath → FilePath → Disk → Result String Disk
  pub hash_file : Disk → FilePath → String
  pub file_size : Disk → FilePath → ℕ
  pub read_text : Disk → FilePath → Result String String
  pub write_text : FilePath → String → Disk → Result String Disk
  -- `tarfile.open(archive, "w:gz")` and `add(directory, arcname="workspace")`
  pub write_archive : FilePath → FilePath → Disk → Result String Disk
  -- the names of `getmembers()`
  pub member_names : Disk → FilePath → Result String (List String)
  -- `extractall(path=root, filter="data")` of an archive
  pub extract_all : FilePath → FilePath → Disk → Result String Disk
  -- `json.dumps(payload, indent=2, sort_keys=True)`, and `json.loads` with `none` for what it raises
  pub dumps : List (String × Item) → String
  pub loads : String → Option Json
  -- `str` of a value that is no text, and `int` of one that is no integer
  pub str_value : Item → String
  pub int_value : Item → Result String ℤ
  -- `str(path)`, `Path(text)`, `root / Path(text)`, and pathlib's suffixes
  pub str_path : FilePath → String
  pub to_path : String → FilePath
  pub join_path : FilePath → String → FilePath
  pub suffixes : FilePath → List String
  pub with_suffix : FilePath → String → Result String FilePath
  -- `isoformat()`, and `fromisoformat` with `none` for what it raises
  pub isoformat : ℕ → String
  pub fromisoformat : String → Option ℕ
