-- ===== src/Tests/Fixtures.antt =====
-- A host and a configured control plane to run the model on.
use labos.Prelude.{◌≡◌, refl, ap, ℕ, zero, suc, String, true, some, [], ◌∷◌, ok}
use labos.Db.Platform.{Platform, Json}
use labos.Prelude.{false, err, ◌++◌}
use labos.Db.Rows.{FilePath}
use labos.Db.Session.{ApiError, World, not_found, conflict, bad_request, fault, unprocessable}
use labos.Policy.Profiles.{default_profiles}
use labos.Api.App.{App}
use labos.System.Requests.{start}

abbrev pub tally : ℕ → String
tally zero = ""
tally (suc n) = String.◌∷◌ "i" (tally n)

abbrev strokes : String → ℕ
strokes String.[] = 0
strokes (String.◌∷◌ c s) = suc (strokes s)

pub strokes-tally : (n : ℕ) → strokes (tally n) ≡ n
strokes-tally zero = refl
strokes-tally (suc n) = ap suc (strokes-tally n)

-- The n-th identifier is a tally of n strokes; every path is a file, and file operations succeed.
abbrev last : FilePath → String
last [] = ""
last (p ∷ []) = p
last (p ∷ q ∷ rest) = last (q ∷ rest)

abbrev pub host : Platform
host = record {
  Disk = Unit {0};
  uuid4 = tally;
  getenv = λ name. some "value";
  exists = λ disk path. true;
  is_file = λ disk path. true;
  resolve = λ disk path. path;
  mkdir = λ path disk. ok disk;
  copy2 = λ source target disk. ok disk;
  rmtree = λ path disk. ok disk;
  hash_file = λ disk path. "digest";
  file_size = λ disk path. 7;
  is_dir = λ disk path. false;
  iterdir = λ disk path. "old" ∷ [];
  unlink = λ path disk. ok disk;
  rmdir = λ path disk. ok disk;
  replace = λ source target disk. ok disk;
  read_text = λ disk path. ok "manifest";
  write_text = λ path content disk. ok disk;
  write_archive = λ archive directory disk. ok disk;
  member_names = λ disk archive. ok ("workspace" ∷ []);
  extract_all = λ archive root disk. ok disk;
  dumps = λ payload. "manifest";
  loads = λ content. some (Json.object []);
  str_value = λ v. "value";
  int_value = λ v. err "no integer";
  str_path = last;
  to_path = λ s. s ∷ [];
  join_path = λ path s. path ++ s ∷ [];
  suffixes = λ path. [];
  with_suffix = λ path suffix. ok path;
  isoformat = tally;
  fromisoformat = λ s. some (strokes s);
}

abbrev pub app : App
app = record {
  profiles = default_profiles;
  managed_storage_root = "srv" ∷ [];
  default_run_timeout_minutes = 60;
  max_pending_jobs_per_requester = 5;
}

abbrev pub describe : ApiError → String
describe (not_found r) = r
describe (conflict m r) = m
describe (bad_request m) = m
describe (fault m) = m
describe (unprocessable m) = m

abbrev pub fresh : World (Unit {0})
fresh = start tt
