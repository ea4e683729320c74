-- ===== src/Policy/HostMounts.antt =====
-- `PolicyEngine._validate_host_mounts` of labos/core/policy_engine.py.
pub mod Trees
use Prim.Native.Char.{code}
use labos.Prelude.{String, Bool, not, ◌||◌, List, [], ◌∷◌, Option, none, some}
use labos.Prelude.{Result, ok, err, and_then, reject_if, any, contains, ◌==◌, if◌then◌else◌, nat_eq}
use labos.Policy.PosixPaths.{PosixPath, parse, parents, path_eq}
use labos.Policy.Values.{Item, Value, text, scalar, null, list}

-- What `validate_request` raises: a `KeyError` for a profile, a `ValueError`, or a `TypeError`.
pub data PolicyError : Type 0 where
  unknown_profile : String → PolicyError
  invalid : String → PolicyError
  type_error : PolicyError

abbrev pub forbidden_host_mount_paths : List PosixPath
forbidden_host_mount_paths =
    record { root = 1; parts = "var" ∷ "run" ∷ "docker.sock" ∷ [] }
    ∷ record { root = 1; parts = "run" ∷ "docker.sock" ∷ [] }
    ∷ []

abbrev pub forbidden_host_mount_prefixes : List PosixPath
forbidden_host_mount_prefixes =
    record { root = 1; parts = "home" ∷ [] }
    ∷ record { root = 1; parts = "root" ∷ [] }
    ∷ record { root = 1; parts = "Users" ∷ [] }
    ∷ []

-- `entry.split(":", 1)[0]`, where `none` says that the entry has no colon
unfoldable pub before_colon : String → Option String
before_colon String.[] = none
before_colon (String.◌∷◌ c s) =
    let rest = before_colon s in
    if code c == b':' then some "" else elim rest [ none ↦ none | some t ↦ some (String.◌∷◌ c t) ]

unfoldable pub is_forbidden_prefix : PosixPath → PosixPath → Bool
is_forbidden_prefix host_path prefix = host_path == prefix || contains (parents host_path) prefix

unfoldable pub check_source : PosixPath → Result PolicyError Unit
unfolding is_forbidden_prefix
check_source host_path =
    and_then
      (reject_if (contains forbidden_host_mount_paths host_path)
        (PolicyError.invalid "Docker socket mounts are forbidden"))
      λ _.
        reject_if (any (is_forbidden_prefix host_path) forbidden_host_mount_prefixes)
          (PolicyError.invalid "host mounts under home directories are forbidden")

abbrev bad_format : PolicyError
bad_format = PolicyError.invalid "host_mounts entries must use SOURCE:TARGET format"

check_text : Option String → Result PolicyError Unit
unfolding check_source
check_text none = err bad_format
check_text (some source) = check_source (parse source)

-- one round of the loop
unfoldable pub check_entry : Item → Result PolicyError Unit
unfolding check_text
check_entry (text entry) = check_text (before_colon entry)
check_entry _ = err bad_format

unfoldable pub check_entries : List Item → Result PolicyError Unit
check_entries [] = ok tt
check_entries (entry ∷ rest) = and_then (check_entry entry) λ _. check_entries rest

unfoldable pub validate_host_mounts : Value → Bool → Result PolicyError Unit
unfolding check_entries
validate_host_mounts (scalar null) allowed = ok tt
validate_host_mounts (list []) allowed = ok tt
validate_host_mounts (list (entry ∷ rest)) allowed =
    and_then
      (reject_if (not allowed)
        (PolicyError.invalid "host mounts are forbidden unless the profile explicitly allows them"))
      λ _. check_entries (entry ∷ rest)
validate_host_mounts _ allowed =
    err (PolicyError.invalid "host_mounts must be a list of SOURCE:TARGET entries")
