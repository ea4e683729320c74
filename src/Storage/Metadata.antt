-- ===== src/Storage/Metadata.antt =====
-- `SnapshotMetadata` of labos/storage/snapshots.py, and the dictionary that it is stored as.
use labos.Prelude.{String, ◌≡◌, refl, ap, ◌∙◌, Option, none, some, List, [], ◌∷◌}
use labos.Prelude.{Result, ok, err, and_then, string_eq}
use labos.Policy.Values.{Item, lookup, null, int, negative, text}
use labos.Db.Platform.{Platform, ℤ, pos, negsuc}

-- `UnsupportedSnapshotRuntimeError`, `SnapshotMetadataError`, and what is not caught
pub data SnapshotError : Type 0 where
  unsupported_runtime : String → SnapshotError
  metadata_error : String → SnapshotError
  uncaught : String → SnapshotError

pub record SnapshotMetadata : Type 0 where
  pub snapshot_id : String
  pub lab_id : String
  pub run_id : Option String
  pub profile_name : String
  pub runtime_class : String
  pub state : String
  pub backend_ref : String
  pub manifest_path : String
  pub sha256 : String
  pub size_bytes : ℤ
  pub workspace_path : String
  pub created_at : String
  pub restored_at : Option String
  pub restored_lab_id : Option String

abbrev optional_item : Option String → Item
optional_item none = null
optional_item (some s) = text s

abbrev int_item : ℤ → Item
int_item (pos n) = int n
int_item (negsuc n) = negative n

unfoldable pub to_dict : SnapshotMetadata → List (String × Item)
to_dict m =
    ("snapshot_id", text m.snapshot_id)
    ∷ ("lab_id", text m.lab_id)
    ∷ ("run_id", optional_item m.run_id)
    ∷ ("profile_name", text m.profile_name)
    ∷ ("runtime_class", text m.runtime_class)
    ∷ ("state", text m.state)
    ∷ ("backend_ref", text m.backend_ref)
    ∷ ("manifest_path", text m.manifest_path)
    ∷ ("sha256", text m.sha256)
    ∷ ("size_bytes", int_item m.size_bytes)
    ∷ ("workspace_path", text m.workspace_path)
    ∷ ("created_at", text m.created_at)
    ∷ ("restored_at", optional_item m.restored_at)
    ∷ ("restored_lab_id", optional_item m.restored_lab_id)
    ∷ []

module _ (os : Platform) where
  -- `str(value)`
  abbrev str_of : Item → String
  str_of (text s) = s
  str_of v = os.str_value v

  -- `payload[key]`
  abbrev required : Option Item → String → Result SnapshotError Item
  required none key = err (uncaught key)
  required (some v) key = ok v

  -- `_optional_string`
  abbrev optional_string : Option Item → Option String
  optional_string none = none
  optional_string (some null) = none
  optional_string (some v) = some (str_of v)

  abbrev int_result : Result String ℤ → Result SnapshotError ℤ
  int_result (ok n) = ok n
  int_result (err e) = err (uncaught e)

  -- `int(value)`
  abbrev int_of : Item → Result SnapshotError ℤ
  int_of (int n) = ok (pos n)
  int_of (negative n) = ok (negsuc n)
  int_of v = int_result (os.int_value v)

  -- `str(payload[key])` in front of the rest
  abbrev with_text :
      {A : Type 0}
      → (String → Option Item)
      → String
      → (String → Result SnapshotError A)
      → Result SnapshotError A
  with_text get key k = and_then (required (get key) key) λ v. k (str_of v)

  unfoldable pub from_lookup : (String → Option Item) → Result SnapshotError SnapshotMetadata
  from_lookup get = with_text get "snapshot_id" λ snapshot_id. with_text get "lab_id" λ lab_id.
      with_text get "profile_name" λ profile_name. with_text get "runtime_class" λ runtime_class.
        with_text get "state" λ state. with_text get "backend_ref" λ backend_ref.
          with_text get "manifest_path" λ manifest_path. with_text get "sha256" λ sha256.
            and_then (required (get "size_bytes") "size_bytes") λ size.
              and_then (int_of size) λ size_bytes. with_text get "workspace_path" λ workspace_path.
                with_text get "created_at" λ created_at. ok (record {
                  snapshot_id = snapshot_id;
                  lab_id = lab_id;
                  run_id = optional_string (get "run_id");
                  profile_name = profile_name;
                  runtime_class = runtime_class;
                  state = state;
                  backend_ref = backend_ref;
                  manifest_path = manifest_path;
                  sha256 = sha256;
                  size_bytes = size_bytes;
                  workspace_path = workspace_path;
                  created_at = created_at;
                  restored_at = optional_string (get "restored_at");
                  restored_lab_id = optional_string (get "restored_lab_id");
                })

  unfoldable pub from_dict : List (String × Item) → Result SnapshotError SnapshotMetadata
  from_dict payload = from_lookup λ key. lookup key payload

  optional_back : (o : Option String) → optional_string (some (optional_item o)) ≡ o
  optional_back none = refl
  optional_back (some s) = refl

  int_back : (n : ℤ) → int_of (int_item n) ≡ ok n
  int_back (pos n) = refl
  int_back (negsuc n) = refl

  from_lookup-to_dict : (m : SnapshotMetadata) → from_lookup (λ key. lookup key (to_dict m)) ≡ ok m
  unfolding from_lookup to_dict lookup
  from_lookup-to_dict m =
      rw
        (
          int_back m.size_bytes,
          optional_back m.run_id,
          optional_back m.restored_at,
          optional_back m.restored_lab_id,
        )
        refl

  -- A dictionary that holds for every key what the metadata's own dictionary holds for it, in
  -- whatever order, is read back as the metadata.
  pub from_dict-to_dict :
      (m : SnapshotMetadata) (payload : List (String × Item))
      → ((key : String) → lookup key payload ≡ lookup key (to_dict m))
      → from_dict payload ≡ ok m
  unfolding from_dict
  from_dict-to_dict m payload same = ap from_lookup (λ i key. same key i) ∙ from_lookup-to_dict m
