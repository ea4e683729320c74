-- ===== src/Runtimes/Docker/Dicts.antt =====
-- A dictionary of Python as the list of its entries in order of insertion.
use labos.Prelude.{String, List, [], ◌∷◌, ◌==◌, if◌then◌else◌, string_eq}

module _ {A : Type 0} where
  -- `entries[key] = value`
  unfoldable pub set_item : String → A → List (String × A) → List (String × A)
  set_item key value [] = (key, value) ∷ []
  set_item key value ((k, v) ∷ rest) =
      let others = set_item key value rest in
      if k == key then (k, value) ∷ rest else (k, v) ∷ others

  -- `entries.update(others)`
  unfoldable pub update : List (String × A) → List (String × A) → List (String × A)
  update entries [] = entries
  update entries ((k, v) ∷ others) = update (set_item k v entries) others
