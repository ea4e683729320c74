-- ===== src/Policy/HostMounts/Trees.antt =====
-- Which host paths a mount may have (`_validate_host_mounts` of labos/core/policy_engine.py).
use labos.Prelude.{
  ℕ, String, ◌≡◌, refl, Bool, true, false, not, ◌||◌, ◌&&◌, Option, none, some, List, [], ◌∷◌, map,
}
use labos.Prelude.{
  ok, reject_if, and_then-ok, reject_if-ok, is_none, contains, any, All, ◌==◌, string_eq, nat_eq,
}
use labos.Prelude.{◌⊎◌, inl, inr, eq_iff, arith}
use labos.Policy.PosixPaths.{
  PosixPath, parse, proper_prefixes, parts_eq, strip_parts, relative_to, path_eq,
}
use labos.Policy.Values.{Item, text, list}
use labos.Policy.HostMounts.{
  PolicyError, is_forbidden_prefix, check_source, check_entry, check_entries, check_text,
  validate_host_mounts, before_colon, forbidden_host_mount_paths, forbidden_host_mount_prefixes,
}

-- whether some parts are among some paths
among : List (List String) → List String → Bool
among [] qs = false
among (ps ∷ rest) qs = parts_eq qs ps || among rest qs

among-longer :
    (p : String) (rest : List (List String)) (q : String) (qs : List String)
    → among (map (λ x. p ∷ x) rest) (q ∷ qs) ≡ (q == p && among rest qs)
unfolding among
among-longer p [] q qs = ground arith
among-longer p (x ∷ rest) q qs = ground (arith, among-longer p rest q qs)

among-shorter : (p : String) (rest : List (List String)) → among (map (λ x. p ∷ x) rest) [] ≡ false
unfolding among
among-shorter p [] = refl
among-shorter p (x ∷ rest) = among-shorter p rest

prefix_or_equal :
    (ps qs : List String)
    → (parts_eq ps qs || among (proper_prefixes ps) qs) ≡ not (is_none (strip_parts ps qs))
unfolding among
prefix_or_equal [] [] = refl
prefix_or_equal [] (q ∷ qs) = refl
prefix_or_equal (p ∷ ps) [] = refl
prefix_or_equal (p ∷ ps) (q ∷ qs) =
    ground (
      arith,
      among-longer p (proper_prefixes ps) q qs,
      prefix_or_equal ps qs,
      eq_iff p q,
      eq_iff q p,
    )

contains-parents :
    (root : ℕ) (rest : List (List String)) (q : PosixPath)
    → contains (map (λ x. record { root = root; parts = x }) rest) q
      ≡ (q.root == root && among rest q.parts)
unfolding among
contains-parents root [] q = ground arith
contains-parents root (x ∷ rest) q = ground (arith, contains-parents root rest q)

-- the test of a prefix finds exactly the paths in its tree
is_forbidden_prefix-relative_to :
    (p q : PosixPath) → is_forbidden_prefix p q ≡ not (is_none (relative_to p q))
unfolding is_forbidden_prefix
is_forbidden_prefix-relative_to p q =
    ground
      (arith, contains-parents p.root (proper_prefixes p.parts) q, prefix_or_equal p.parts q.parts)

outside-All :
    (p : PosixPath) (prefixes : List PosixPath)
    → any (is_forbidden_prefix p) prefixes ≡ false
    → All (λ q. is_none (relative_to p q) ≡ true) prefixes
outside-All p [] h = tt
outside-All p (q ∷ rest) h =
    (ground (arith, is_forbidden_prefix-relative_to p q), outside-All p rest (ground arith))

-- A mount that may be granted: its source, the text before the first colon, is no socket of docker
-- and lies in none of the home trees.
abbrev pub IsMountable : Item → Type 0
IsMountable item =
    (entry : String) × (source : String) × (item ≡ text entry)
    × (before_colon entry ≡ some source)
    × (contains forbidden_host_mount_paths (parse source) ≡ false)
    × All (λ q. is_none (relative_to (parse source) q) ≡ true) forbidden_host_mount_prefixes

check_source-outside :
    (p : PosixPath)
    → check_source p ≡ ok tt
    → (contains forbidden_host_mount_paths p ≡ false)
      × All (λ q. is_none (relative_to p q) ≡ true) forbidden_host_mount_prefixes
unfolding check_source
check_source-outside p h =
    let (u, hu, h1) =
      and_then-ok
        (reject_if (contains forbidden_host_mount_paths p)
          (PolicyError.invalid "Docker socket mounts are forbidden"))
        _ h in
    (reject_if-ok _ _ u hu, outside-All p forbidden_host_mount_prefixes (reject_if-ok _ _ tt h1))

check_text-IsMountable :
    (entry : String) (o : Option String)
    → before_colon entry ≡ o
    → check_text o ≡ ok tt
    → IsMountable (text entry)
unfolding check_text
check_text-IsMountable entry none e h = absurd (cc)
check_text-IsMountable entry (some source) e h =
    let (socket, trees) = check_source-outside (parse source) h in
    (entry, source, refl, e, socket, trees)

check_entry-IsMountable : (item : Item) → check_entry item ≡ ok tt → IsMountable item
unfolding check_entry
check_entry-IsMountable (Item.text entry) h = check_text-IsMountable entry _ refl h
check_entry-IsMountable Item.null h = absurd (cc)
check_entry-IsMountable (Item.boolean b) h = absurd (cc)
check_entry-IsMountable (Item.int n) h = absurd (cc)
check_entry-IsMountable (Item.negative n) h = absurd (cc)
check_entry-IsMountable (Item.nested b) h = absurd (cc)

check_entries-IsMountable :
    (items : List Item) → check_entries items ≡ ok tt → All IsMountable items
unfolding check_entries
check_entries-IsMountable [] h = tt
check_entries-IsMountable (item ∷ rest) h =
    let (u, hu, h1) = and_then-ok (check_entry item) _ h in
    (check_entry-IsMountable item hu, check_entries-IsMountable rest h1)

-- Host mounts that a request may have are texts with a colon, the source before which is, as it is
-- written, neither a socket of docker nor a path in a home tree, and are none at all if the
-- profile does not allow host mounts.
pub validate_host_mounts-IsMountable :
    (mounts : List Item) (allowed : Bool)
    → validate_host_mounts (list mounts) allowed ≡ ok tt
    → All IsMountable mounts × ((allowed ≡ true) ⊎ (mounts ≡ []))
unfolding validate_host_mounts
validate_host_mounts-IsMountable [] allowed h = (tt, inr refl)
validate_host_mounts-IsMountable (item ∷ rest) allowed h =
    let (u, hu, h1) =
      and_then-ok
        (reject_if (not allowed) (
          PolicyError.invalid
            "host mounts are forbidden unless the profile explicitly allows them"))
        _ h in
    (check_entries-IsMountable (item ∷ rest) h1, inl (ground (arith, reject_if-ok _ _ u hu)))
