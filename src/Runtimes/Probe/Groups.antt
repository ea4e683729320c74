-- ===== src/Runtimes/Probe/Groups.antt =====
-- Whether the user is in the group of docker's socket.
use Prim.Native.String.{compare}
use package.text.Mathlib.Text.{is_lt}
use mathlib.Core.Path.{subst}
use mathlib.Core.Option.{some-injective}
use labos.Prelude.{
  ℕ, String, ◌≡◌, refl, sym, ap, ◌∙◌, Bool, true, false, ◌||◌, Option, none, some, List, [], ◌∷◌,
  any, contains, Bool-cases, inl, inr,
}
use labos.Prelude.{Result, ok, err, and_then-ok, ok-injective, ◌==◌, string_eq, eq_iff}
use labos.Runtimes.Probe.{
  ProbeHost, DockerAccessContext, add_name, group_names, socket_context, context_of, access_context,
}

or_twice : (a b : Bool) → (a || b) ≡ (a || (a || b))
or_twice true b = refl
or_twice false b = refl

or_swap : (a b c : Bool) → (a || (b || c)) ≡ (b || (a || c))
or_swap true true c = refl
or_swap true false c = refl
or_swap false b c = refl

contains-add_name :
    (g name : String) (names : List String)
    → contains (add_name name names) g ≡ (g == name || contains names g)
unfolding add_name
contains-add_name g name [] = refl
contains-add_name g name (other ∷ rest) = elim (Bool-cases (name == other)) [
  | inl same ↦ rw (same, (eq_iff name other).0 same) (or_twice (g == other) (contains rest g))
  | inr differs ↦ elim (Bool-cases (is_lt (compare name other))) [
    | inl first ↦ rw (differs, first) refl
    | inr later ↦
        rw (differs, later, contains-add_name g name rest)
          (or_swap (g == other) (g == name) (contains rest g))
  ]
]

module _ (host : ProbeHost) where
  abbrev pub named : String → Result String String → Bool
  named g (ok name) = g == name
  named g (err e) = false

  contains-group_names :
      (g : String) (ids : List ℕ) (names : List String)
      → group_names host ids ≡ ok names
      → contains names g ≡ any (λ id. named g (host.group_name id)) ids
  unfolding group_names
  contains-group_names g [] names h = ap (λ ns. contains ns g) (sym (ok-injective [] names h))
  contains-group_names g (id ∷ rest) names h =
      let (name, e, h1) = and_then-ok (host.group_name id) _ h in
      let (others, e', h2) = and_then-ok (group_names host rest) _ h1 in
      subst (λ ns. contains ns g ≡ any (λ i. named g (host.group_name i)) (id ∷ rest))
        (ok-injective (add_name name others) names h2)
        (rw e (
          contains-add_name g name others
          ∙ ap (λ b. g == name || b) (contains-group_names g rest others e')))

  socket_context-member :
      (user : String) (ids : List ℕ) (groups : List String) (target path g : String)
      (c : DockerAccessContext)
      → group_names host ids ≡ ok groups
      → socket_context host user groups target path ≡ ok c
      → c.socket_group ≡ some g
      → c.user_in_socket_group ≡ some (any (λ id. named g (host.group_name id)) ids)
  unfolding socket_context
  socket_context-member user ids groups target path g c e h found =
      let (stats, e1, h1) = and_then-ok (host.stat path) _ h in
      let (owner, e2, h2) = and_then-ok (host.user_name stats.0) _ h1 in
      let (group, e3, h3) = and_then-ok (host.group_name stats.1) _ h2 in
      let same = ok-injective _ c h3 in
      let this = some-injective group g (ap (λ x. x.socket_group) same ∙ found) in
      sym (ap (λ x. x.user_in_socket_group) same)
      ∙ ap (λ x. some (contains groups x)) this
      ∙ ap some (contains-group_names g ids groups e)

  -- an access context without the group of a socket
  groupless :
      (c c' : DockerAccessContext) {g : String}
      → ◌≡◌ {A = Result String DockerAccessContext} (ok c) (ok c')
      → c.socket_group ≡ none
      → c'.socket_group ≡ some g
      → ⊥
  groupless c c' h before found =
      let same = ok-injective c c' h in
      let contrary = sym before ∙ ap (λ x. x.socket_group) same ∙ found in cc

  context_of-member :
      (user : String) (ids : List ℕ) (groups : List String) (target g : String) (o : Option String)
      (c : DockerAccessContext)
      → group_names host ids ≡ ok groups
      → context_of host user groups target o ≡ ok c
      → c.socket_group ≡ some g
      → c.user_in_socket_group ≡ some (any (λ id. named g (host.group_name id)) ids)
  unfolding context_of
  context_of-member user ids groups target g none c e h found = absurd (groupless _ c h refl found)
  context_of-member user ids groups target g (some path) c e h found =
      elim (Bool-cases (host.exists path)) [
        | inl there ↦ socket_context-member user ids groups target path g c e (rw there at h) found
        | inr missing ↦ absurd (groupless _ c (rw missing at h) refl found)
      ]

  -- If the host has a socket of docker, the probe says that the user is in the socket's group
  -- exactly if one of the user's groups has the name of the socket's group.
  pub access_context-member :
      (env : List (String × String)) (c : DockerAccessContext) (g : String)
      → access_context host env ≡ ok c
      → c.socket_group ≡ some g
      → c.user_in_socket_group ≡ some (any (λ id. named g (host.group_name id)) host.getgroups)
  unfolding access_context
  access_context-member env c g h found =
      let (user, e, h1) = and_then-ok host.getuser _ h in
      let (groups, e', h2) = and_then-ok (group_names host host.getgroups) _ h1 in
      context_of-member user host.getgroups groups _ g _ c e' h2 found
