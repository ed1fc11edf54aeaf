-- ===== src/Roles.antt =====
-- framework/roles/rbac.go: roles with permissions, and policies.
-- The function that resolves a user's roles is the application's: its result, or its error, is an
-- argument of each query. `Failure` is Go's `error`.
pub mod Wildcard
pub mod Laws
mod Examples
use oniworks.Prelude.{
  ℕ, zero, suc, ◌+◌, Bool, true, false, not, ◌&&◌, ◌||◌, Option, none, some, List, [], ◌∷◌, ◌++◌,
  map, if◌then◌else◌, ◌==◌, nat_eq, length,
}
use oniworks.Prelude.Text.{Text, text_eq, codes, split}
use oniworks.Prelude.Dict
use oniworks.Prelude.Dict.{Dict}

abbrev pub Permission : Type 0
Permission = Text

-- Go's `map[Permission]bool`; every value that the code writes is true.
abbrev pub Permissions : Type 0
Permissions = Dict Permission Bool

pub record Role : Type 0 where
  pub name : Text
  pub permissions : Permissions

pub record Manager : Type 0 where
  pub roles : Dict Text Role

pub data Outcome {ℓ} (A : Type ℓ) : Type ℓ where
  ok : A → Outcome A
  undefined_policy : Text → Outcome A
  unresolved : ℕ → Outcome A

pub new_manager : Manager
new_manager = record { roles = Dict.empty }

pub grant_all : List Permission → Permissions → Permissions
grant_all [] perms = perms
grant_all (p ∷ ps) perms = grant_all ps (Dict.put perms p true)

pub define : Text → List Permission → Manager → Manager
unfolding grant_all
define name ps m = record m {
  roles = Dict.put m.roles name (record { name = name; permissions = grant_all ps Dict.empty });
}

abbrev is_nil {ℓ} : {A : Type ℓ} → List A → Bool
is_nil [] = true
is_nil (x ∷ xs) = false

-- The loop over the pattern's segments, with the target's segments from the same position on.
match_from : List Text → List Text → Bool
match_from [] ts = is_nil ts
match_from (p ∷ ps) [] = false
match_from (p ∷ ps) (t ∷ ts) =
    let rest = match_from ps ts in
    if (p == codes "*") && is_nil ps
    then true
    else if p == codes "*"
    then rest
    else if p == t
    then rest
    else false

pub is_wildcard_match : Text → Text → Bool
unfolding match_from split
is_wildcard_match pattern target =
    if pattern == []
    then false
    else if pattern == codes "*"
    then true
    else if pattern == target
    then true
    else match_from (split b':' pattern) (split b':' target)

-- perms[target]
abbrev is_set : Option Bool → Bool
is_set none = false
is_set (some b) = b

-- The loop over the keys of the map.
any_wildcard : List (Permission × Bool) → Permission → Bool
any_wildcard [] target = false
any_wildcard ((p, b) ∷ more) target = is_wildcard_match p target || any_wildcard more target

pub matches_permission : Permissions → Permission → Bool
unfolding any_wildcard
matches_permission perms target =
    if is_set (Dict.get perms target) then true else any_wildcard (Dict.entries perms) target

pub has_name : List Text → Text → Bool
has_name [] role = false
has_name (r ∷ rs) role = if r == role then true else has_name rs role

has_role : Outcome (List Text) → Text → Outcome Bool
unfolding has_name
has_role (ok roles) role = ok (has_name roles role)
has_role (unresolved e) role = unresolved e
has_role (undefined_policy n) role = undefined_policy n

grants : Option Role → Permission → Bool
grants none p = false
grants (some role) p = matches_permission role.permissions p

-- The loop of Can over the user's roles; a role that is not defined is skipped.
any_grants : Manager → List Text → Permission → Bool
unfolding grants
any_grants m [] p = false
any_grants m (name ∷ names) p =
    if grants (Dict.get m.roles name) p then true else any_grants m names p

pub can : Manager → Outcome (List Text) → Permission → Outcome Bool
unfolding any_grants
can m (ok names) p = ok (any_grants m names p)
can m (unresolved e) p = unresolved e
can m (undefined_policy n) p = undefined_policy n

-- On an error the source returns `!ok`, which is true, beside the error; a caller that ignores the
-- error sees a denial.
cannot : Manager → Outcome (List Text) → Permission → Bool × Outcome (Unit {0})
cannot m names p = elim (can m names p) [
  | ok b ↦ (not b, ok tt)
  | unresolved e ↦ (true, unresolved e)
  | undefined_policy n ↦ (true, undefined_policy n)
]

-- The loops of AllPermissions: `seen` holds the permissions that `perms` holds.
collect :
    List (Permission × Bool)
    → Dict Permission Bool × List Permission
    → Dict Permission Bool × List Permission
collect [] acc = acc
collect ((p, b) ∷ more) (seen, perms) =
    collect more
      (if is_set (Dict.get seen p) then (seen, perms) else (Dict.put seen p true, perms ++ p ∷ []))

collect_role :
    Option Role → Dict Permission Bool × List Permission → Dict Permission Bool × List Permission
collect_role none acc = acc
collect_role (some role) acc = collect (Dict.entries role.permissions) acc

collect_roles :
    Manager
    → List Text
    → Dict Permission Bool × List Permission
    → Dict Permission Bool × List Permission
collect_roles m [] acc = acc
collect_roles m (name ∷ names) acc =
    collect_roles m names (collect_role (Dict.get m.roles name) acc)

all_permissions : Manager → Outcome (List Text) → Outcome (List Permission)
unfolding collect_roles collect_role collect
all_permissions m (ok names) = ok (collect_roles m names (Dict.empty, [])).1
all_permissions m (unresolved e) = unresolved e
all_permissions m (undefined_policy n) = undefined_policy n

-- A policy is the application's function.
module _ (Resource : Type 0) where
  abbrev Policy : Type 0
  Policy = ℕ → Resource → Outcome Bool

  define_policy : Text → Policy → Dict Text Policy → Dict Text Policy
  define_policy name policy gate = Dict.put gate name policy

  allows : Dict Text Policy → Text → ℕ → Resource → Outcome Bool
  allows gate name user resource = elim (Dict.get gate name) [
    | none ↦ undefined_policy name
    | some policy ↦ policy user resource
  ]
