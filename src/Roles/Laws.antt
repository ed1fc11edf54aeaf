-- ===== src/Roles/Laws.antt =====
-- rbac.go: what Can and AllPermissions answer.
use mathlib.Core.List.{Memᴰ}
use oniworks.Prelude.{
  ◌≡◌, ◌≢◌, refl, ap, ◌∙◌, ◌↔◌, ◌⊎◌, inl, inr, Bool, true, none, some, List, [], ◌∷◌, arith,
  if◌then◌else◌, ==_iff, ==-refl, Bool-cases, Option-cases,
}
use oniworks.Prelude.Text.{Text, text_eq, split}
use oniworks.Prelude.Dict
use oniworks.Prelude.Dict.{Dict}
use oniworks.Roles.{
  Permission, Permissions, Role, Manager, ok, is_set, is_wildcard_match, any_wildcard,
  matches_permission, grants, any_grants, can, define, grant_all, has_name,
}
use oniworks.Roles.Wildcard.{Covers, is_wildcard_match_iff}

-- A role has the permission itself, or a pattern that covers it segment by segment.
abbrev Permits : Permissions → Permission → Type 0
Permits perms target =
    (Dict.get perms target ≡ some true)
    ⊎ ((p : Permission) × (b : Bool) × (Dict.get perms p ≡ some b)
        × (p ≢ [])
        × Covers (split b':' p) (split b':' target))

-- One of the user's roles is defined and permits the target.
abbrev pub MayDo : Manager → List Text → Permission → Type 0
MayDo m names target =
    (name : Text) × (role : Role) × Memᴰ name names
    × (Dict.get m.roles name ≡ some role)
    × Permits role.permissions target

any_wildcard_sound :
    (es : List (Permission × Bool)) (target : Permission)
    → any_wildcard es target ≡ true
    → (p : Permission) × (b : Bool) × Memᴰ (p, b) es × (is_wildcard_match p target ≡ true)
unfolding any_wildcard
any_wildcard_sound [] target h = cc
any_wildcard_sound ((p, b) ∷ es) target h = elim (Bool-cases (is_wildcard_match p target)) [
  | inl here ↦ (p, b, Memᴰ.head refl, here)
  | inr no_match ↦
      let (q, c, m, k) = any_wildcard_sound es target (ground arith) in (q, c, Memᴰ.tail m, k)
]

any_wildcard_complete :
    (es : List (Permission × Bool)) (target p : Permission) (b : Bool)
    → Memᴰ (p, b) es
    → is_wildcard_match p target ≡ true
    → any_wildcard es target ≡ true
unfolding any_wildcard
any_wildcard_complete [] target p b m h = elim m [ ]
any_wildcard_complete ((q, c) ∷ es) target p b (Memᴰ.head e) h =
    let same : p ≡ q = ap (λ (x : Permission × Bool). x.0) e in ground arith
any_wildcard_complete ((q, c) ∷ es) target p b (Memᴰ.tail m) h =
    ground (arith, any_wildcard_complete es target p b m h)

matches_permission_iff :
    (perms : Permissions) (target : Permission)
    → (matches_permission perms target ≡ true) ↔ Permits perms target
unfolding matches_permission
matches_permission_iff perms target = (
  λ h. elim (Bool-cases (is_set (Dict.get perms target))) [
    | inl direct ↦ inl (ground arith)
    | inr indirect ↦
        let (p, b, m, k) = any_wildcard_sound (Dict.entries perms) target (ground arith) in
        let (filled, covers) = (is_wildcard_match_iff p target).0 k in
        inr (p, b, (Dict.mem-entries perms p b).0 m, filled, covers)
  ],
  elim [
    | inl direct ↦ ground arith
    | inr (p, b, found, filled, covers) ↦ ground (
      arith,
      any_wildcard_complete (Dict.entries perms) target p b ((Dict.mem-entries perms p b).1 found)
          ((is_wildcard_match_iff p target).1 (filled, covers)),
    )
  ],
)

any_grants_sound :
    (m : Manager) (names : List Text) (target : Permission)
    → any_grants m names target ≡ true
    → MayDo m names target
unfolding any_grants grants
any_grants_sound m [] target h = absurd (ground arith)
any_grants_sound m (name ∷ names) target h =
    elim (Bool-cases (grants (Dict.get m.roles name) target)) [
      | inl here ↦ elim (Option-cases (Dict.get m.roles name)) [
        | inl gone ↦ absurd (ground arith)
        | inr (role, found) ↦ (
          name,
          role,
          Memᴰ.head refl,
          found,
          (matches_permission_iff role.permissions target).0 (ground arith),
        )
      ]
      | inr no_grant ↦
          let (n, role, listed, found, permits) = any_grants_sound m names target (ground arith) in
          (n, role, Memᴰ.tail listed, found, permits)
    ]

any_grants_complete :
    (m : Manager) (names : List Text) (target : Permission) (name : Text) (role : Role)
    → Memᴰ name names
    → Dict.get m.roles name ≡ some role
    → matches_permission role.permissions target ≡ true
    → any_grants m names target ≡ true
unfolding any_grants grants
any_grants_complete m [] target name role listed found h = elim listed [ ]
any_grants_complete m (n ∷ names) target name role (Memᴰ.head same) found h = ground arith
any_grants_complete m (n ∷ names) target name role (Memᴰ.tail listed) found h =
    ground (arith, any_grants_complete m names target name role listed found h)

-- The user can do what some defined role among the user's roles permits, and nothing else.
pub can_iff :
    (m : Manager) (names : List Text) (target : Permission)
    → (can m (ok names) target ≡ ok true) ↔ MayDo m names target
unfolding can
can_iff m names target = (
  λ h. any_grants_sound m names target (ground arith),
  λ (name, role, listed, found, permits). ap ok (
      any_grants_complete m names target name role listed found
        ((matches_permission_iff role.permissions target).1 permits)),
)

get-grant_all :
    (ps : List Permission) (perms : Permissions) (p : Permission)
    → Dict.get (grant_all ps perms) p ≡ (if has_name ps p then some true else Dict.get perms p)
unfolding grant_all has_name
get-grant_all [] perms p = refl
get-grant_all (q ∷ ps) perms p =
    get-grant_all ps (Dict.put perms q true) p ∙ ground (arith, Dict.get-put perms q p true)

-- Define gives the role exactly the listed permissions, whatever it had before, and leaves every
-- other role as it was.
pub define_lem :
    (name other : Text) (ps : List Permission) (m : Manager)
    → ((role : Role) × (Dict.get (define name ps m).roles name ≡ some role)
        × ((p : Permission)
            → Dict.get role.permissions p ≡ (if has_name ps p then some true else none)))
      × (name ≢ other → Dict.get (define name ps m).roles other ≡ Dict.get m.roles other)
unfolding define
define_lem name other ps m =
    let role : Role = record { name = name; permissions = grant_all ps Dict.empty } in
    (
      (
        role,
        ground (arith, Dict.get-put m.roles name name role, ==-refl name),
        λ p. get-grant_all ps Dict.empty p ∙ ground (arith, Dict.get-empty {V = Bool} p),
      ),
      λ differ. ground (arith, Dict.get-put m.roles name other role, ==_iff name other),
    )
