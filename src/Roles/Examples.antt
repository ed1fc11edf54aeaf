-- ===== src/Roles/Examples.antt =====
-- rbac.go: the theorems on two roles.
use oniworks.Prelude.{◌≡◌, ◌↔◌, true, List, [], ◌∷◌}
use oniworks.Prelude.Text.{text_eq, codes}
use oniworks.Roles.{Permission, Manager, ok, new_manager, define, can}
use oniworks.Roles.Laws.{MayDo, can_iff}

abbrev editor_permissions : List Permission
editor_permissions = codes "articles:*" ∷ codes "users:*:read" ∷ []

abbrev editors : Manager
editors = define (codes "editor") editor_permissions new_manager

can_iff_example :
    (can editors (ok (codes "guest" ∷ codes "editor" ∷ [])) (codes "articles:7:edit") ≡ ok true)
    ↔ MayDo editors (codes "guest" ∷ codes "editor" ∷ []) (codes "articles:7:edit")
can_iff_example = can_iff editors (codes "guest" ∷ codes "editor" ∷ []) (codes "articles:7:edit")
