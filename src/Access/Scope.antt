-- ===== src/Access/Scope.antt =====
-- The order of the permission scopes (Common/permissions.py), and what it means for a permission
-- of one scope to cover a required one.
use cpy_q.Prelude.{ℕ, ◌<◌, ◌≡◌, refl, ap, true, arith, ◌==◌, if◌then◌else◌}
use cpy_q.Access.{
  PermissionType, create, preview, view, acquire, update, generate, delete, reassign, type_index,
  type_eq, PermissionScope, safe, null, rank, scope_gt,
}

-- The first scope is strictly wider; nothing is narrower or wider than `null` in one way only.
abbrev pub Wider : PermissionScope → PermissionScope → Type 0
Wider null required = Unit
Wider given null = Unit
Wider given required = rank required < rank given

pub scope_gt-Wider : (a b : PermissionScope) → scope_gt a b ≡ true → Wider a b
unfolding scope_gt
scope_gt-Wider safe safe h = ground arith
scope_gt-Wider a b h = ground arith

pub Wider-scope_gt : (a b : PermissionScope) → Wider a b → scope_gt a b ≡ true
unfolding scope_gt
Wider-scope_gt safe safe h = ground arith
Wider-scope_gt a b h = ground arith

of_index : ℕ → PermissionType
of_index n =
    if n == 0
    then create
    else if n == 1
    then preview
    else if n == 2
    then view
    else if n == 3
    then acquire
    else if n == 4
    then update
    else if n == 5
    then generate
    else if n == 6
    then delete
    else reassign

of_index-type_index : (t : PermissionType) → of_index (type_index t) ≡ t
unfolding of_index
of_index-type_index create = refl
of_index-type_index t = refl

pub type_eq-eq : (a b : PermissionType) → type_eq a b ≡ true → a ≡ b
unfolding type_eq
type_eq-eq a b h =
    let same : type_index a ≡ type_index b = ground arith in
    cc (ap of_index same, of_index-type_index a, of_index-type_index b)

pub type_eq_refl : (a : PermissionType) → type_eq a a ≡ true
unfolding type_eq
type_eq_refl a = ground arith
