-- ===== src/Security/MountChecks.antt =====
-- src/pynchy/host/container_manager/security/mount_security.py: the checks of a mount, in their
-- order.
use pynchy.Base.{
  Bool, List, Option, Text, [], codes, false, if◌then◌else◌, is_empty, is_infix, is_prefix, keep,
  list-eq, none, not, some, strip, true, ℕ-eq, ◌&&◌, ◌++◌, ◌==◌, ◌∷◌,
}
use pynchy.Security.Mounts.{
  AdditionalMount, AllowedRoot, MountAllowlist, System, expand_path, split_path,
  matches_blocked_pattern,
}

-- `os.path.relpath(path, start)`, of two paths that `os.path.abspath` leaves as they are, as it does
-- with the results of `os.path.realpath`: the parts, with one `..` for every part of `start` that is
-- not shared.
unfoldable pub parts_of : Text → List Text
unfolding split_path
parts_of p = keep (λ s. not (is_empty s)) (split_path p)

abbrev pub ups : List Text → List Text
ups [] = []
ups (s ∷ ss) = codes ".." ∷ ups ss

unfoldable pub relative_parts : List Text → List Text → List Text
relative_parts [] path = path
relative_parts (s ∷ start) [] = ups (s ∷ start)
relative_parts (s ∷ start) (p ∷ path) =
    let rest = relative_parts start path in if s == p then rest else ups (s ∷ start) ++ p ∷ path

abbrev pub join_path : List Text → Text
join_path [] = []
join_path (s ∷ []) = s
join_path (s ∷ t ∷ ss) = s ++ b'/' ∷ join_path (t ∷ ss)

abbrev pub dot_if_empty : List Text → Text
dot_if_empty [] = codes "."
dot_if_empty (s ∷ ss) = join_path (s ∷ ss)

unfoldable pub relpath : Text → Text → Text
unfolding relative_parts parts_of
relpath path start = dot_if_empty (relative_parts (parts_of start) (parts_of path))

unfoldable pub is_under : Text → Text → Bool
unfolding relpath is_prefix
is_under real_path real_root =
    let relative = relpath real_path real_root in
    not (is_prefix (codes "..") relative) && not (is_prefix (codes "/") relative)

unfoldable pub serves : System → Text → Option Text → Bool
unfolding is_under
serves sys real_path none = false
serves sys real_path (some real_root) = sys.exists real_root && is_under real_path real_root

unfoldable pub find_allowed_root : System → Text → List AllowedRoot → Option AllowedRoot
unfolding serves expand_path
find_allowed_root sys real_path [] = none
find_allowed_root sys real_path (root ∷ roots) =
    if serves sys real_path (sys.realpath (expand_path sys root.path))
    then some root
    else find_allowed_root sys real_path roots

unfoldable pub is_valid_container_path : Text → Bool
unfolding is_infix is_prefix strip
is_valid_container_path path =
    if is_infix (codes "..") path
    then false
    else if is_prefix (codes "/") path
    then false
    else not (is_empty path) && not (is_empty (strip path))

-- The reasons, without their texts.
pub data Rejection : Type 0 where
  no_allowlist bad_container_path absent_host_path not_under_root : Rejection
  blocked : Text → Rejection

pub data MountValidationResult : Type 0 where
  rejected : Rejection → MountValidationResult
  accepted :
      (root : AllowedRoot) (real_host_path resolved_container_path : Text)
      (effective_readonly : Bool)
      → MountValidationResult

abbrev last_of : List Text → Text
last_of [] = []
last_of (s ∷ []) = s
last_of (s ∷ t ∷ ss) = last_of (t ∷ ss)

-- `mount.container_path or os.path.basename(mount.host_path)`
unfoldable pub container_path_of : AdditionalMount → Text
unfolding split_path
container_path_of mount = elim mount.container_path [
  | none ↦ last_of (split_path mount.host_path)
  | some p ↦ if is_empty p then last_of (split_path mount.host_path) else p
]

abbrev pub is_readonly : MountAllowlist → AllowedRoot → Bool → Bool → Bool
is_readonly allowlist root readonly is_admin =
    if readonly
    then true
    else if not is_admin && allowlist.non_admin_read_only
    then true
    else if not root.allow_read_write
    then true
    else false

unfoldable pub with_root :
    MountAllowlist → AdditionalMount → Bool → Text → Option AllowedRoot → MountValidationResult
unfolding container_path_of
with_root allowlist mount is_admin real_path none = rejected not_under_root
with_root allowlist mount is_admin real_path (some root) =
    accepted root real_path (container_path_of mount)
      (is_readonly allowlist root mount.readonly is_admin)

unfoldable pub with_pattern :
    System → MountAllowlist → AdditionalMount → Bool → Text → Option Text → MountValidationResult
unfolding with_root find_allowed_root
with_pattern sys allowlist mount is_admin real_path (some pattern) = rejected (blocked pattern)
with_pattern sys allowlist mount is_admin real_path none =
    with_root allowlist mount is_admin real_path
      (find_allowed_root sys real_path allowlist.allowed_roots)

-- An OSError of `os.path.realpath` is not caught here.
unfoldable pub with_real_path :
    System → MountAllowlist → AdditionalMount → Bool → Option Text → Option MountValidationResult
unfolding with_pattern matches_blocked_pattern
with_real_path sys allowlist mount is_admin none = none
with_real_path sys allowlist mount is_admin (some real_path) = some (
    with_pattern sys allowlist mount is_admin real_path
      (matches_blocked_pattern real_path allowlist.blocked_patterns))

unfoldable pub validate_mount :
    System → Option MountAllowlist → AdditionalMount → Bool → Option MountValidationResult
unfolding with_real_path is_valid_container_path container_path_of expand_path
validate_mount sys none mount is_admin = some (rejected no_allowlist)
validate_mount sys (some allowlist) mount is_admin =
    if not (is_valid_container_path (container_path_of mount))
    then some (rejected bad_container_path)
    else if not (sys.exists (expand_path sys mount.host_path))
    then some (rejected absent_host_path)
    else with_real_path sys allowlist mount is_admin
        (sys.realpath (expand_path sys mount.host_path))

pub record ValidatedMount : Type 0 where
  pub host_path : Text
  pub container_path : Text
  pub readonly : Bool

abbrev pub collect :
    Option MountValidationResult → Option (List ValidatedMount) → Option (List ValidatedMount)
collect none rest = none
collect (some (rejected r)) rest = rest
collect (some (accepted root host container readonly)) none = none
collect (some (accepted root host container readonly)) (some rest) = some (
    record {
      host_path = host;
      container_path = codes "/workspace/extra/" ++ container;
      readonly = readonly;
    }
    ∷ rest)

unfoldable pub validate_additional_mounts :
    System → Option MountAllowlist → List AdditionalMount → Bool → Option (List ValidatedMount)
unfolding validate_mount
validate_additional_mounts sys allowlist [] is_admin = some []
validate_additional_mounts sys allowlist (mount ∷ mounts) is_admin =
    collect (validate_mount sys allowlist mount is_admin)
      (validate_additional_mounts sys allowlist mounts is_admin)
