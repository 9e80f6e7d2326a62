-- ===== src/Security/MountLaws.antt =====
-- What mount_security.py guarantees of a mount that it lets through, and of its cache.
use mathlib.Core.List.{Mem}
use pynchy.Base.{
  Bool, List, Option, Text, [], all, ap, arith, codes, contains, false, if◌then◌else◌, is_empty,
  is_infix, is_prefix, list-eq, none, not, or_else, refl, some, strip, subst, sym, true, ℕ-eq, ◌&&◌,
  ◌++◌, ◌||◌, ◌∙◌, ◌∷◌, ◌≡◌,
}
use pynchy.Security.Mounts.{
  AdditionalMount, AllowedRoot, MountAllowlist, System, AllowlistFile, parsed, Cache,
  load_mount_allowlist, read_allowlist, expand_path, matches_blocked_pattern,
}
use pynchy.Security.MountChecks.{
  find_allowed_root, is_valid_container_path, Rejection, bad_container_path, absent_host_path,
  MountValidationResult, rejected, accepted, container_path_of, is_readonly, with_root,
  with_pattern, with_real_path, validate_mount, validate_additional_mounts, ValidatedMount, collect,
}
use pynchy.Security.MountSearch.{Serves, not_blocked, find_allowed_root-Serves}

-- What holds of a mount that is let through under a root, at a real path, with a container path,
-- read-only or not.
abbrev pub IsSafe :
    System → MountAllowlist → AdditionalMount → Bool → AllowedRoot → Text → Text → Bool → Type 0
IsSafe sys allowlist mount is_admin root real container readonly =
    (is_infix (codes "..") container ≡ false)
    × (is_prefix (codes "/") container ≡ false)
    × (is_empty (strip container) ≡ false)
    × (sys.realpath (expand_path sys mount.host_path) ≡ some real)
    × ((p : Text) → contains p allowlist.blocked_patterns ≡ true → is_infix p real ≡ false)
    × Serves sys real root
    × (readonly
        ≡ not (
            not mount.readonly
            && root.allow_read_write
            && (is_admin || not allowlist.non_admin_read_only)))
    × Mem root allowlist.allowed_roots

past_check :
    (b : Bool) (r : Rejection) (rest : Option MountValidationResult) {root : AllowedRoot}
    {real container : Text} {readonly : Bool}
    → (if b then some (rejected r) else rest) ≡ some (accepted root real container readonly)
    → (b ≡ false) × (rest ≡ some (accepted root real container readonly))
past_check true r rest h = cc
past_check false r rest h = (refl, h)

-- How an accepted result comes about, from the last check back to the first.
module _ (sys : System) (allowlist : MountAllowlist) (mount : AdditionalMount) (is_admin : Bool)
    {root : AllowedRoot} {real container : Text} {readonly : Bool} where
  from_root :
      (path : Text) (found : Option AllowedRoot)
      → with_root allowlist mount is_admin path found ≡ accepted root real container readonly
      → (found ≡ some root)
        × (path ≡ real)
        × (container_path_of mount ≡ container)
        × (is_readonly allowlist root mount.readonly is_admin ≡ readonly)
  unfolding with_root
  from_root path none h = cc
  from_root path (some r) h = (cc, cc, cc, cc)

  from_pattern :
      (path : Text) (pattern : Option Text)
      → with_pattern sys allowlist mount is_admin path pattern
        ≡ accepted root real container readonly
      → (pattern ≡ none)
        × (with_root allowlist mount is_admin path
              (find_allowed_root sys path allowlist.allowed_roots)
            ≡ accepted root real container readonly)
  unfolding with_pattern
  from_pattern path none h = (refl, h)
  from_pattern path (some p) h = cc

  from_real_path :
      (resolved : Option Text)
      → with_real_path sys allowlist mount is_admin resolved
        ≡ some (accepted root real container readonly)
      → (path : Text) × (resolved ≡ some path)
        × (with_pattern sys allowlist mount is_admin path
              (matches_blocked_pattern path allowlist.blocked_patterns)
            ≡ accepted root real container readonly)
  unfolding with_real_path
  from_real_path none h = cc
  from_real_path (some path) h = (path, refl, cc)

readonly_exact :
    (allowlist : MountAllowlist) (root : AllowedRoot) (readonly is_admin : Bool)
    → is_readonly allowlist root readonly is_admin
      ≡ not
          (not readonly && root.allow_read_write && (is_admin || not allowlist.non_admin_read_only))
readonly_exact allowlist root readonly is_admin = ground arith

IsSafe_container :
    (path : Text)
    → is_valid_container_path path ≡ true
    → (is_infix (codes "..") path ≡ false)
      × (is_prefix (codes "/") path ≡ false)
      × (is_empty (strip path) ≡ false)
unfolding is_valid_container_path
IsSafe_container path h =
    go (is_infix (codes "..") path) (is_prefix (codes "/") path) (is_empty path)
      (is_empty (strip path)) h
  where
    go :
        (a b c d : Bool)
        → (if a then false else if b then false else not c && not d) ≡ true
        → (a ≡ false) × (b ≡ false) × (d ≡ false)
    go a b c d k = ground (arith, k)

-- A mount is let through only to a path in the container that is relative, not blank and without
-- `..`; from the real path of its host path, which contains no blocked pattern and is inside the
-- real path of a root that is one of the allowlist's and exists; and it may be written to exactly if that is asked for,
-- the root allows it, and the group is the admin's or others may write too.
pub validate_mount-IsSafe :
    (sys : System) (allowlist : MountAllowlist) (mount : AdditionalMount) (is_admin : Bool)
    (root : AllowedRoot) (real container : Text) (readonly : Bool)
    → validate_mount sys (some allowlist) mount is_admin
      ≡ some (accepted root real container readonly)
    → IsSafe sys allowlist mount is_admin root real container readonly
unfolding validate_mount
validate_mount-IsSafe sys allowlist mount is_admin root real container readonly h =
    let (valid, checked) =
      past_check (not (is_valid_container_path (container_path_of mount))) bad_container_path _ h in
    let (there, resolved) =
      past_check (not (sys.exists (expand_path sys mount.host_path))) absent_host_path _ checked in
    let (path, e, matched) =
      from_real_path sys allowlist mount is_admin (sys.realpath (expand_path sys mount.host_path))
        resolved in
    let (free, rooted) = from_pattern sys allowlist mount is_admin path _ matched in
    let (found, same_path, same_container, same_mode) =
      from_root sys allowlist mount is_admin path _ rooted in
    let from_list = find_allowed_root-Serves sys path allowlist.allowed_roots root found in
    let (up, absolute, blank) =
      IsSafe_container (container_path_of mount) (ground (arith, valid)) in
    (
      subst (λ c. is_infix (codes "..") c ≡ false) same_container up,
      subst (λ c. is_prefix (codes "/") c ≡ false) same_container absolute,
      subst (λ c. is_empty (strip c) ≡ false) same_container blank,
      e ∙ ap some same_path,
      subst (λ r. (p : Text) → contains p allowlist.blocked_patterns ≡ true → is_infix p r ≡ false)
          same_path (λ p. not_blocked path allowlist.blocked_patterns p free),
      subst (λ r. Serves sys r root) same_path from_list.1,
      sym same_mode ∙ readonly_exact allowlist root mount.readonly is_admin,
      from_list.0,
    )

all-collect :
    (p : ValidatedMount → Bool) (result : Option MountValidationResult)
    (rest : Option (List ValidatedMount)) (validated : List ValidatedMount)
    → ((root : AllowedRoot) (host container : Text) (readonly : Bool)
        → result ≡ some (accepted root host container readonly)
        → p (record {
          host_path = host;
          container_path = codes "/workspace/extra/" ++ container;
          readonly = readonly;
        })
          ≡ true)
    → ((more : List ValidatedMount) → rest ≡ some more → all p more ≡ true)
    → collect result rest ≡ some validated
    → all p validated ≡ true
all-collect p none rest validated first later h = cc
all-collect p (some (rejected r)) rest validated first later h = later validated h
all-collect p (some (accepted root host container readonly)) none validated first later h = cc
all-collect p (some (accepted root host container readonly)) (some more) validated first later h =
    let one = first root host container readonly refl in
    let others = later more refl in
    subst (λ o. all p (or_else o []) ≡ true) h (ground (arith, one, others))

-- Where the allowlist says that only the admin's group may write, every mount of another group is
-- read-only, whatever mounts are asked for.
pub others_read_only :
    (sys : System) (allowlist : MountAllowlist) (mounts : List AdditionalMount)
    (validated : List ValidatedMount)
    → allowlist.non_admin_read_only ≡ true
    → validate_additional_mounts sys (some allowlist) mounts false ≡ some validated
    → all (λ m. m.readonly) validated ≡ true
unfolding validate_additional_mounts
others_read_only sys allowlist [] validated only h =
    subst (λ o. all (λ m. m.readonly) (or_else o []) ≡ true) h refl
others_read_only sys allowlist (mount ∷ mounts) validated only h =
    all-collect (λ m. m.readonly) (validate_mount sys (some allowlist) mount false) _ validated
      (λ root host container readonly e.
        forced mount.readonly root.allow_read_write _ _ only
          (validate_mount-IsSafe sys allowlist mount false root host container readonly e).6)
      (λ more e. others_read_only sys allowlist mounts more only e) h
  where
    forced :
        (a b flag r : Bool) → flag ≡ true → r ≡ not (not a && b && (false || not flag)) → r ≡ true
    forced a b flag r f e = ground (arith, f, e)

-- Once loaded, the allowlist stays what it is, and once it could not be loaded it stays away,
-- whatever becomes of the file and of the default patterns.
pub load_mount_allowlist_once :
    (defaults later_defaults : List Text) (file later_file : AllowlistFile) (c : Cache)
    → let first = load_mount_allowlist defaults file c in
      load_mount_allowlist later_defaults later_file first.1 ≡ first
unfolding load_mount_allowlist read_allowlist
load_mount_allowlist_once defaults later_defaults file later_file c =
    go c.allowlist c.has_error file
  where
    go :
        (o : Option MountAllowlist) (e : Bool) (f : AllowlistFile)
        → let first = load_mount_allowlist defaults f (record { allowlist = o; has_error = e }) in
          load_mount_allowlist later_defaults later_file first.1 ≡ first
    go (some m) e f = refl
    go none true f = refl
    go none false AllowlistFile.absent = refl
    go none false AllowlistFile.invalid = refl
    go none false (parsed m) = refl
