-- ===== src/Security/MountTests.antt =====
-- Tests of the mounts, and their theorems at concrete inputs.
use pynchy.Base.{List, [], codes, false, list-eq, none, refl, some, true, ℕ-eq, ◌∷◌, ◌≡◌}
use pynchy.Security.Mounts.{AdditionalMount, AllowedRoot, MountAllowlist, System}
use pynchy.Security.MountChecks.{
  ValidatedMount, accepted, validate_mount, validate_additional_mounts, blocked, rejected,
  not_under_root, bad_container_path,
}
use pynchy.Security.MountLaws.{IsSafe, validate_mount-IsSafe}

-- A file system without links, in which everything exists.
abbrev system : System
system = record {
  home = codes "/home/me";
  abspath = λ p. p;
  exists = λ p. true;
  realpath = λ p. some p;
}

abbrev projects : AllowedRoot
projects = record { path = codes "~/projects"; allow_read_write = true; description = none }

abbrev allowlist : MountAllowlist
allowlist = record {
  allowed_roots = projects ∷ [];
  blocked_patterns = codes ".ssh" ∷ codes "secret" ∷ [];
  non_admin_read_only = true;
}

abbrev site : AdditionalMount
site = record {
  host_path = codes "/home/me/projects/site";
  container_path = none;
  readonly = false;
}

site_admin :
    validate_mount system (some allowlist) site true
    ≡ some (accepted projects (codes "/home/me/projects/site") (codes "site") false)
unfolding validate_mount
site_admin = refl

beside_root :
    validate_mount system
      (some allowlist)
      (record { host_path = codes "/home/me/projects2"; container_path = none; readonly = true })
      true
    ≡ some (rejected not_under_root)
unfolding validate_mount
beside_root = refl

secret_blocked :
    validate_mount system
      (some allowlist)
      (record { host_path = codes "~/projects/my-secrets"; container_path = none; readonly = true })
      true
    ≡ some (rejected (blocked (codes "secret")))
unfolding validate_mount
secret_blocked = refl

escape_rejected :
    validate_mount system
      (some allowlist)
      (record {
        host_path = codes "~/projects/site";
        container_path = some (codes "a/../../etc");
        readonly = true;
      })
      true
    ≡ some (rejected bad_container_path)
unfolding validate_mount
escape_rejected = refl

validate_mount-IsSafe_example :
    IsSafe system allowlist site true projects (codes "/home/me/projects/site") (codes "site") false
validate_mount-IsSafe_example =
    validate_mount-IsSafe system allowlist site true projects (codes "/home/me/projects/site")
      (codes "site") false site_admin

abbrev site_mounts : List ValidatedMount
site_mounts =
    record {
      host_path = codes "/home/me/projects/site";
      container_path = codes "/workspace/extra/site";
      readonly = true;
    }
    ∷ []

site_validated :
    validate_additional_mounts system (some allowlist) (site ∷ []) false ≡ some site_mounts
unfolding validate_additional_mounts
site_validated = refl
