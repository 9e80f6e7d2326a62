-- ===== src/Security/Mounts.antt =====
-- src/pynchy/host/container_manager/security/mount_security.py: which host directories a container
-- may see, and which of them it may write to.
use pynchy.Base.{
  Bool, List, Option, Text, [], any, codes, eqb, false, if◌then◌else◌, is_empty, is_infix,
  is_prefix, list-eq, none, some, true, ℕ, ℕ-eq, ◌++◌, ◌==◌, ◌||◌, ◌∷◌,
}
use pynchy.Config.Merge.{deduplicate}

pub record AdditionalMount : Type 0 where
  pub host_path : Text
  pub container_path : Option Text
  pub readonly : Bool

pub record AllowedRoot : Type 0 where
  pub path : Text
  pub allow_read_write : Bool
  pub description : Option Text

pub record MountAllowlist : Type 0 where
  pub allowed_roots : List AllowedRoot
  pub blocked_patterns : List Text
  pub non_admin_read_only : Bool

-- What the file system and the process's environment answer: the home directory, `os.path.abspath`
-- (which depends on the working directory), `os.path.exists`, and `os.path.realpath`, which may be
-- an OSError.
pub record System : Type 0 where
  pub home : Text
  pub abspath : Text → Text
  pub exists : Text → Bool
  pub realpath : Text → Option Text

-- The file of the allowlist, as it is read: absent, wrong, or its three values.
pub data AllowlistFile : Type 0 where
  absent invalid : AllowlistFile
  parsed : MountAllowlist → AllowlistFile

-- `_cached_allowlist`, and whether `_allowlist_load_error` is set.
pub record Cache : Type 0 where
  pub allowlist : Option MountAllowlist
  pub has_error : Bool

-- `_reset_cache`
abbrev pub empty_cache : Cache
empty_cache = record { allowlist = none; has_error = false }

unfoldable pub with_defaults : List Text → MountAllowlist → MountAllowlist
unfolding deduplicate
with_defaults default_blocked m = record m {
  blocked_patterns = deduplicate (default_blocked ++ m.blocked_patterns);
}

unfoldable pub read_allowlist : List Text → AllowlistFile → Cache → Option MountAllowlist × Cache
unfolding deduplicate
read_allowlist default_blocked (parsed m) c =
    let m' = with_defaults default_blocked m in (some m', record c { allowlist = some m' })
read_allowlist default_blocked _ c = (none, record c { has_error = true })

unfoldable pub load_mount_allowlist :
    List Text → AllowlistFile → Cache → Option MountAllowlist × Cache
unfolding read_allowlist with_defaults
load_mount_allowlist default_blocked file c = elim c.allowlist [
  | some m ↦ (some m, c)
  | none ↦ if c.has_error then (none, c) else read_allowlist default_blocked file c
]

-- `os.path.join` of two paths.
abbrev ends_with_slash : Text → Bool
ends_with_slash [] = false
ends_with_slash (c ∷ []) = eqb c b'/'
ends_with_slash (c ∷ d ∷ t) = ends_with_slash (d ∷ t)

abbrev path_join : Text → Text → Text
path_join a [] = if is_empty a || ends_with_slash a then a else a ++ b'/' ∷ []
path_join a (c ∷ b) =
    if eqb c b'/'
    then c ∷ b
    else if is_empty a || ends_with_slash a
    then a ++ c ∷ b
    else a ++ b'/' ∷ c ∷ b

unfoldable pub expand_path : System → Text → Text
unfolding is_prefix
expand_path sys p =
    if is_prefix (codes "~/") p
    then path_join sys.home (drop_two p)
    else if p == codes "~"
    then sys.home
    else sys.abspath p
  where
    drop_two : Text → Text
    drop_two (a ∷ b ∷ t) = t
    drop_two _ = []

-- `p.split("/")`
abbrev cons_first : ℕ → List Text → List Text
cons_first c [] = (c ∷ []) ∷ []
cons_first c (s ∷ ss) = (c ∷ s) ∷ ss

unfoldable pub split_path : Text → List Text
split_path [] = [] ∷ []
split_path (c ∷ t) = let rest = split_path t in if eqb c b'/' then [] ∷ rest else cons_first c rest

unfoldable pub is_blocked_by : Text → Text → Bool
unfolding split_path is_infix
is_blocked_by real_path pattern =
    any (λ part. (part == pattern) || is_infix pattern part) (split_path real_path)
    || is_infix pattern real_path

unfoldable pub matches_blocked_pattern : Text → List Text → Option Text
unfolding is_blocked_by
matches_blocked_pattern real_path [] = none
matches_blocked_pattern real_path (pattern ∷ patterns) =
    if is_blocked_by real_path pattern
    then some pattern
    else matches_blocked_pattern real_path patterns
