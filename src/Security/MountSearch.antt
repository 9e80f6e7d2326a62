-- ===== src/Security/MountSearch.antt =====
-- What the searches of mount_security.py find: a blocked pattern, and a root.
use mathlib.Core.List.{Mem, mem-cons_self, mem-cons_of_mem}
use pynchy.Base.{
  Bool, Bool-cases, List, Option, Text, [], ap, arith, codes, contains, false, if◌then◌else◌, inl,
  inr, is_infix, is_prefix, list-eq, none, refl, some, subst, true, ℕ-eq, ◌&&◌, ◌++◌, ◌==◌, ◌||◌,
  ◌∙◌, ◌∷◌, ◌≡◌, ◌⊎◌,
}
use pynchy.Security.Mounts.{
  AllowedRoot, System, expand_path, is_blocked_by, matches_blocked_pattern,
}
use pynchy.Security.MountChecks.{
  parts_of, ups, relative_parts, join_path, dot_if_empty, relpath, is_under, serves,
  find_allowed_root,
}

-- Every part of the first path is the part of the second at its place.
abbrev pub is_inside : List Text → List Text → Bool
is_inside [] path = true
is_inside (s ∷ start) [] = false
is_inside (s ∷ start) (p ∷ path) = (s == p) && is_inside start path

outside-relative_parts :
    (start path : List Text)
    → is_inside start path ≡ false
    → (rest : List Text) × (relative_parts start path ≡ codes ".." ∷ rest)
unfolding relative_parts
outside-relative_parts [] path h = cc
outside-relative_parts (s ∷ start) [] h = (ups start, refl)
outside-relative_parts (s ∷ start) (p ∷ path) h = elim (Bool-cases (s == p)) [
  | inl y ↦
      let (rest, e) = outside-relative_parts start path (ground (arith, h, y)) in
      (rest, ground (arith, y, e))
  | inr n ↦ (ups start ++ p ∷ path, ground (arith, n))
]

join_path-up : (rest : List Text) → is_prefix (codes "..") (join_path (codes ".." ∷ rest)) ≡ true
unfolding is_prefix
join_path-up [] = refl
join_path-up (s ∷ ss) = refl

is_under-is_inside :
    (real_path real_root : Text)
    → is_under real_path real_root ≡ true
    → is_inside (parts_of real_root) (parts_of real_path) ≡ true
unfolding is_under relpath
is_under-is_inside real_path real_root h =
    elim (Bool-cases (is_inside (parts_of real_root) (parts_of real_path))) [
      | inl y ↦ y
      | inr n ↦
          let (rest, e) = outside-relative_parts (parts_of real_root) (parts_of real_path) n in
          let up = ap (λ l. is_prefix (codes "..") (dot_if_empty l)) e ∙ join_path-up rest in
          ground (arith, h, up)
    ]

is_blocked_by-is_infix : (real p : Text) → is_blocked_by real p ≡ false → is_infix p real ≡ false
unfolding is_blocked_by
is_blocked_by-is_infix real p h = go _ (is_infix p real) h
  where
    go : (a b : Bool) → (a || b) ≡ false → b ≡ false
    go a b k = ground (arith, k)

pub not_blocked :
    (real : Text) (patterns : List Text) (p : Text)
    → matches_blocked_pattern real patterns ≡ none
    → contains p patterns ≡ true
    → is_infix p real ≡ false
unfolding matches_blocked_pattern
not_blocked real [] p h m = cc
not_blocked real (q ∷ ps) p h m = elim (Bool-cases (is_blocked_by real q)) [
  | inl y ↦ cc (y, h)
  | inr n ↦ elim (Bool-cases (q == p)) [
    | inl e ↦
        subst (λ x. is_infix x real ≡ false) ((list-eq.equal_iff q p).0 e)
          (is_blocked_by-is_infix real q n)
    | inr k ↦ not_blocked real ps p (ground (arith, h, n)) (ground (arith, m, k))
  ]
]

-- What makes a root serve a path.
abbrev pub Serves : System → Text → AllowedRoot → Type 0
Serves sys real root =
    (real_root : Text) × (sys.realpath (expand_path sys root.path) ≡ some real_root)
    × (sys.exists real_root ≡ true)
    × (is_inside (parts_of real_root) (parts_of real) ≡ true)

pub some_if {ℓ} :
    {A : Type ℓ} (b : Bool) (a : A) (rest : Option A) (found : A)
    → (if b then some a else rest) ≡ some found
    → ((b ≡ true) × (a ≡ found)) ⊎ (rest ≡ some found)
some_if true a rest found h = inl (refl, cc)
some_if false a rest found h = inr h

serves-Serves :
    (sys : System) (real : Text) (root : AllowedRoot) (o : Option Text)
    → sys.realpath (expand_path sys root.path) ≡ o
    → serves sys real o ≡ true
    → Serves sys real root
unfolding serves
serves-Serves sys real root none e h = cc
serves-Serves sys real root (some x) e h =
    (x, e, ground (arith, h), is_under-is_inside real x (ground (arith, h)))

pub find_allowed_root-Serves :
    (sys : System) (real : Text) (roots : List AllowedRoot) (root : AllowedRoot)
    → find_allowed_root sys real roots ≡ some root
    → Mem root roots × Serves sys real root
unfolding find_allowed_root
find_allowed_root-Serves sys real [] root h = cc
find_allowed_root-Serves sys real (r ∷ rs) root h =
    elim (some_if (serves sys real (sys.realpath (expand_path sys r.path))) r
      (find_allowed_root sys real rs) root h) [
        | inl (y, e) ↦ (
          subst (λ x. Mem x (r ∷ rs)) e mem-cons_self,
          subst (Serves sys real) e (serves-Serves sys real r _ refl y),
        )
        | inr later ↦
            let (listed, served) = find_allowed_root-Serves sys real rs root later in
            (mem-cons_of_mem r listed, served)
      ]
