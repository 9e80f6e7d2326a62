-- ===== src/Schedule/OwnRows.antt =====
-- The tasks of a group among all, under the statements of src/pynchy/state/tasks.py.
use pynchy.Base.{
  Bool, Bool-cases, List, String, String-eq, [], all, any, ap, arith, contains, distinct, false,
  inl, inr, keep, list-eq, map, not, refl, some, true, ℕ-eq, ◌==◌, ◌||◌, ◌∙◌, ◌∷◌, ◌≡◌,
}
use pynchy.Schedule.Rows.{ScheduledTask, update_where, find}

abbrev pub task_ids : List ScheduledTask → List String
task_ids = map (λ t. t.id)

-- The tasks of other groups.
abbrev pub is_foreign : String → ScheduledTask → Bool
is_foreign source t = not (t.group_folder == source)

-- Every task with the id is the group's own.
abbrev pub is_own : String → String → ScheduledTask → Bool
is_own id source t = not (t.id == id) || (t.group_folder == source)

pub absent-is_own :
    (id source : String) (ts : List ScheduledTask)
    → contains id (task_ids ts) ≡ false
    → all (is_own id source) ts ≡ true
absent-is_own id source [] h = refl
absent-is_own id source (t ∷ ts) h = ground (arith, h, absent-is_own id source ts)

pub find-is_own :
    (id source : String) (ts : List ScheduledTask) (t : ScheduledTask)
    → distinct (task_ids ts) ≡ true
    → find (λ s. s.id == id) ts ≡ some t
    → (t.group_folder == source) ≡ true
    → all (is_own id source) ts ≡ true
find-is_own id source [] t d f o = cc
find-is_own id source (s ∷ ts) t d f o = elim (Bool-cases (s.id == id)) [
  | inl y ↦
      let same : s ≡ t = ground (arith, f, y) in
      let own : (s.group_folder == source) ≡ true = ap (λ x. x.group_folder == source) same ∙ o in
      let gone : contains id (task_ids ts) ≡ false =
        ground (arith, d, (String-eq.equal_iff s.id id).0 y) in
      ground (arith, own, absent-is_own id source ts gone)
  | inr n ↦ ground (arith, n, d, f, o, find-is_own id source ts t)
]

pub keep_foreign-update :
    (id source : String) (f : ScheduledTask → ScheduledTask) (ts : List ScheduledTask)
    → ((t : ScheduledTask) → (f t).group_folder ≡ t.group_folder)
    → all (is_own id source) ts ≡ true
    → keep (is_foreign source) (update_where (λ t. t.id == id) f ts) ≡ keep (is_foreign source) ts
keep_foreign-update id source f [] g h = refl
keep_foreign-update id source f (t ∷ ts) g h =
    let same : (f t).group_folder ≡ t.group_folder = g t in
    ground (arith, h, same, keep_foreign-update id source f ts g)

pub keep_foreign-delete :
    (id source : String) (ts : List ScheduledTask)
    → all (is_own id source) ts ≡ true
    → keep (is_foreign source) (keep (λ t. not (t.id == id)) ts) ≡ keep (is_foreign source) ts
keep_foreign-delete id source [] h = refl
keep_foreign-delete id source (t ∷ ts) h = ground (arith, h, keep_foreign-delete id source ts)

pub update-ids :
    (p : ScheduledTask → Bool) (f : ScheduledTask → ScheduledTask) (ts : List ScheduledTask)
    → ((t : ScheduledTask) → (f t).id ≡ t.id)
    → task_ids (update_where p f ts) ≡ task_ids ts
update-ids p f [] g = refl
update-ids p f (t ∷ ts) g =
    let same : (f t).id ≡ t.id = g t in ground (arith, same, update-ids p f ts g)

pub any-contains :
    (id : String) (ts : List ScheduledTask) → any (λ t. t.id == id) ts ≡ contains id (task_ids ts)
any-contains id [] = refl
any-contains id (t ∷ ts) = ap (λ b. (t.id == id) || b) (any-contains id ts)
