-- ===== src/Questions/AnswerLaws.antt =====
-- A question of pending_questions.py, from its creation to its answer.
use pynchy.Base.{
  Bool, Bool-cases, List, Option, String, String-eq, [], ap, arith, equal_refl, false, if_cases,
  if◌then◌else◌, inl, inr, insert, lookup, lookup-insert, lookup-remove, none, or_else, refl,
  remove, some, sym, ℕ, ◌==◌, ◌∙◌, ◌∷◌, ◌≡◌,
}
use pynchy.Approvals.Files.{File}
use pynchy.Questions.Files.{
  Asked, Question, Folder, Store, new_question, folder_of, readable, or_rest,
  create_pending_question, find_pending_question, resolve_pending_question,
}
use pynchy.Questions.Answer.{Answer, deliver, handle_ask_user_answer, on_found}

or_rest-none : (a b : Option Question) → or_rest a b ≡ none → (a ≡ none) × (b ≡ none)
or_rest-none none b h = (refl, h)
or_rest-none (some q) b h = absurd (ground (arith, h))

-- A search that finds nothing finds nothing in the rest, nor in the first group if it looks there.
found_nowhere :
    (id g : String) (f : Folder) (store : Store)
    → find_pending_question id ((g, f) ∷ store) ≡ none
    → find_pending_question id store ≡ none
      × ((g == "errors") ≡ false → readable (lookup id f) ≡ none)
unfolding find_pending_question
found_nowhere id g f store h = elim (Bool-cases (g == "errors")) [
  | inl y ↦ (sym (rw y refl) ∙ h, λ n. absurd (ground (arith, y, n)))
  | inr n ↦
      let both =
        or_rest-none (readable (lookup id f)) (find_pending_question id store)
          (sym (rw n refl) ∙ h) in
      (both.1, λ e. both.0)
]

-- What a search answers when a group's directory is replaced.
find-insert-none :
    (id group : String) (folder : Folder) (store : Store)
    → find_pending_question id store ≡ none
    → readable (lookup id folder) ≡ none
    → find_pending_question id (insert group folder store) ≡ none
unfolding find_pending_question insert
find-insert-none id group folder [] h k =
    rw k
      (if_cases {A = Option Question} (λ o. o ≡ none) (group == "errors") (λ y. refl) (λ n. refl))
find-insert-none id group folder ((g, f) ∷ store) h k =
    let none_there = found_nowhere id g f store h in
    elim (Bool-cases (g == group)) [
      | inl y ↦
          rw (y, k, none_there.0)
            (if_cases {A = Option Question} (λ o. o ≡ none) (g == "errors") (λ y. refl) (λ m. refl))
      | inr n ↦
          rw (n, find-insert-none id group folder store none_there.0 k)
            (if_cases {A = Option Question} (λ o. o ≡ none) (g == "errors") (λ y. refl)
              (λ m. ap (λ a. or_rest a none) (none_there.1 m)))
    ]

find-insert-some :
    (id group : String) (folder : Folder) (store : Store) (q : Question)
    → find_pending_question id store ≡ none
    → (group == "errors") ≡ false
    → readable (lookup id folder) ≡ some q
    → find_pending_question id (insert group folder store) ≡ some q
unfolding find_pending_question insert
find-insert-some id group folder [] q h n k = rw (n, k) refl
find-insert-some id group folder ((g, f) ∷ store) q h e k =
    let none_there = found_nowhere id g f store h in
    elim (Bool-cases (g == group)) [
      | inl y ↦
          let real = ap (λ x. x == "errors") ((String-eq.equal_iff g group).0 y) ∙ e in
          rw (y, real, k) refl
      | inr n ↦
          rw (n, find-insert-some id group folder store q none_there.0 e k)
            (if_cases {A = Option Question} (λ o. o ≡ some q) (g == "errors") (λ y. refl)
              (λ m. ap (λ a. or_rest a (some q)) (none_there.1 m)))
    ]

find-insert_same :
    (id group : String) (folder : Folder) (store : Store)
    → readable (lookup id folder) ≡ readable (lookup id (folder_of group store))
    → find_pending_question id (insert group folder store) ≡ find_pending_question id store
unfolding find_pending_question insert lookup
find-insert_same id group folder [] k =
    rw k
      (if_cases {A = Option Question} (λ o. o ≡ none) (group == "errors") (λ y. refl) (λ n. refl))
find-insert_same id group folder ((g, f) ∷ store) k = elim (Bool-cases (g == group)) [
  | inl y ↦
      let same : readable (lookup id folder) ≡ readable (lookup id f) = k ∙ rw y refl in
      rw (y, same) refl
  | inr n ↦
      let same : readable (lookup id folder) ≡ readable (lookup id (folder_of group store)) =
        k ∙ rw n refl in
      rw (n, find-insert_same id group folder store same) refl
]

insert_twice : (k : String) (v w : Folder) (d : Store) → insert k v (insert k w d) ≡ insert k v d
unfolding insert
insert_twice k v w [] = rw (equal_refl k) refl
insert_twice k v w ((j, x) ∷ d) = elim (Bool-cases (j == k)) [
  | inl y ↦ rw y (rw y refl)
  | inr n ↦ rw n (rw n (ap (λ r. (j, x) ∷ r) (insert_twice k v w d)))
]

module _ (id group jid channel session : String) (questions : List Asked)
    (message_id : Option String) (now : ℕ) (store : Store)
    (fresh : find_pending_question id store ≡ none) (real : (group == "errors") ≡ false)
    (alive : String → Bool) (written : Bool) (answer : Answer) where
  abbrev question : Question
  question = new_question id group jid channel session questions message_id now

  abbrev asked : Store
  asked = create_pending_question id group jid channel session questions message_id now store

  abbrev left : Store
  left = resolve_pending_question id group asked

  found : find_pending_question id asked ≡ some question
  unfolding create_pending_question
  found =
      let folder = insert id (File.holds question) (folder_of group store) in
      let there : lookup id folder ≡ some (File.holds question) =
        lookup-insert id id (File.holds question) (folder_of group store)
        ∙ rw (equal_refl id) refl in
      find-insert-some id group folder store question fresh real (ap readable there)

  handled :
      handle_ask_user_answer alive written id answer asked
      ≡ (left, deliver alive written id answer question ∷ [])
  unfolding handle_ask_user_answer
  handled = ap (on_found alive written id answer asked) found

  folder_found : folder_of group asked ≡ insert id (File.holds question) (folder_of group store)
  unfolding create_pending_question
  folder_found =
      let folder = insert id (File.holds question) (folder_of group store) in
      let there : lookup group asked ≡ some folder =
        lookup-insert group group folder store ∙ rw (equal_refl group) refl in
      ap (λ o. or_else o []) there

  left_is :
      left
      ≡ insert group (remove id (insert id (File.holds question) (folder_of group store))) store
  unfolding create_pending_question resolve_pending_question
  left_is =
      ap (λ f. insert group (remove id f) asked) folder_found
      ∙ insert_twice group _ (insert id (File.holds question) (folder_of group store)) store

  -- The file is gone, and the others are as they were.
  lookup_left :
      (other : String)
      → lookup other (remove id (insert id (File.holds question) (folder_of group store)))
        ≡ (if id == other then none else lookup other (folder_of group store))
  lookup_left other =
      lookup-remove id other (insert id (File.holds question) (folder_of group store))
      ∙ elim (Bool-cases (id == other)) [
        | inl y ↦ rw y refl
        | inr n ↦
            rw n (lookup-insert id other (File.holds question) (folder_of group store) ∙ rw n refl)
      ]

  -- An answer to a question that no readable file had before is delivered once, to the container
  -- that waits or by a new message; then the question is pending no more, so that a second answer
  -- does nothing, and every other question is as it was.
  pub handle_ask_user_answer_once :
      let r = handle_ask_user_answer alive written id answer asked in
      (r.1 ≡ deliver alive written id answer question ∷ [])
      × (find_pending_question id r.0 ≡ none)
      × ((again : Answer) → handle_ask_user_answer alive written id again r.0 ≡ (r.0, []))
      × ((other : String)
          → (id == other) ≡ false
          → find_pending_question other r.0 ≡ find_pending_question other store)
  unfolding handle_ask_user_answer
  handle_ask_user_answer_once =
      let folder = remove id (insert id (File.holds question) (folder_of group store)) in
      let state = ap (λ r. r.0) handled ∙ left_is in
      let file_gone : lookup id folder ≡ none = lookup_left id ∙ rw (equal_refl id) refl in
      let gone =
        ap (find_pending_question id) state
        ∙ find-insert-none id group folder store fresh (ap readable file_gone) in
      (
        ap (λ r. r.1) handled,
        gone,
        λ again. ap (on_found alive written id again _) gone,
        λ other n.
            let kept : lookup other folder ≡ lookup other (folder_of group store) =
              lookup_left other ∙ rw n refl in
            ap (find_pending_question other) state
            ∙ find-insert_same other group folder store (ap readable kept),
      )
