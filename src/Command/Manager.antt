-- ===== src/Command/Manager.antt =====
-- The maps of TranscationManager in transcation/Transcation.cpp, and the loop of
-- CommServer::OnConnection in Communication/CommServer.cpp that makes a session's task the task of
-- its transcations. Tasks are named by numbers; `tasks` holds `m_task` of each transcation.
use dev_hub.Base.{
  ℕ, ◌≡◌, refl, ap, ◌∙◌, inl, inr, Bool, true, false, ◌&&◌, Option, none, some, List, [], ◌∷◌,
  if◌then◌else◌, ◌==◌, Text, lookup, insert, lookup-insert, contains, arith, Bool-cases,
  Option-cases,
}
use dev_hub.Command.{Transcation, check}

pub record Manager : Type 0 where
  pub transcations : List (ℕ × Transcation)
  pub tasks : List (ℕ × ℕ)

-- AddTranscation.
unfoldable pub add_transcation : Option Transcation → Manager → Bool × Manager
add_transcation none m = (false, m)
add_transcation (some tc) m = elim (lookup tc.id m.transcations) [
  | some other ↦ (false, m)
  | none ↦ (true, record m { transcations = insert tc.id tc m.transcations })
]

-- GetTransIds: the ids of the transcations that admit the address, in their order.
unfoldable pub get_trans_ids : Text → List (ℕ × Transcation) → List ℕ
unfolding check
get_trans_ids ip [] = []
get_trans_ids ip ((id, tc) ∷ m) =
    let rest = get_trans_ids ip m in if check ip tc.ip_white_list then id ∷ rest else rest

-- SetTransTask.
unfoldable pub set_trans_task : ℕ → Option ℕ → Manager → Manager
set_trans_task id none m = m
set_trans_task id (some task) m = elim (lookup id m.transcations) [
  | none ↦ m
  | some tc ↦ record m { tasks = insert id task m.tasks }
]

-- The loop of OnConnection over the ids.
unfoldable pub set_trans_tasks : List ℕ → ℕ → Manager → Manager
unfolding set_trans_task
set_trans_tasks [] task m = m
set_trans_tasks (id ∷ ids) task m = set_trans_tasks ids task (set_trans_task id (some task) m)

-- Whether a transcation is known.
abbrev pub is_known : Option Transcation → Bool
is_known none = false
is_known (some tc) = true

set_known :
    (id task : ℕ) (m : Manager) (tc : Transcation)
    → lookup id m.transcations ≡ some tc
    → set_trans_task id (some task) m ≡ record m { tasks = insert id task m.tasks }
unfolding set_trans_task
set_known id task m tc e = rw (e, set_trans_task) refl

set_unknown :
    (id task : ℕ) (m : Manager)
    → lookup id m.transcations ≡ none
    → set_trans_task id (some task) m ≡ m
unfolding set_trans_task
set_unknown id task m e = rw (e, set_trans_task) refl

set_trans_task-transcations :
    (id task : ℕ) (m : Manager) → (set_trans_task id (some task) m).transcations ≡ m.transcations
set_trans_task-transcations id task m = elim (Option-cases (lookup id m.transcations)) [
  | inl z ↦ ap (λ x. x.transcations) (set_unknown id task m z)
  | inr (tc, z) ↦ ap (λ x. x.transcations) (set_known id task m tc z)
]

lookup-set_trans_task :
    (j id task : ℕ) (m : Manager)
    → lookup j (set_trans_task id (some task) m).tasks
      ≡ (if (id == j) && is_known (lookup id m.transcations) then some task else lookup j m.tasks)
lookup-set_trans_task j id task m = elim (Option-cases (lookup id m.transcations)) [
  | inl z ↦ ap (λ x. lookup j x.tasks) (set_unknown id task m z) ∙ rw z ground arith
  | inr (tc, z) ↦
      ap (λ x. lookup j x.tasks) (set_known id task m tc z)
      ∙ rw z rw (lookup-insert j id task m.tasks) ground arith
]

joined :
    (id : ℕ) (ids : List ℕ) (j task : ℕ) (m : Manager)
    → (if contains j ids && is_known (lookup j m.transcations)
        then some task
        else if (id == j) && is_known (lookup id m.transcations)
        then some task
        else lookup j m.tasks)
      ≡ (if contains j (id ∷ ids) && is_known (lookup j m.transcations)
          then some task
          else lookup j m.tasks)
joined id ids j task m = elim (Bool-cases (id == j)) [
  | inl z ↦ let e : id ≡ j = ground arith in rw e ground arith
  | inr z ↦ ground (arith, z)
]

-- After a connection the known transcations of its ids belong to its task, also those that belonged
-- to the task of an earlier connection from the same address; the others keep their task.
pub lookup-set_trans_tasks :
    (ids : List ℕ) (j task : ℕ) (m : Manager)
    → lookup j (set_trans_tasks ids task m).tasks ≡ (
        if contains j ids && is_known (lookup j m.transcations)
        then some task
        else lookup j m.tasks)
unfolding set_trans_tasks
lookup-set_trans_tasks [] j task m = refl
lookup-set_trans_tasks (id ∷ ids) j task m =
    let rest = lookup-set_trans_tasks ids j task (set_trans_task id (some task) m) in
    let same : lookup j (set_trans_task id (some task) m).transcations ≡ lookup j m.transcations =
      ap (lookup j) (set_trans_task-transcations id task m) in
    rest ∙ rw same rw (lookup-set_trans_task j id task m) (joined id ids j task m)
