-- ===== src/MetadataSearch/Tasks.antt =====
-- rdk/ORB/library/src/core: the searches that run, and the engine's map of them (ORBEngine.h,
-- BroadcastRequestHandler.cpp).
use orb_private.Prelude.{
  ℕ, suc, ◌<◌, ◌≡◌, ◌∙◌, refl, sym, ap, Bool, true, false, Option, none, some, ◌==◌, ==_refl,
  ==_iff, if◌then◌else◌, Bool-cases, inl, inr, arith,
}
use orb_private.MetadataSearch.{ℤ, pos, negsuc, eqz}

-- A search task, by the order of its creation: the id of its query, whether it has been stopped
-- (m_cancelled), and whether its thread has come to its end.
pub record Running : Type 0 where
  pub query_id : ℤ
  pub cancelled : Bool
  pub ended : Bool

-- The tasks, by number, how many there are, and m_metadataSearchTasks.
pub record Engine : Type 0 where
  pub tasks : ℕ → Running
  pub created : ℕ
  pub search_tasks : ℤ → Option ℕ

abbrev put {ℓ} : {A : Type ℓ} → ℤ → Option A → (ℤ → Option A) → ℤ → Option A
put k v f j = if eqz j k then v else f j

abbrev put_task : ℕ → Running → (ℕ → Running) → ℕ → Running
put_task k v f j = if j == k then v else f j

-- ORBEngine::AddMetadataSearchTask
unfoldable pub add_metadata_search_task : ℤ → ℕ → Engine → Engine
add_metadata_search_task id task e = record e { search_tasks = put id (some task) e.search_tasks }

-- ORBEngine::RemoveMetadataSearchTask
unfoldable pub remove_metadata_search_task : ℤ → Engine → Engine
remove_metadata_search_task id e = record e { search_tasks = put id none e.search_tasks }

-- MetadataSearchTask::Stop
unfoldable pub stop_task : ℕ → Engine → Engine
stop_task task e = record e {
  tasks = put_task task (record (e.tasks task) { cancelled = true }) e.tasks;
}

-- BroadcastRequestHandler::CancelSearch
unfoldable pub cancel_search : ℤ → Engine → Engine
cancel_search id e = elim (e.search_tasks id) [
  | none ↦ e
  | some task ↦ remove_metadata_search_task id (stop_task task e)
]

-- The case BROADCAST_START_SEARCH, for a request that is allowed.
unfoldable pub start_search : ℤ → Engine → Engine
start_search id e =
    let e' = cancel_search id e in
    add_metadata_search_task id e'.created (record e' {
      tasks =
          put_task e'.created (record { query_id = id; cancelled = false; ended = false }) e'.tasks;
      created = suc e'.created;
    })

-- The thread of a task returns: its TaskReleaser removes what is there under the query's id.
unfoldable pub end_task : ℕ → Engine → Engine
end_task task e =
    remove_metadata_search_task (e.tasks task).query_id
      (record e { tasks = put_task task (record (e.tasks task) { ended = true }) e.tasks })

abbrev pub no_tasks : Engine
no_tasks = record {
  tasks = λ _. record { query_id = pos 0; cancelled = false; ended = false };
  created = 0;
  search_tasks = λ _. none;
}

-- The engines that searches lead to, in any order of requests and of the returns of threads.
pub data Reachable : Engine → Type 0 where
  initial : Reachable no_tasks
  started : {e : Engine} (id : ℤ) → Reachable e → Reachable (start_search id e)
  aborted : {e : Engine} (id : ℤ) → Reachable e → Reachable (cancel_search id e)
  returned :
      {e : Engine} (task : ℕ)
      → task < e.created
      → (e.tasks task).ended ≡ false
      → Reachable e
      → Reachable (end_task task e)

eqz_sound : (j k : ℤ) → eqz j k ≡ true → j ≡ k
eqz_sound (pos m) (pos n) h = ap pos (ground (arith, h))
eqz_sound (pos m) (negsuc n) h = cc
eqz_sound (negsuc m) (pos n) h = cc
eqz_sound (negsuc m) (negsuc n) h = ap negsuc (ground (arith, h))

pub eqz_refl : (k : ℤ) → eqz k k ≡ true
eqz_refl (pos m) = ==_refl m
eqz_refl (negsuc m) = ==_refl m

-- A task that is found runs, and is not stopped.
abbrev pub IsLive : Engine → ℤ → ℕ → Type 0
IsLive e k t =
    (t < e.created)
    × ((e.tasks t).query_id ≡ k)
    × ((e.tasks t).cancelled ≡ false)
    × ((e.tasks t).ended ≡ false)

abbrev pub FindsLive : Engine → Type 0
FindsLive e = (k : ℤ) (t : ℕ) → e.search_tasks k ≡ some t → IsLive e k t

-- A task of another query is not the task.
other_task :
    (e : Engine) (t task : ℕ) (changed : Running) (k id : ℤ)
    → (e.tasks t).query_id ≡ k
    → (e.tasks task).query_id ≡ id
    → eqz k id ≡ false
    → put_task task changed e.tasks t ≡ e.tasks t
other_task e t task changed k id of_t of_task differs = elim (Bool-cases (t == task)) [
  | inl same ↦
      (let ids : k ≡ id =
          sym of_t ∙ ap (λ n. (e.tasks n).query_id) ((==_iff t task).0 same) ∙ of_task in
        absurd (cc (ap (λ j. eqz j id) ids, eqz_refl id, differs)))
  | inr other ↦ rw other refl
]

-- Removing a task that has been changed keeps the others.
FindsLive-remove :
    (e : Engine) (task : ℕ) (changed : Running) (id : ℤ)
    → (e.tasks task).query_id ≡ id
    → FindsLive e
    → FindsLive
        (remove_metadata_search_task id (record e { tasks = put_task task changed e.tasks }))
unfolding remove_metadata_search_task
FindsLive-remove e task changed id of_task finds k t found = elim (Bool-cases (eqz k id)) [
  | inl same ↦ absurd (cc (rw same at found))
  | inr other ↦
      (let (bound, of_t, live, runs) = finds k t (rw other at found) in
        let unchanged = other_task e t task changed k id of_t of_task other in
        (
          bound,
          ap (λ r. r.query_id) unchanged ∙ of_t,
          ap (λ r. r.cancelled) unchanged ∙ live,
          ap (λ r. r.ended) unchanged ∙ runs,
        ))
]

FindsLive-cancel : (id : ℤ) (e : Engine) → FindsLive e → FindsLive (cancel_search id e)
unfolding cancel_search stop_task
FindsLive-cancel id e finds = by_found (e.search_tasks id) refl
  where
    by_found :
        (r : Option ℕ)
        → e.search_tasks id ≡ r
        → FindsLive
            (elim r [ none ↦ e | some task ↦ remove_metadata_search_task id (stop_task task e) ])
    by_found none h = finds
    by_found (some task) h =
        FindsLive-remove e task (record (e.tasks task) { cancelled = true }) id (finds id task h).1
          finds

FindsLive-end : (task : ℕ) (e : Engine) → FindsLive e → FindsLive (end_task task e)
unfolding end_task
FindsLive-end task e finds =
    FindsLive-remove e task (record (e.tasks task) { ended = true }) (e.tasks task).query_id refl
      finds

FindsLive-start : (id : ℤ) (e : Engine) → FindsLive e → FindsLive (start_search id e)
unfolding start_search add_metadata_search_task
FindsLive-start id e finds k t found =
    let e' = cancel_search id e in
    let fresh : Running = record { query_id = id; cancelled = false; ended = false } in
    elim (Bool-cases (eqz k id)) [
      | inl same ↦
          (let new : t ≡ e'.created = cc (rw same at found) in
            let at_new : put_task e'.created fresh e'.tasks t ≡ fresh =
              rw (new, ==_refl e'.created) refl in
            (
              omega (arith, new),
              ap (λ r. r.query_id) at_new ∙ sym (eqz_sound k id same),
              ap (λ r. r.cancelled) at_new,
              ap (λ r. r.ended) at_new,
            ))
      | inr other ↦
          (let (bound, of_t, live, runs) = FindsLive-cancel id e finds k t (rw other at found) in
            let old : (t == e'.created) ≡ false = ground (arith, bound) in
            let unchanged : put_task e'.created fresh e'.tasks t ≡ e'.tasks t = rw old refl in
            (
              omega (arith, bound),
              ap (λ r. r.query_id) unchanged ∙ of_t,
              ap (λ r. r.cancelled) unchanged ∙ live,
              ap (λ r. r.ended) unchanged ∙ runs,
            ))
    ]

Reachable-FindsLive : (e : Engine) → Reachable e → FindsLive e
Reachable-FindsLive e initial = λ k t found. cc
Reachable-FindsLive e (started id r) = FindsLive-start id _ (Reachable-FindsLive _ r)
Reachable-FindsLive e (aborted id r) = FindsLive-cancel id _ (Reachable-FindsLive _ r)
Reachable-FindsLive e (returned task bound runs r) = FindsLive-end task _ (Reachable-FindsLive _ r)

-- However searches are started and aborted, and in whatever order their threads return: a task that
-- the engine finds under a query's id is a task of this query, whose thread runs and which has not
-- been stopped.
pub Reachable-IsLive :
    (e : Engine) (k : ℤ) (t : ℕ) → Reachable e → e.search_tasks k ≡ some t → IsLive e k t
Reachable-IsLive e k t reachable found = Reachable-FindsLive e reachable k t found

cancel_search-some :
    (id : ℤ) (old : ℕ) (e : Engine)
    → e.search_tasks id ≡ some old
    → cancel_search id e ≡ remove_metadata_search_task id (stop_task old e)
unfolding cancel_search
cancel_search-some id old e found =
    ap (λ r. elim r [ none ↦ e | some task ↦ remove_metadata_search_task id (stop_task task e) ])
      found

cancel_search-none : (id : ℤ) (e : Engine) → e.search_tasks id ≡ none → cancel_search id e ≡ e
unfolding cancel_search
cancel_search-none id e found =
    ap (λ r. elim r [ none ↦ e | some task ↦ remove_metadata_search_task id (stop_task task e) ])
      found

-- A search is started under the id of one that runs. When the thread of the old one returns, the engine
-- forgets the new one: it runs on, not stopped, and an abort under its id changes nothing.
pub end_task-lost :
    (e : Engine) (id : ℤ) (old : ℕ)
    → Reachable e
    → e.search_tasks id ≡ some old
    → (((end_task old (start_search id e)).tasks e.created)
        ≡ record { query_id = id; cancelled = false; ended = false })
      × (cancel_search id (end_task old (start_search id e)) ≡ end_task old (start_search id e))
unfolding end_task start_search add_metadata_search_task remove_metadata_search_task stop_task
end_task-lost e id old reachable found =
    let (bound, of_old, live, runs) = Reachable-FindsLive e reachable id old found in
    let old_is_not_new : (old == e.created) ≡ false = ground (arith, bound) in
    let new_is_not_old : (e.created == old) ≡ false = ground (arith, bound) in
    let cancelled_old = cancel_search-some id old e found in
    let forgotten : (end_task old (start_search id e)).search_tasks id ≡ none =
      rw (cancelled_old, old_is_not_new, ==_refl old, of_old, eqz_refl id) refl in
    (
      rw (cancelled_old, new_is_not_old, ==_refl e.created) refl,
      cancel_search-none id (end_task old (start_search id e)) forgotten,
    )
