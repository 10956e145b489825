-- ===== src/MetadataSearchExamples.antt =====
-- A search for programmes, and the theorems at it.
use orb_private.Prelude.{
  ℕ, ◌-◌, ◌≡◌, ◌↔◌, refl, Bool, true, false, Option, none, some, List, [], ◌∷◌, map, Text, codes,
  text_eq, ◌>>=◌, length, arith,
}
use orb_private.MetadataSearch.{
  ℤ, pos, negsuc, Query, query, null, operand, op_and, op_id, cmp_contains, cmp_more_eql, Programme,
  match_query,
}
use orb_private.MetadataSearch.Worker.{
  Platform, Task, completed, remove_task, is_skipped, search_status_completed, worker,
}
use orb_private.MetadataSearch.Found.{skip, limit, searched, matches}
use orb_private.MetadataSearch.Page.{worker-page}
use orb_private.MetadataSearch.Complete.{IsComplete, Meets, match_query-Meets}
use orb_private.MetadataSearch.Tasks.{
  Engine, no_tasks, start_search, cancel_search, end_task, add_metadata_search_task, initial,
  started, IsLive, Reachable-IsLive, end_task-lost,
}

-- A reader of numbers of one digit.
abbrev stol : Text → Option ℤ
stol [] = none
stol (c ∷ s) = some (pos (c - b'0'))

abbrev news : Query
news = query (negsuc 0) op_id null null (codes "Programme.name") cmp_contains (codes "news")

abbrev late : Query
late = query (negsuc 0) op_id null null (codes "Programme.startTime") cmp_more_eql (codes "5")

abbrev late_news : Query
late_news = query (pos 7) op_and (operand news) (operand late) [] cmp_contains []

abbrev programme : Programme
programme = record {
  programme_id = codes "p1";
  name = codes "News at Ten";
  start_time = pos 6;
  duration = pos 30;
}

abbrev platform : Platform
platform = record {
  channels =
      record { ccid = codes "c1"; hidden = false }
      ∷ record { ccid = codes "c2"; hidden = true }
      ∷ [];
  programmes = λ ccid. programme ∷ programme ∷ [];
}

abbrev task : Task
task = record { query = late_news; offset = negsuc 0; count = negsuc 0; channel_constraints = [] }

abbrev name_of : Programme → Text
name_of p = p.name

abbrev candidates : List (Text × Programme)
candidates = searched task.channel_constraints platform.programmes platform.channels

worker-page_example : worker stol name_of task (some platform) (λ _. false) ≡ (
    matches stol late_news candidates >>= λ ms. some (
      completed
        (pos 7)
        search_status_completed
        (map name_of (limit task.count (skip task.offset ms)))
        task.offset
        (length ms)
      ∷ remove_task (pos 7)
      ∷ []))
unfolding searched is_skipped
worker-page_example = worker-page stol name_of task platform (λ _. false) (λ i. refl) (omega arith)

late_news-IsComplete : IsComplete stol late_news
unfolding IsComplete text_eq
late_news-IsComplete = ((λ h. cc), (λ h. (pos 5, refl)))

match_query-Meets_example :
    (b : Bool) × (match_query stol programme (codes "c1") late_news ≡ some b)
    × ((b ≡ true) ↔ Meets stol programme (codes "c1") late_news)
match_query-Meets_example =
    match_query-Meets stol programme (codes "c1") (pos 36) refl late_news late_news-IsComplete

abbrev running : Engine
running = start_search (pos 7) no_tasks

abbrev only : ℕ
only = 0

found_running : running.search_tasks (pos 7) ≡ some only
unfolding start_search cancel_search add_metadata_search_task
found_running = refl

Reachable-IsLive_example : IsLive running (pos 7) only
Reachable-IsLive_example =
    Reachable-IsLive running (pos 7) only (started (pos 7) initial) found_running

end_task-lost_example :
    (((end_task only (start_search (pos 7) running)).tasks running.created)
      ≡ record { query_id = pos 7; cancelled = false; ended = false })
    × (cancel_search (pos 7) (end_task only (start_search (pos 7) running))
        ≡ end_task only (start_search (pos 7) running))
end_task-lost_example = end_task-lost running (pos 7) only (started (pos 7) initial) found_running
