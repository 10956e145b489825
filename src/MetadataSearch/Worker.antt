-- ===== src/MetadataSearch/Worker.antt =====
-- rdk/ORB/library/src/core/utilities/MetadataSearchTask.cpp: the thread of a search.
use orb_private.Prelude.{
  ℕ, zero, suc, ◌+◌, ◌^◌, Bool, true, false, not, ◌||◌, Option, none, some, List, [], ◌∷◌, ◌++◌,
  Text, text_eq, ltb, any, if◌then◌else◌, ◌>>=◌,
}
use orb_private.MetadataSearch.{ℤ, pos, negsuc, Query, query_id, Programme, Channel, match_query}

-- What the platform answers.
pub record Platform : Type 0 where
  pub channels : List Channel
  pub programmes : Text → List Programme

-- The members of MetadataSearchTask.
pub record Task : Type 0 where
  pub query : Query
  pub offset : ℤ  -- int
  pub count : ℤ  -- int
  pub channel_constraints : List Text

-- The event MetadataSearch (search, status, programmes, offset and total size), and the engine's
-- RemoveMetadataSearchTask.
pub data Effect : Type 0 where
  completed : ℤ → ℕ → List Text → ℤ → ℕ → Effect
  remove_task : ℤ → Effect

-- The members and the local variables that the loops change.
pub record Search : Type 0 where
  pub offset : ℤ
  pub count : ℤ
  pub total_size : ℕ  -- int
  pub results : List Text

-- An int that is decremented below the least is undefined.
abbrev decrement : ℤ → Option ℤ
decrement (pos zero) = some (negsuc zero)
decrement (pos (suc n)) = some (pos n)
decrement (negsuc n) = if ltb (suc n) (2 ^ 31) then some (negsuc (suc n)) else none

abbrev increment : ℕ → Option ℕ
increment n = if ltb (suc n) (2 ^ 31) then some (suc n) else none

abbrev is_positive : ℤ → Bool
is_positive (pos zero) = false
is_positive (pos (suc n)) = true
is_positive (negsuc n) = false

abbrev is_zero : ℤ → Bool
is_zero (pos zero) = true
is_zero (pos (suc n)) = false
is_zero (negsuc n) = false

-- Is the channel left out?
unfoldable pub is_skipped : List Text → Channel → Bool
is_skipped [] channel = channel.hidden
is_skipped (c ∷ constraints) channel =
    channel.hidden || not (any (text_eq channel.ccid) (c ∷ constraints))

abbrev pub start : Task → Search
start task = record { offset = task.offset; count = task.count; total_size = 0; results = [] }

-- SEARCH_STATUS_COMPLETED
abbrev pub search_status_completed : ℕ
search_status_completed = 0

-- What the thread does in the end, where its search has a result and where it has none.
unfoldable pub finish : Task → Option Search → List Effect
finish task none = remove_task (query_id task.query) ∷ []
finish task (some s) =
    completed (query_id task.query) search_status_completed s.results task.offset s.total_size
    ∷ remove_task (query_id task.query)
    ∷ []

-- `to_json` is ProgrammeToJsonObject and dump.
module _ (to_json : Programme → Text) where
  -- A programme that matches.
  unfoldable pub add_programme : Programme → Search → Option Search
  add_programme programme s = do
    total_size ← increment s.total_size
    if is_positive s.offset
        then (do
          offset ← decrement s.offset
          some (record s { total_size = total_size; offset = offset }))
        else if is_zero s.count
        then some (record s { total_size = total_size })
        else (do
          count ← decrement s.count
          some (record s {
            total_size = total_size;
            results = s.results ++ to_json programme ∷ [];
            count = count;
          }))

-- `stol` is std::stol.
module _ (stol : Text → Option ℤ) (to_json : Programme → Text) where
  -- The loop over the programmes of a channel.
  unfoldable pub search_programmes : Query → Text → List Programme → Search → Option Search
  search_programmes q ccid [] s = some s
  search_programmes q ccid (programme ∷ programmes) s = do
    matched ← match_query stol programme ccid q
    s' ← (if matched then add_programme to_json programme s else some s)
    search_programmes q ccid programmes s'

  -- The loop over the channels, and the check behind it: `cancelled i` is what the check number `i`
  -- sees. `none` inside is the return of a search that has been cancelled.
  unfoldable pub search_channels :
      Task → Platform → (ℕ → Bool) → ℕ → List Channel → Search → Option (Option Search)
  search_channels task platform cancelled i [] s = some (if cancelled i then none else some s)
  search_channels task platform cancelled i (channel ∷ channels) s =
      let rest = (do
        s' ←
            (if is_skipped task.channel_constraints channel
              then some s
              else search_programmes task.query channel.ccid (platform.programmes channel.ccid) s)
        search_channels task platform cancelled (i + 1) channels s') in
      if cancelled i then some none else rest

  -- MetadataSearchTask::Worker
  unfoldable pub worker : Task → Option Platform → (ℕ → Bool) → Option (List Effect)
  worker task none cancelled = some (finish task none)
  worker task (some platform) cancelled = if cancelled 0 then some (finish task none) else (do
    found ← search_channels task platform cancelled 1 platform.channels (start task)
    some (finish task found))
