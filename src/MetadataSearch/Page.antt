-- ===== src/MetadataSearch/Page.antt =====
-- The page of programmes that a search reports.
use orb_private.Prelude.{
  ℕ, suc, ◌+◌, ◌^◌, ◌<◌, ◌≤◌, ◌≡◌, ◌∙◌, refl, sym, ap, Bool, true, false, Option, none, some, List,
  [], ◌∷◌, ◌++◌, map, Text, if◌then◌else◌, ◌>>=◌, length, Bool-cases, Option-cases, inl, inr, arith,
}
use orb_private.MetadataSearch.{ℤ, Query, query_id, Programme, Channel, match_query}
use orb_private.MetadataSearch.Worker.{
  Platform, Task, completed, remove_task, Search, add_programme, search_programmes, is_skipped,
  search_channels, start, finish, search_status_completed, worker,
}
use orb_private.MetadataSearch.Found.{
  skip, limit, searched, below_zero, matches, add_all, FoundBy, add_all-FoundBy,
}

module _ (stol : Text → Option ℤ) (to_json : Programme → Text) (q : Query) where
  -- All the programmes, one after another.
  search_all : List (Text × Programme) → Search → Option Search
  search_all [] s = some s
  search_all ((ccid, programme) ∷ rest) s = do
    matched ← match_query stol programme ccid q
    s' ← (if matched then add_programme to_json programme s else some s)
    search_all rest s'

  search_programmes-all :
      (ccid : Text) (programmes : List Programme) (rest : List (Text × Programme)) (s : Search)
      → (search_programmes stol to_json q ccid programmes s >>= search_all rest)
        ≡ search_all (map (λ programme. (ccid, programme)) programmes ++ rest) s
  unfolding search_programmes search_all
  search_programmes-all ccid [] rest s = refl
  search_programmes-all ccid (programme ∷ programmes) rest s =
      elim (Option-cases (match_query stol programme ccid q)) [
        | inl e ↦ rw e refl
        | inr (matched, e) ↦
            rw e
              (elim (Option-cases (if matched then add_programme to_json programme s else some s)) [
                | inl none_added ↦ rw none_added refl
                | inr (s', added) ↦ rw added (search_programmes-all ccid programmes rest s')
              ])
      ]

  search_all-matches :
      (cs : List (Text × Programme)) (s : Search)
      → search_all cs s ≡ (matches stol q cs >>= λ ms. add_all to_json ms s)
  unfolding search_all matches add_all
  search_all-matches [] s = refl
  search_all-matches ((ccid, programme) ∷ rest) s =
      elim (Option-cases (match_query stol programme ccid q)) [
        | inl e ↦ rw e refl
        | inr (false, e) ↦ rw e (search_all-matches rest s ∙ skipped (matches stol q rest))
        | inr (true, e) ↦ rw e (elim (Option-cases (add_programme to_json programme s)) [
          | inl f ↦ rw f (overflown (matches stol q rest) f)
          | inr (s', added) ↦
              rw added (search_all-matches rest s' ∙ continued (matches stol q rest) s' added)
        ])
      ]
    where
      skipped :
          (r : Option (List Programme))
          → (r >>= λ ms. add_all to_json ms s)
            ≡ ((do found ← r; some found) >>= λ ms. add_all to_json ms s)
      skipped none = refl
      skipped (some ms) = refl

      overflown :
          (r : Option (List Programme))
          → add_programme to_json programme s ≡ none
          → none ≡ ((do found ← r; some (programme ∷ found)) >>= λ ms. add_all to_json ms s)
      overflown none f = refl
      overflown (some ms) f = rw f refl

      continued :
          (r : Option (List Programme)) (s' : Search)
          → add_programme to_json programme s ≡ some s'
          → (r >>= λ ms. add_all to_json ms s')
            ≡ ((do found ← r; some (programme ∷ found)) >>= λ ms. add_all to_json ms s)
      continued none s' added = refl
      continued (some ms) s' added = rw added refl

-- No more match than there are.
NoMore : ℕ → Option (List Programme) → Type 0
NoMore n none = Unit
NoMore n (some ms) = length ms ≤ n

matches-NoMore :
    (stol : Text → Option ℤ) (q : Query) (cs : List (Text × Programme))
    → NoMore (length cs) (matches stol q cs)
unfolding matches NoMore
matches-NoMore stol q [] = omega arith
matches-NoMore stol q ((ccid, programme) ∷ rest) =
    one_more (match_query stol programme ccid q) (matches stol q rest) (matches-NoMore stol q rest)
  where
    one_more :
        (m : Option Bool) (r : Option (List Programme))
        → NoMore (length rest) r
        → NoMore
            (suc (length rest))
            (do matched ← m; found ← r; some (if matched then programme ∷ found else found))
    one_more none r h = tt
    one_more (some matched) none h = tt
    one_more (some true) (some ms) h = omega arith
    one_more (some false) (some ms) h = omega arith

module _ (stol : Text → Option ℤ) (to_json : Programme → Text) (task : Task) (platform : Platform)
    (cancelled : ℕ → Bool) (runs : (i : ℕ) → cancelled i ≡ false) where
  -- The programmes of the task's channels.
  abbrev of_task : List Channel → List (Text × Programme)
  of_task = searched task.channel_constraints platform.programmes

  each_one :
      (channels : List Channel) (i : ℕ) (r : Option Search)
      → ((s' : Search)
          → search_channels stol to_json task platform cancelled i channels s'
            ≡ (search_all stol to_json task.query (of_task channels) s' >>= λ t. some (some t)))
      → (r >>= search_channels stol to_json task platform cancelled i channels)
        ≡ ((r >>= search_all stol to_json task.query (of_task channels)) >>= λ t. some (some t))
  each_one channels i none h = refl
  each_one channels i (some s') h = h s'

  search_channels-all :
      (channels : List Channel) (i : ℕ) (s : Search)
      → search_channels stol to_json task platform cancelled i channels s
        ≡ (search_all stol to_json task.query (of_task channels) s >>= λ s'. some (some s'))
  unfolding search_channels searched search_all
  search_channels-all [] i s = rw (runs i) refl
  search_channels-all (channel ∷ channels) i s =
      elim (Bool-cases (is_skipped task.channel_constraints channel)) [
        | inl e ↦ rw (runs i, e) (search_channels-all channels (i + 1) s)
        | inr e ↦
            rw
              (
                runs i,
                e,
                sym (
                    search_programmes-all stol to_json task.query channel.ccid
                      (platform.programmes channel.ccid) (of_task channels) s),
              )
              (each_one channels (i + 1)
                (search_programmes stol to_json task.query channel.ccid
                  (platform.programmes channel.ccid) s)
                (λ s'. search_channels-all channels (i + 1) s'))
      ]

  finished :
      (r : Option (List Programme))
      → NoMore (length (of_task platform.channels)) r
      → length (of_task platform.channels) + below_zero task.count < 2 ^ 31
      → (((r >>= λ ms. add_all to_json ms (start task)) >>= λ s. some (some s)) >>= λ found.
          some (finish task found))
        ≡ (r >>= λ ms. some (
            completed
              (query_id task.query)
              search_status_completed
              (map to_json (limit task.count (skip task.offset ms)))
              task.offset
              (length ms)
            ∷ remove_task (query_id task.query)
            ∷ []))
  unfolding NoMore finish FoundBy
  finished none h room = refl
  finished (some ms) h room = found (add_all to_json ms (start task)) (
      add_all-FoundBy to_json ms task.offset task.count 0 [] (omega (arith, h, room))
        (omega (arith, h, room)))
    where
      found :
          (s : Option Search)
          → FoundBy to_json (start task) ms s
          → ((s >>= λ s'. some (some s')) >>= λ o. some (finish task o))
            ≡ some (
                completed
                  (query_id task.query)
                  search_status_completed
                  (map to_json (limit task.count (skip task.offset ms)))
                  task.offset
                  (length ms)
                ∷ remove_task (query_id task.query)
                ∷ [])
      found none k = elim k [ ]
      found (some s') (total, results) =
          ap
            (λ n. some (
              completed (query_id task.query) search_status_completed s'.results task.offset n
              ∷ remove_task (query_id task.query)
              ∷ []))
            (omega (arith, total))
          ∙ ap
              (λ rs. some (
                completed (query_id task.query) search_status_completed rs task.offset (length ms)
                ∷ remove_task (query_id task.query)
                ∷ []))
              results

  pub worker-page :
      length (of_task platform.channels) + below_zero task.count < 2 ^ 31
      → worker stol to_json task (some platform) cancelled ≡ (
          matches stol task.query (of_task platform.channels) >>= λ ms. some (
            completed
              (query_id task.query)
              search_status_completed
              (map to_json (limit task.count (skip task.offset ms)))
              task.offset
              (length ms)
            ∷ remove_task (query_id task.query)
            ∷ []))
  unfolding worker
  worker-page room =
      rw
        (
          runs 0,
          search_channels-all platform.channels 1 (start task),
          search_all-matches stol to_json task.query (of_task platform.channels) (start task),
        )
        (finished (matches stol task.query (of_task platform.channels))
          (matches-NoMore stol task.query (of_task platform.channels)) room)
