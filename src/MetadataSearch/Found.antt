-- ===== src/MetadataSearch/Found.antt =====
-- What a search makes of the programmes that match.
use orb_private.Prelude.{
  ℕ, zero, suc, ◌+◌, ◌^◌, ◌<◌, ◌≡◌, ◌∙◌, refl, sym, ap, Option, none, some, List, [], ◌∷◌, ◌++◌,
  map, append-nil, append_assoc, Text, if◌then◌else◌, ◌>>=◌, length, take, drop, lt→ltb, arith,
}
use orb_private.MetadataSearch.{ℤ, pos, negsuc, Query, Programme, Channel, match_query}
use orb_private.MetadataSearch.Worker.{Search, add_programme, is_skipped}

-- Without the first programmes, if the offset is positive.
unfoldable pub skip {ℓ} : {A : Type ℓ} → ℤ → List A → List A
skip (pos n) xs = drop n xs
skip (negsuc n) xs = xs

-- At most the count of programmes, if it is not negative.
unfoldable pub limit {ℓ} : {A : Type ℓ} → ℤ → List A → List A
limit (pos n) xs = take n xs
limit (negsuc n) xs = xs

-- The programmes of the channels that are searched, with their channels' ids, in order.
unfoldable pub searched :
    List Text → (Text → List Programme) → List Channel → List (Text × Programme)
searched constraints programmes [] = []
searched constraints programmes (channel ∷ channels) =
    let rest = searched constraints programmes channels in
    if is_skipped constraints channel
    then rest
    else map (λ programme. (channel.ccid, programme)) (programmes channel.ccid) ++ rest

-- How far a number is below zero.
abbrev pub below_zero : ℤ → ℕ
below_zero (pos n) = 0
below_zero (negsuc n) = suc n

module _ (stol : Text → Option ℤ) where
  -- Those that match, if no query fails.
  unfoldable pub matches : Query → List (Text × Programme) → Option (List Programme)
  matches q [] = some []
  matches q ((ccid, programme) ∷ rest) = do
    matched ← match_query stol programme ccid q
    found ← matches q rest
    some (if matched then programme ∷ found else found)

drop_nil : (n : ℕ) → drop {A = Programme} n [] ≡ []
drop_nil zero = refl
drop_nil (suc n) = refl

page_nil : (offset count : ℤ) → limit {A = Programme} count (skip offset []) ≡ []
unfolding limit skip
page_nil (pos n) (pos zero) = refl
page_nil (pos n) (pos (suc k)) = rw (drop_nil n) refl
page_nil (pos n) (negsuc k) = drop_nil n
page_nil (negsuc n) (pos zero) = refl
page_nil (negsuc n) (pos (suc k)) = refl
page_nil (negsuc n) (negsuc k) = refl

module _ (to_json : Programme → Text) where
  -- The programmes that match, one after another.
  unfoldable pub add_all : List Programme → Search → Option Search
  add_all [] s = some s
  add_all (m ∷ ms) s = do s' ← add_programme to_json m s; add_all ms s'

  -- What has been found of some programmes, from a state of the search on.
  unfoldable pub FoundBy : Search → List Programme → Option Search → Type 0
  FoundBy s ms none = ⊥
  FoundBy s ms (some s') =
      (s'.total_size ≡ s.total_size + length ms)
      × (s'.results ≡ s.results ++ map to_json (limit s.count (skip s.offset ms)))

  -- The step for the first programme, and the rest.
  FoundBy-add :
      (s t : Search) (m : Programme) (ms : List Programme)
      → add_programme to_json m s ≡ some t
      → t.total_size ≡ suc s.total_size
      → t.results ++ map to_json (limit t.count (skip t.offset ms))
        ≡ s.results ++ map to_json (limit s.count (skip s.offset (m ∷ ms)))
      → FoundBy t ms (add_all ms t)
      → FoundBy s (m ∷ ms) (add_all (m ∷ ms) s)
  unfolding add_all FoundBy
  FoundBy-add s t m ms e total results found = rw e (later (add_all ms t) found)
    where
      later : (r : Option Search) → FoundBy t ms r → FoundBy s (m ∷ ms) r
      later none k = k
      later (some s') (total', results') = (omega (arith, total, total'), results' ∙ results)

  abbrev at : ℤ → ℤ → ℕ → List Text → Search
  at offset count total results = record {
    offset = offset;
    count = count;
    total_size = total;
    results = results;
  }

  pub add_all-FoundBy :
      (ms : List Programme) (offset count : ℤ) (total : ℕ) (results : List Text)
      → total + length ms < 2 ^ 31
      → below_zero count + length ms < 2 ^ 31
      → FoundBy (at offset count total results) ms (add_all ms (at offset count total results))
  unfolding add_programme skip limit add_all FoundBy
  add_all-FoundBy [] offset count total results h b = (
    omega arith,
    sym (ap (λ ms. results ++ map to_json ms) (page_nil offset count) ∙ append-nil results),
  )
  add_all-FoundBy (m ∷ ms) (pos (suc n)) count total results h b =
      FoundBy-add (at (pos (suc n)) count total results) (at (pos n) count (suc total) results) m ms
        (rw (lt→ltb (suc total) (2 ^ 31) (omega (arith, h))) refl) refl refl
        (add_all-FoundBy ms (pos n) count (suc total) results (omega (arith, h)) (omega (arith, b)))
  add_all-FoundBy (m ∷ ms) (pos zero) (pos zero) total results h b =
      FoundBy-add (at (pos zero) (pos zero) total results)
        (at (pos zero) (pos zero) (suc total) results) m ms
        (rw (lt→ltb (suc total) (2 ^ 31) (omega (arith, h))) refl) refl refl
        (add_all-FoundBy ms (pos zero) (pos zero) (suc total) results (omega (arith, h))
          (omega (arith, b)))
  add_all-FoundBy (m ∷ ms) (pos zero) (pos (suc k)) total results h b =
      FoundBy-add (at (pos zero) (pos (suc k)) total results)
        (at (pos zero) (pos k) (suc total) (results ++ to_json m ∷ [])) m ms
        (rw (lt→ltb (suc total) (2 ^ 31) (omega (arith, h))) refl) refl
        (append_assoc results (to_json m ∷ []) (map to_json (limit (pos k) (skip (pos zero) ms))))
        (add_all-FoundBy ms (pos zero) (pos k) (suc total) (results ++ to_json m ∷ [])
          (omega (arith, h)) (omega (arith, b)))
  add_all-FoundBy (m ∷ ms) (pos zero) (negsuc k) total results h b =
      FoundBy-add (at (pos zero) (negsuc k) total results)
        (at (pos zero) (negsuc (suc k)) (suc total) (results ++ to_json m ∷ [])) m ms
        (rw
          (
            lt→ltb (suc total) (2 ^ 31) (omega (arith, h)),
            lt→ltb (suc k) (2 ^ 31) (omega (arith, b)),
          )
          refl)
        refl
        (append_assoc results (to_json m ∷ [])
          (map to_json (limit (negsuc (suc k)) (skip (pos zero) ms))))
        (add_all-FoundBy ms (pos zero) (negsuc (suc k)) (suc total) (results ++ to_json m ∷ [])
          (omega (arith, h)) (omega (arith, b)))
  add_all-FoundBy (m ∷ ms) (negsuc n) (pos zero) total results h b =
      FoundBy-add (at (negsuc n) (pos zero) total results)
        (at (negsuc n) (pos zero) (suc total) results) m ms
        (rw (lt→ltb (suc total) (2 ^ 31) (omega (arith, h))) refl) refl refl
        (add_all-FoundBy ms (negsuc n) (pos zero) (suc total) results (omega (arith, h))
          (omega (arith, b)))
  add_all-FoundBy (m ∷ ms) (negsuc n) (pos (suc k)) total results h b =
      FoundBy-add (at (negsuc n) (pos (suc k)) total results)
        (at (negsuc n) (pos k) (suc total) (results ++ to_json m ∷ [])) m ms
        (rw (lt→ltb (suc total) (2 ^ 31) (omega (arith, h))) refl) refl
        (append_assoc results (to_json m ∷ []) (map to_json (limit (pos k) (skip (negsuc n) ms))))
        (add_all-FoundBy ms (negsuc n) (pos k) (suc total) (results ++ to_json m ∷ [])
          (omega (arith, h)) (omega (arith, b)))
  add_all-FoundBy (m ∷ ms) (negsuc n) (negsuc k) total results h b =
      FoundBy-add (at (negsuc n) (negsuc k) total results)
        (at (negsuc n) (negsuc (suc k)) (suc total) (results ++ to_json m ∷ [])) m ms
        (rw
          (
            lt→ltb (suc total) (2 ^ 31) (omega (arith, h)),
            lt→ltb (suc k) (2 ^ 31) (omega (arith, b)),
          )
          refl)
        refl
        (append_assoc results (to_json m ∷ [])
          (map to_json (limit (negsuc (suc k)) (skip (negsuc n) ms))))
        (add_all-FoundBy ms (negsuc n) (negsuc (suc k)) (suc total) (results ++ to_json m ∷ [])
          (omega (arith, h)) (omega (arith, b)))
