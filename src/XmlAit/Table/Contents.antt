-- ===== src/XmlAit/Table/Contents.antt =====
-- The array that an XML AIT is parsed into, against the list of its Application elements.
use orb_private.Prelude.{
  ℕ, zero, suc, ◌+◌, ◌%◌, ◌^◌, ◌≤◌, ◌<◌, ◌≡◌, ◌∙◌, refl, sym, ap, Option, none, some, List, [], ◌∷◌,
  ◌++◌, append_assoc, append-nil, codes, ◌>>=◌, get_elem?, set, replicate, length, length-append,
  Option-cases, inl, inr, arith,
}
use orb_private.Ait.{AppProfile, AitAppDesc, AitTable, zero_app, zero_table}
use orb_private.XmlAit.{Nodes, each}
use orb_private.XmlAit.Application.{alloc_application, parse_application}
use orb_private.XmlAit.Table.{
  app_typ_xml, count_applications, new_table, visit_application, visit_list, visit_discovery,
  parse_applications, parse_root,
}
use orb_private.XmlAit.Table.Applications.{
  named, applications, fold, traverse, each-named, count_applications-length,
}

get_elem?-append {ℓ} :
    {A : Type ℓ} (xs : List A) (y : A) (ys : List A) → get_elem? (xs ++ y ∷ ys) (length xs) ≡ some y
get_elem?-append [] y ys = refl
get_elem?-append (x ∷ xs) y ys = get_elem?-append xs y ys

set-append {ℓ} :
    {A : Type ℓ} (xs : List A) (y z : A) (ys : List A)
    → set (xs ++ y ∷ ys) (length xs) z ≡ xs ++ z ∷ ys
set-append [] y z ys = refl
set-append (x ∷ xs) y z ys = ap (◌∷◌ x) (set-append xs y z ys)

get_elem?-length {ℓ} : {A : Type ℓ} (xs : List A) → get_elem? xs (length xs) ≡ none
get_elem?-length [] = refl
get_elem?-length (x ∷ xs) = get_elem?-length xs

length-replicate {ℓ} : {A : Type ℓ} (n : ℕ) (a : A) → length (replicate n a) ≡ n
length-replicate zero a = refl
length-replicate (suc n) a = ap suc (length-replicate n a)

bind_some {ℓ} : {A : Type ℓ} (m : Option A) → (m >>= λ a. some a) ≡ m
bind_some none = refl
bind_some (some a) = refl

-- The table with an array of applications.
abbrev pub table_of : ℕ → List AitAppDesc → AitTable
table_of num_apps app_array = record zero_table {
  app_type = app_typ_xml;
  num_apps = num_apps;
  app_array = app_array;
}

module _ (indeterminate : AppProfile) where
  -- An application by itself.
  unfoldable pub parse_new : Nodes → Option AitAppDesc
  parse_new children =
      parse_application indeterminate children (alloc_application children zero_app)

  -- What XmlParseApplications does for an Application element.
  parse_step : Nodes → ℕ × List AitAppDesc → Option (ℕ × List AitAppDesc)
  parse_step children (index, app_array) = do
    app ← get_elem? app_array index
    app' ← parse_application indeterminate children (alloc_application children app)
    some ((index + 1) % 2 ^ 32, set app_array index app')

  each_list :
      (nodes : Nodes) (s : ℕ × List AitAppDesc)
      → each (visit_application indeterminate) nodes s
        ≡ fold parse_step (named (codes "Application") (λ children. children ∷ []) nodes) s
  unfolding visit_application parse_step fold
  each_list =
      each-named (codes "Application") (λ children. children ∷ []) (visit_application indeterminate)
        parse_step parse_step (λ c s. refl) (λ name attributes children s. refl)
        (λ children s. sym (bind_some (parse_step children s)))

  each_discovery :
      (nodes : Nodes) (s : ℕ × List AitAppDesc)
      → each (visit_list indeterminate) nodes s
        ≡ fold parse_step
            (named
              (codes "ApplicationList")
              (named (codes "Application") (λ children. children ∷ []))
              nodes)
            s
  unfolding visit_list
  each_discovery =
      each-named (codes "ApplicationList") (named (codes "Application") (λ children. children ∷ []))
        (visit_list indeterminate) (λ children s. each (visit_application indeterminate) children s)
        parse_step (λ c s. refl) (λ name attributes children s. refl) each_list

  each_root :
      (nodes : Nodes) (s : ℕ × List AitAppDesc)
      → each (visit_discovery indeterminate) nodes s ≡ fold parse_step (applications nodes) s
  unfolding visit_discovery applications
  each_root =
      each-named (codes "ApplicationDiscovery")
        (named (codes "ApplicationList") (named (codes "Application") (λ children. children ∷ [])))
        (visit_discovery indeterminate) (λ children s. each (visit_list indeterminate) children s)
        parse_step (λ c s. refl) (λ name attributes children s. refl) each_discovery

  -- The array without the index.
  abbrev array_of : Option (ℕ × List AitAppDesc) → Option (List AitAppDesc)
  array_of none = none
  array_of (some s) = some s.1

  -- The state after a round.
  abbrev written : ℕ → List AitAppDesc → List AitAppDesc → AitAppDesc → ℕ × List AitAppDesc
  written i done rest app = ((i + 1) % 2 ^ 32, (done ++ app ∷ []) ++ rest)

  -- One round: the element at the index is a new one, and the application is written there.
  parse_step-fresh :
      (x : Nodes) (done rest : List AitAppDesc) (i : ℕ)
      → i ≡ length done
      → parse_step x (i, done ++ zero_app ∷ rest)
        ≡ (parse_new x >>= λ app. some (written i done rest app))
  unfolding parse_step parse_new
  parse_step-fresh x done rest i h =
      rw (h, get_elem?-append done zero_app rest)
        (stored (parse_application indeterminate x (alloc_application x zero_app)))
    where
      stored :
          (parsed : Option AitAppDesc)
          → ◌>>=◌ {B = ℕ × List AitAppDesc} parsed (λ app.
            some ((length done + 1) % 2 ^ 32, set (done ++ zero_app ∷ rest) (length done) app))
            ≡ (parsed >>= λ app. some (written (length done) done rest app))
      stored none = refl
      stored (some app) =
          rw (set-append done zero_app app rest, append_assoc done (app ∷ []) rest) refl

  joined :
      (done : List AitAppDesc) (app : AitAppDesc) (parsed : Option (List AitAppDesc))
      → (parsed >>= λ apps. some ((done ++ app ∷ []) ++ apps))
        ≡ ((do ys ← parsed; some (app ∷ ys)) >>= λ apps. some (done ++ apps))
  joined done app none = refl
  joined done app (some apps) = rw (append_assoc done (app ∷ []) apps) refl

  fold-parse_step :
      (xs : List Nodes) (done : List AitAppDesc) (i : ℕ)
      → i ≡ length done
      → i + length xs < 2 ^ 32
      → array_of (fold parse_step xs (i, done ++ replicate (length xs) zero_app))
        ≡ (traverse parse_new xs >>= λ apps. some (done ++ apps))
  unfolding fold traverse
  fold-parse_step [] done i h small = refl
  fold-parse_step (x ∷ xs) done i h small =
      let first = parse_step-fresh x done (replicate (length xs) zero_app) i h in
      elim (Option-cases (parse_new x)) [
        | inl e ↦ rw (first, e) refl
        | inr (app, e) ↦
            rw (first, e)
              (fold-parse_step xs (done ++ app ∷ []) ((i + 1) % 2 ^ 32)
                  (omega (arith, h, length-append done (app ∷ []))) (omega (arith, small))
                ∙ joined done app (traverse parse_new xs))
      ]

  parse_step-behind :
      (x : Nodes) (done : List AitAppDesc) (i : ℕ)
      → i ≡ length done
      → parse_step x (i, done ++ []) ≡ none
  unfolding parse_step
  parse_step-behind x done i h = rw (h, append-nil done, get_elem?-length done) refl

  -- With fewer elements than applications, a write is behind the array.
  fold-parse_step-overrun :
      (xs : List Nodes) (k : ℕ) (done : List AitAppDesc) (i : ℕ)
      → i ≡ length done
      → i + k < 2 ^ 32
      → k < length xs
      → fold parse_step xs (i, done ++ replicate k zero_app) ≡ none
  unfolding fold
  fold-parse_step-overrun [] k done i h small long = elim long [ ]
  fold-parse_step-overrun (x ∷ xs) zero done i h small long = rw (parse_step-behind x done i h) refl
  fold-parse_step-overrun (x ∷ xs) (suc k) done i h small long =
      let first = parse_step-fresh x done (replicate k zero_app) i h in
      elim (Option-cases (parse_new x)) [
        | inl e ↦ rw (first, e) refl
        | inr (app, e) ↦
            rw (first, e)
              (fold-parse_step-overrun xs k (done ++ app ∷ []) ((i + 1) % 2 ^ 32)
                (omega (arith, h, small, length-append done (app ∷ []))) (omega (arith, small))
                (omega (arith, long)))
      ]

  parse_applications-fold :
      (nodes : Nodes) (app_array : List AitAppDesc)
      → parse_applications indeterminate nodes app_array
        ≡ array_of (fold parse_step (applications nodes) (0, app_array))
  unfolding parse_applications
  parse_applications-fold nodes app_array =
      rw (each_root nodes (0, app_array))
        (same (fold parse_step (applications nodes) (0, app_array)))
    where
      same :
          (r : Option (ℕ × List AitAppDesc))
          → (do (index, app_array') ← r; some app_array') ≡ array_of r
      same none = refl
      same (some s) = refl

  -- For a document with fewer than 256 Application elements, XmlParser::ParseAit does for the elements,
  -- wherever they stand in the lists of its ApplicationDiscovery elements, what parsing each of
  -- them into a new application does: it has a table if all of them are parsed, with the
  -- applications in the order of the document and their number.
  pub parse_root-applications :
      (nodes : Nodes)
      → length (applications nodes) < 256
      → parse_root indeterminate nodes ≡ (
          traverse parse_new (applications nodes) >>= λ apps.
          some (table_of (length (applications nodes)) apps))
  unfolding parse_root new_table
  parse_root-applications nodes small =
      let count : count_applications nodes % 2 ^ 8 ≡ length (applications nodes) =
        omega (arith, count_applications-length nodes, small) in
      rw
        (
          count,
          parse_applications-fold nodes (replicate (length (applications nodes)) zero_app),
          fold-parse_step (applications nodes) [] 0 refl (omega (arith, small)),
        )
        (relabelled (traverse parse_new (applications nodes)))
    where
      relabelled :
          (parsed : Option (List AitAppDesc))
          → ((parsed >>= λ apps. some apps) >>= λ apps.
              some (table_of (length (applications nodes)) apps))
            ≡ (parsed >>= λ apps. some (table_of (length (applications nodes)) apps))
      relabelled none = refl
      relabelled (some apps) = refl

  -- For a document with 256 Application elements or more, the number of applications and the length of the
  -- array are their number modulo 256, which is less than the elements are; XmlParseApplications faults on
  -- the elements and this array, and with it XmlParser::ParseAit.
  pub parse_root-overrun :
      (nodes : Nodes)
      → 256 ≤ length (applications nodes)
      → ((new_table nodes).num_apps ≡ length (applications nodes) % 256)
        × (length (new_table nodes).app_array ≡ length (applications nodes) % 256)
        × (length (applications nodes) % 256 < length (applications nodes))
        × (parse_applications indeterminate nodes (new_table nodes).app_array ≡ none)
        × (parse_root indeterminate nodes ≡ none)
  unfolding parse_root new_table
  parse_root-overrun nodes large =
      let k = count_applications nodes % 2 ^ 8 in
      let count : k ≡ length (applications nodes) % 256 =
        omega (arith, count_applications-length nodes) in
      let faults : parse_applications indeterminate nodes (replicate k zero_app) ≡ none =
        parse_applications-fold nodes (replicate k zero_app)
        ∙ ap array_of (
            fold-parse_step-overrun (applications nodes) k [] 0 refl (omega arith)
              (omega (arith, large))) in
      (count, length-replicate k zero_app ∙ count, omega (arith, large), faults, rw faults refl)
