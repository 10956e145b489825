-- ===== src/XmlAit/Table/Applications.antt =====
-- Which elements of an XML AIT become the applications of its table.
use orb_private.Prelude.{
  ℕ, ◌+◌, ◌%◌, ◌^◌, ◌≡◌, ◌∙◌, refl, sym, Bool, true, false, Option, none, some, List, [], ◌∷◌, ◌++◌,
  Text, codes, text_eq, if◌then◌else◌, ◌>>=◌, length, Bool-cases, inl, inr, arith,
}
use orb_private.Ait.{AitAppDesc}
use orb_private.XmlAit.{Node, element, leaf, Nodes, nil, cons, each, walk}
use orb_private.XmlAit.Table.{count_application, count_list, count_discovery, count_applications}

-- The lists that a function gives for the elements with a name, one after another.
unfoldable pub named : Text → (Nodes → List Nodes) → Nodes → List Nodes
named n f nil = []
named n f (cons (leaf c) nodes) = named n f nodes
named n f (cons (element name attributes children) nodes) =
    let rest = named n f nodes in if text_eq name n then f children ++ rest else rest

-- The children of the Application elements of the document, in its order.
unfoldable pub applications : Nodes → List Nodes
applications =
    named (codes "ApplicationDiscovery")
      (named (codes "ApplicationList") (named (codes "Application") (λ children. children ∷ [])))

-- A step for each element of a list.
unfoldable pub fold {ℓ} : {A : Type ℓ} → (Nodes → A → Option A) → List Nodes → A → Option A
fold step [] a = some a
fold step (x ∷ xs) a = do a' ← step x a; fold step xs a'

-- A function of each element of a list, if it has a value for all of them.
unfoldable pub traverse : (Nodes → Option AitAppDesc) → List Nodes → Option (List AitAppDesc)
traverse f [] = some []
traverse f (x ∷ xs) = do y ← f x; ys ← traverse f xs; some (y ∷ ys)

module _ {ℓ} {A : Type ℓ} where
  bind_assoc : (m : Option A) (f g : A → Option A) → ((m >>= f) >>= g) ≡ (m >>= λ a. f a >>= g)
  bind_assoc none f g = refl
  bind_assoc (some a) f g = refl

  bind_ext : (m : Option A) {f g : A → Option A} → ((a : A) → f a ≡ g a) → (m >>= f) ≡ (m >>= g)
  bind_ext none h = refl
  bind_ext (some a) h = h a

  fold-append :
      (step : Nodes → A → Option A) (xs ys : List Nodes) (a : A)
      → fold step (xs ++ ys) a ≡ (fold step xs a >>= fold step ys)
  unfolding fold
  fold-append step [] ys a = refl
  fold-append step (x ∷ xs) ys a =
      bind_ext (step x a) (λ a'. fold-append step xs ys a')
      ∙ sym (bind_assoc (step x a) (fold step xs) (fold step ys))

  -- A loop that visits the elements with a name, as the steps for them.
  pub each-named :
      (n : Text) (f : Nodes → List Nodes) (visit : Node → A → Option A)
      (body step : Nodes → A → Option A)
      → ((c : Option Text) (a : A) → visit (leaf c) a ≡ some a)
      → ((name : Text) (attributes : _) (children : Nodes) (a : A)
          → visit (element name attributes children) a
            ≡ (if text_eq name n then body children a else some a))
      → ((children : Nodes) (a : A) → body children a ≡ fold step (f children) a)
      → (nodes : Nodes) (a : A) → each visit nodes a ≡ fold step (named n f nodes) a
  unfolding each named fold
  each-named n f visit body step leaves elements bodies nil a = refl
  each-named n f visit body step leaves elements bodies (cons (leaf c) nodes) a =
      rw (leaves c a) (each-named n f visit body step leaves elements bodies nodes a)
  each-named n f visit body step leaves elements bodies
        (cons (element name attributes children) nodes) a =
      elim (Bool-cases (text_eq name n)) [
        | inl e ↦
            rw (elements name attributes children a, e, bodies children a)
              (bind_ext (fold step (f children) a)
                  (λ a'. each-named n f visit body step leaves elements bodies nodes a')
                ∙ sym (fold-append step (f children) (named n f nodes) a))
        | inr e ↦
            rw (elements name attributes children a, e)
              (each-named n f visit body step leaves elements bodies nodes a)
      ]

some-if {ℓ} :
    {A : Type ℓ} (b : Bool) (x y : A) → some (if b then x else y) ≡ (if b then some x else some y)
some-if true x y = refl
some-if false x y = refl

each-walk {ℓ} :
    {A : Type ℓ} (visit : Node → A → A) (nodes : Nodes) (a : A)
    → each (λ node a'. some (visit node a')) nodes a ≡ some (walk visit nodes a)
unfolding each walk
each-walk visit nil a = refl
each-walk visit (cons node nodes) a = each-walk visit nodes (visit node a)

-- The counter.
count_step : Nodes → ℕ → Option ℕ
count_step children count = some ((count + 1) % 2 ^ 32)

walk_list :
    (nodes : Nodes) (count : ℕ)
    → some (walk count_application nodes count)
      ≡ fold count_step (named (codes "Application") (λ children. children ∷ []) nodes) count
unfolding count_application count_step fold
walk_list nodes count =
    sym (each-walk count_application nodes count)
    ∙ each-named (codes "Application") (λ children. children ∷ [])
        (λ node k. some (count_application node k)) count_step count_step (λ c k. refl)
        (λ name attributes children k.
          some-if (text_eq name (codes "Application")) ((k + 1) % 2 ^ 32) k)
        (λ children k. refl) nodes count

walk_discovery :
    (nodes : Nodes) (count : ℕ)
    → some (walk count_list nodes count)
      ≡ fold count_step
          (named
            (codes "ApplicationList")
            (named (codes "Application") (λ children. children ∷ []))
            nodes)
          count
unfolding count_list
walk_discovery nodes count =
    sym (each-walk count_list nodes count)
    ∙ each-named (codes "ApplicationList") (named (codes "Application") (λ children. children ∷ []))
        (λ node k. some (count_list node k))
        (λ children k. some (walk count_application children k)) count_step (λ c k. refl)
        (λ name attributes children k.
          some-if (text_eq name (codes "ApplicationList")) (walk count_application children k) k)
        walk_list nodes count

walk_root :
    (nodes : Nodes) → some (count_applications nodes) ≡ fold count_step (applications nodes) 0
unfolding count_applications count_discovery applications
walk_root nodes =
    sym (each-walk count_discovery nodes 0)
    ∙ each-named (codes "ApplicationDiscovery")
        (named (codes "ApplicationList") (named (codes "Application") (λ children. children ∷ [])))
        (λ node k. some (count_discovery node k)) (λ children k. some (walk count_list children k))
        count_step (λ c k. refl)
        (λ name attributes children k.
          some-if (text_eq name (codes "ApplicationDiscovery")) (walk count_list children k) k)
        walk_discovery nodes 0

fold-count :
    (xs : List Nodes) (count : ℕ)
    → (k : ℕ) × (fold count_step xs count ≡ some k) × (k % 2 ^ 8 ≡ (count + length xs) % 2 ^ 8)
unfolding fold count_step
fold-count [] count = (count, refl, omega arith)
fold-count (x ∷ xs) count =
    let (k, e, h) = fold-count xs ((count + 1) % 2 ^ 32) in (k, e, omega arith)

-- XmlCountApplications, as far as the table keeps it.
pub count_applications-length :
    (nodes : Nodes) → count_applications nodes % 2 ^ 8 ≡ length (applications nodes) % 2 ^ 8
count_applications-length nodes =
    let (k, e, h) = fold-count (applications nodes) 0 in
    let same : count_applications nodes ≡ k = cc (walk_root nodes, e) in rw same (omega (arith, h))
