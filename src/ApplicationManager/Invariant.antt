-- ===== src/ApplicationManager/Invariant.antt =====
-- The invariant of the running applications, and the rules for what holds after an action.
pub mod Ownership
pub mod Steps
pub mod Starting
pub mod Updating
pub mod Tables
pub mod Operations
pub mod Requests
use orb_private.Prelude.{
  ℕ, ◌≤◌, ◌≡◌, ◌≢◌, refl, ◌⊎◌, inl, inr, Bool, true, false, Option, none, some, List, [], ◌∷◌,
  if◌then◌else◌, Option-cases,
}
use orb_private.ApplicationManager.{
  App, Apps, base, is_op_app, lookup, ApplicationManager, Action, pure, lift, when, or_else, ◌>>=◌,
  ◌>>◌,
}

-- What is known of the application with an id, given the two ids that are in use and the last one.
abbrev pub Entry : ℕ → ℕ → ℕ → ℕ → Option App → Type 0
Entry hbbtv op last k none = Unit
Entry hbbtv op last k (some a) =
    ((base a).id ≡ k) × (k ≢ 0) × (k ≤ last) × ((if is_op_app a then op else hbbtv) ≡ k)

-- A slot holds no id, or that of a running application of its class.
abbrev pub IsSlot : Apps → Bool → ℕ → Type 0
IsSlot apps is_op k = (k ≡ 0) ⊎ ((a : App) × (lookup k apps ≡ some a) × (is_op_app a ≡ is_op))

-- Every running application has its own id, which has been given out, and stands in the slot of its
-- class; so there is at most one HbbTV application and at most one operator application.
pub record Owned (apps : Apps) (hbbtv op last : ℕ) : Type 0 where
  pub entries : (k : ℕ) → Entry hbbtv op last k (lookup k apps)
  pub hbbtv_slot : IsSlot apps false hbbtv
  pub op_slot : IsSlot apps true op

abbrev pub IsValid : ApplicationManager → Type 0
IsValid m = Owned m.apps m.hbbtv_app_id m.op_app_id m.last_id

-- A property of the result and the state, where there is no fault.
abbrev pub Holds :
    {A : Type 0} → (A → ApplicationManager → Type 0) → Option (A × ApplicationManager) → Type 0
Holds R none = Unit
Holds R (some (a, m)) = R a m

abbrev pub After :
    {A : Type 0} → (A → ApplicationManager → Type 0) → Action A → ApplicationManager → Type 0
After R act m = Holds R (act m)

-- An action that keeps a property of the state.
abbrev pub Keeps : {A : Type 0} → (ApplicationManager → Type 0) → Action A → Type 0
Keeps P act = (m : ApplicationManager) → P m → After (λ _. P) act m

module _ {A B : Type 0} (S : A → ApplicationManager → Type 0)
    (R : B → ApplicationManager → Type 0) where
  Holds-bind :
      (f : A → Action B) (r : Option (A × ApplicationManager))
      → Holds S r
      → ((a : A) (m : ApplicationManager) → S a m → After R (f a) m)
      → Holds R (elim r [ none ↦ none | some (a, m) ↦ f a m ])
  Holds-bind f none h k = tt
  Holds-bind f (some (a, m)) h k = k a m h

  pub After-bind :
      (act : Action A) (f : A → Action B) (m : ApplicationManager)
      → After S act m
      → ((a : A) (m' : ApplicationManager) → S a m' → After R (f a) m')
      → After R (act >>= f) m
  After-bind act f m h k = Holds-bind f (act m) h k

module _ {A B : Type 0} (R : B → ApplicationManager → Type 0) where
  -- A value that is read or computed: the state stays, and the value is kept with its equation.
  pub After-lift :
      (o : Option A) (f : A → Action B) (m : ApplicationManager)
      → ((a : A) → o ≡ some a → After R (f a) m)
      → After R (lift o >>= f) m
  After-lift none f m k = tt
  After-lift (some a) f m k = k a refl

  pub After-or_else :
      (o : Option A) (missing : Action B) (present : A → Action B) (m : ApplicationManager)
      → (o ≡ none → After R missing m)
      → ((a : A) → o ≡ some a → After R (present a) m)
      → After R (or_else o missing present) m
  After-or_else none missing present m n s = n refl
  After-or_else (some a) missing present m n s = s a refl

pub After-if :
    {A : Type 0} (R : A → ApplicationManager → Type 0) (c : Bool) (act other : Action A)
    (m : ApplicationManager)
    → (c ≡ true → After R act m)
    → (c ≡ false → After R other m)
    → After R (if c then act else other) m
After-if R true act other m t f = t refl
After-if R false act other m t f = f refl
