-- ===== src/Prelude/Reflection.antt =====
-- Tests that say whether a proposition holds.
use mathlib.Core.Path.{◌≡◌, refl, sym, ap, ◌∙◌}
use mathlib.Core.Logic.{◌⊎◌, inl, inr, ◌↔◌}
use mathlib.Core.Bool.{Bool, true, false, not, ◌&&◌, ◌||◌}
use orb_private.Prelude.Strings.{Text, text_eq, text_eq_refl, text_eq_sound}

-- A test says whether a proposition holds.
abbrev pub Reflects : Bool → Type 0 → Type 0
Reflects b P = (b ≡ true) ↔ P

pub Reflects-not : (a : Bool) {P : Type 0} → Reflects a P → Reflects (not a) (P → ⊥)
Reflects-not true p = (λ h. cc, λ h. absurd (h (p.0 refl)))
Reflects-not false p = (λ h k. cc (p.1 k), λ h. refl)

pub Reflects-and :
    (a b : Bool) {P Q : Type 0} → Reflects a P → Reflects b Q → Reflects (a && b) (P × Q)
Reflects-and true b p q = (λ h. (p.0 refl, q.0 h), λ h. q.1 h.1)
Reflects-and false b p q = (λ h. cc, λ h. p.1 h.0)

pub Reflects-or :
    (a b : Bool) {P Q : Type 0} → Reflects a P → Reflects b Q → Reflects (a || b) (P ⊎ Q)
Reflects-or true b p q = (λ h. inl (p.0 refl), λ h. refl)
Reflects-or false b p q = (λ h. inr (q.0 h), elim [ inl h ↦ absurd (cc (p.1 h)) | inr h ↦ q.1 h ])

pub text_eq-Reflects : (s t : Text) → Reflects (text_eq s t) (s ≡ t)
text_eq-Reflects s t = (text_eq_sound s t, λ e. ap (text_eq s) (sym e) ∙ text_eq_refl s)
