-- ===== src/XmlAit/Application/Counter.antt =====
-- How many transports an application in an XML AIT has.
use orb_private.Prelude.{
  ℕ, ◌+◌, ◌%◌, ◌^◌, ◌<◌, ◌≡◌, ◌∙◌, refl, ap, Bool, true, false, ◌&&◌, List, Text, codes, text_eq,
  text_eq_sound, starts_with, drop, if◌then◌else◌, length, Bool-cases, inl, inr, arith,
}
use orb_private.XmlAit.{Attribute, element, leaf, Nodes, nil, cons, walk}
use orb_private.XmlAit.Application.{has_content, alloc_child}
use orb_private.XmlAit.Application.Transports.{protocols}
use orb_private.XmlAit.Application.Kept.{text_eq-append, transport_name}

second-if :
    (b : Bool) (n : ℕ) (x y : ℕ)
    → (if◌then◌else◌ {A = ℕ × ℕ} b (n, x) (n, y)).1 ≡ (if b then x else y)
second-if true n x y = refl
second-if false n x y = refl

app_name_is_no_transport : text_eq (codes "appName") transport_name ≡ false
unfolding text_eq
app_name_is_no_transport = refl

alloc_child-element :
    (name : Text) (attributes : List Attribute) (children : Nodes) (counted : ℕ × ℕ)
    → (alloc_child (element name attributes children) counted).1
      ≡ (if text_eq name transport_name then (counted.1 + 1) % 2 ^ 8 else counted.1)
unfolding alloc_child
alloc_child-element name attributes children (n, k) =
    elim (Bool-cases (text_eq name (codes "appName"))) [
      | inl e ↦
          (let other : text_eq name transport_name ≡ false =
              ap (λ s. text_eq s transport_name) (text_eq_sound name (codes "appName") e)
              ∙ app_name_is_no_transport in
            rw (e, other) (second-same (has_content children)))
      | inr e ↦
          rw (e, text_eq-append name (codes "application") (codes "Transport"))
            (second-if
              (starts_with name (codes "application") && text_eq (drop 11 name) (codes "Transport"))
              n ((k + 1) % 2 ^ 8) k)
    ]
  where
    second-same : (b : Bool) → (if◌then◌else◌ {A = ℕ × ℕ} b ((n + 1) % 2 ^ 8, k) (n, k)).1 ≡ k
    second-same true = refl
    second-same false = refl

-- The counter of XmlAllocApplication.
pub alloc-count :
    (nodes : Nodes) (counted : ℕ × ℕ)
    → counted.1 < 256
    → (walk alloc_child nodes counted).1 ≡ (counted.1 + length (protocols nodes)) % 2 ^ 8
unfolding walk protocols alloc_child
alloc-count nil counted small = omega (arith, small)
alloc-count (cons (leaf c) nodes) counted small = alloc-count nodes counted small
alloc-count (cons (element name attributes children) nodes) counted small =
    let this = alloc_child-element name attributes children counted in
    let rest = alloc-count nodes (alloc_child (element name attributes children) counted) in
    elim (Bool-cases (text_eq name transport_name)) [
      | inl e ↦
          (let one : (alloc_child (element name attributes children) counted).1
                ≡ (counted.1 + 1) % 2 ^ 8 =
              cc (this, e) in
            rw e (omega (arith, one, rest (omega (arith, one)))))
      | inr e ↦
          (let none_more : (alloc_child (element name attributes children) counted).1 ≡ counted.1 =
              cc (this, e) in
            rw e (omega (arith, none_more, rest (omega (arith, none_more, small)))))
    ]
