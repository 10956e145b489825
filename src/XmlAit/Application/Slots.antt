-- ===== src/XmlAit/Application/Slots.antt =====
-- An application of an XML AIT, and the transports that its elements name.
use orb_private.Prelude.{
  ℕ, zero, suc, ◌-◌, ◌≤◌, ◌≡◌, ◌∙◌, refl, sym, ap, true, Option, none, some, List, [], ◌∷◌, ◌++◌,
  map, append_assoc, append-nil, Text, text_eq, text_eq_sound, replicate, ◌>>=◌, length, Bool-cases,
  inl, inr, arith,
}
use orb_private.Ait.{
  LangString, TransportProtocolDesc, AppProfile, AitAppDesc, zero_app, zero_transport,
}
use orb_private.XmlAit.{Attribute, element, leaf, Nodes, nil, cons, each, walk}
use orb_private.XmlAit.Application.{
  zero_name, resize, alloc_child, alloc_application, parse_app_transport, application_child,
  parse_application,
}
use orb_private.XmlAit.Application.Transports.{
  protocol, protocols, slots, slots-none, slots-length, id_of, Stepped, parse_app_transport-Stepped,
}
use orb_private.XmlAit.Application.Names.{LanguagesFit, NamesFit}
use orb_private.XmlAit.Application.Kept.{
  transport_name, Kept-some, application_child-Kept, application_child-transport,
}
use orb_private.XmlAit.Application.Counter.{alloc-count}

-- The counter of the transports and the protocols in the slots of an application that is parsed.
abbrev pub held : Option AitAppDesc → Option (ℕ × List ℕ)
held none = none
held (some app) = some (app.num_transports, map id_of app.transport_array)

-- What they must be.
abbrev pub expected : ℕ → Option (List ℕ) → Option (ℕ × List ℕ)
expected n none = none
expected n (some ids) = some (n, ids)

module _ (indeterminate : AppProfile) where
  -- The rest of an application after a transport element.
  after-transport :
      (app : AitAppDesc) (nodes : Nodes) (seen ps : List ℕ) (p : ℕ)
      (r : Option (List TransportProtocolDesc))
      → Stepped (seen ++ p ∷ []) r
      → ((t' u' : TransportProtocolDesc)
          → slots (seen ++ p ∷ []) ≡ some (t'.protocol_id ∷ u'.protocol_id ∷ [])
          → held (
              each
                (application_child indeterminate)
                nodes
                (record app { transport_array = t' ∷ u' ∷ [] }))
            ≡ expected app.num_transports (slots ((seen ++ p ∷ []) ++ ps)))
      → held (
          (r >>= λ transport_array. some (record app { transport_array = transport_array }))
          >>= each (application_child indeterminate) nodes)
        ≡ expected app.num_transports (slots (seen ++ p ∷ ps))
  unfolding Stepped
  after-transport app nodes seen ps p none stepped rest = ap (expected app.num_transports) (
      sym (ap slots (sym (append_assoc seen (p ∷ []) ps)) ∙ slots-none (seen ++ p ∷ []) ps stepped))
  after-transport app nodes seen ps p (some trns) (t', u', same, taken) rest =
      rw (same, sym (append_assoc seen (p ∷ []) ps)) (rest t' u' taken)

  transport-child :
      (name : Text) (attributes : List Attribute) (children : Nodes) (app : AitAppDesc)
      (t u : TransportProtocolDesc)
      → text_eq name transport_name ≡ true
      → app.transport_array ≡ t ∷ u ∷ []
      → application_child indeterminate (element name attributes children) app ≡ (
          parse_app_transport attributes children (t ∷ u ∷ []) >>= λ transport_array.
          some (record app { transport_array = transport_array }))
  transport-child name attributes children app t u e two =
      ap (λ s. application_child indeterminate (element s attributes children) app)
        (text_eq_sound name transport_name e)
      ∙ application_child-transport indeterminate attributes children app
      ∙ ap
          (λ trns. parse_app_transport attributes children trns >>= λ transport_array.
            some (record app { transport_array = transport_array }))
          two

  each-held :
      (nodes : Nodes) (app : AitAppDesc) (seen : List ℕ) (t u : TransportProtocolDesc)
      → LanguagesFit nodes
      → NamesFit app.app_name
      → app.transport_array ≡ t ∷ u ∷ []
      → slots seen ≡ some (t.protocol_id ∷ u.protocol_id ∷ [])
      → held (each (application_child indeterminate) nodes app)
        ≡ expected app.num_transports (slots (seen ++ protocols nodes))
  unfolding each protocols LanguagesFit application_child
  each-held nil app seen t u languages fit two taken = rw (append-nil seen, taken, two) refl
  each-held (cons (leaf c) nodes) app seen t u languages fit two taken =
      each-held nodes app seen t u languages fit two taken
  each-held (cons (element name attributes children) nodes) app seen t u languages fit two taken =
      elim (Bool-cases (text_eq name transport_name)) [
        | inl e ↦
            rw (e, transport-child name attributes children app t u e two)
              (after-transport app nodes seen (protocols nodes) (protocol attributes)
                (parse_app_transport attributes children (t ∷ u ∷ []))
                (parse_app_transport-Stepped attributes children t u seen taken)
                (λ t' u' taken'.
                  each-held nodes (record app { transport_array = t' ∷ u' ∷ [] })
                    (seen ++ protocol attributes ∷ []) t' u' languages.1 fit refl taken'))
        | inr e ↦
            (let (app', parsed, same, count, fit') =
                Kept-some app
                  (application_child indeterminate (element name attributes children) app)
                  (application_child-Kept indeterminate attributes children app name e languages.0
                    fit) in
              rw (e, parsed)
                (each-held nodes app' seen t u languages.1 fit' (same ∙ two) taken
                  ∙ ap (λ n. expected n (slots (seen ++ protocols nodes))) count))
      ]

length-replicate : (n : ℕ) (l : LangString) → length (replicate n l) ≡ n
length-replicate zero l = refl
length-replicate (suc n) l = ap suc (length-replicate n l)

resize-NamesFit : (n : ℕ) → n ≤ length (resize n zero_name [])
resize-NamesFit zero = omega arith
resize-NamesFit (suc n) = omega (arith, length-replicate (suc n - 0) zero_name)

-- Where the Language attributes have two bytes or more, an application is parsed exactly if its
-- transport elements name protocols that are known and different from one another, of which there
-- are two at most; its slots then have these protocols, in the order of the elements and with 0 behind
-- them, and its counter of transports is their number.
pub parse_application-slots :
    (indeterminate : AppProfile) (nodes : Nodes)
    → LanguagesFit nodes
    → held (parse_application indeterminate nodes (alloc_application nodes zero_app))
      ≡ expected (length (protocols nodes)) (slots (protocols nodes))
unfolding parse_application alloc_application slots
parse_application-slots indeterminate nodes languages =
    each-held indeterminate nodes (alloc_application nodes zero_app) [] zero_transport
      zero_transport languages (resize-NamesFit (walk alloc_child nodes (0, 0)).0) refl refl
    ∙ counted (slots (protocols nodes)) refl
  where
    counted :
        (o : Option (List ℕ))
        → o ≡ slots (protocols nodes)
        → expected (walk alloc_child nodes (0, 0)).1 o ≡ expected (length (protocols nodes)) o
    counted none h = refl
    counted (some ids) h =
        ap (λ n. some (n, ids))
          (omega
            (arith, alloc-count nodes (0, 0) (omega arith), slots-length (protocols nodes) (sym h)))
