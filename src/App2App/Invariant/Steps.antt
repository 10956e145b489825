-- ===== src/App2App/Invariant/Steps.antt =====
-- The events keep the invariant.
use orb_private.Prelude.{
  ℕ, ◌≡◌, inl, inr, refl, sym, ap, subst, ◌∙◌, true, none, some, List, [], ◌∷◌, ◌++◌, Text, text_eq,
  text_eq_refl, ==_refl, Bool-cases, Option-cases, is_empty,
}
use orb_private.App2App.{
  Side, other, key, App2App, set_paired, set_waiting, without, pair, unpair, leave, pair_or_wait,
  add_waiting_connection, remove_waiting_connection, connect, disconnect, is_stopped,
}
use orb_private.App2App.Pairing.{clash, opposite, in_front, outside, is_in}
use orb_private.App2App.Equations.{
  queue_cases, pair_or_wait-none, pair_or_wait-some, shrinks, without_shrinks, absent, leave-none,
  leave-some, Frames,
}
use orb_private.App2App.Invariant.{endpoint, Partners, Queues, OneSided, IsValid, Unknown}
use orb_private.App2App.Invariant.Pairs.{pair-Partners, unpair-Partners}
use orb_private.App2App.Invariant.Waits.{
  left, pair-Queues, unpair-Queues, OneSided-shrink, OneSided-add, add-Queues, remove-Queues,
}

module _ (side : ℕ → Side) (uri : ℕ → Text) where
  IsValid-waiting :
      (c : ℕ) (st : App2App)
      → Unknown side (endpoint uri) c st
      → st.waiting (key (other (side c)) (endpoint uri c)) ≡ []
      → IsValid side (endpoint uri) st
      → IsValid side (endpoint uri) (add_waiting_connection (side c) (endpoint uri c) c st)
  unfolding add_waiting_connection
  IsValid-waiting c st u none_waits v = record {
    partners = v.partners;
    queues =
        add-Queues side (endpoint uri) (side c) (endpoint uri c) c st.paired st.waiting u.alone refl
          refl (u.not_waiting (side c) (endpoint uri c)) v.queues;
    one_sided =
        OneSided-add side (endpoint uri) (side c) (endpoint uri c)
          (st.waiting (key (side c) (endpoint uri c)) ++ c ∷ []) st.waiting none_waits v.one_sided;
  }

  IsValid-pair :
      (c d : ℕ) (rest : List ℕ) (st : App2App)
      → Unknown side (endpoint uri) c st
      → st.waiting (key (other (side c)) (endpoint uri c)) ≡ d ∷ rest
      → IsValid side (endpoint uri) st
      → IsValid side (endpoint uri) (
          pair c d (record st {
            waiting = set_waiting (key (other (side c)) (endpoint uri c)) rest st.waiting;
          }))
  unfolding pair
  IsValid-pair c d rest st u q v =
      let t = other (side c) in
      let e = endpoint uri c in
      let front : is_in d (st.waiting (key t e)) ≡ true =
        subst (λ l. is_in d l ≡ true) (sym q) (in_front d rest) in
      record {
        partners =
            pair-Partners side (endpoint uri) c d st.paired
              (outside c d (st.waiting (key t e)) (u.not_waiting t e) front) u.alone
              (v.queues.free t e d front) (v.queues.typed t e d front) (v.queues.placed t e d front)
              v.partners;
        queues =
            pair-Queues side (endpoint uri) t e c d rest st.paired st.waiting q u.not_waiting
              v.queues;
        one_sided =
            OneSided-shrink side (endpoint uri) st.waiting (set_waiting (key t e) rest st.waiting)
              (shrinks (key t e) d rest st.waiting q) v.one_sided;
      }

  pair_or_wait-IsValid :
      (c : ℕ) (st : App2App)
      → Unknown side (endpoint uri) c st
      → IsValid side (endpoint uri) st
      → IsValid side (endpoint uri) (pair_or_wait (side c) (endpoint uri c) c st)
  pair_or_wait-IsValid c st u v =
      elim (queue_cases (st.waiting (key (other (side c)) (endpoint uri c)))) [
        | inl none_waits ↦
            subst (IsValid side (endpoint uri))
              (sym (pair_or_wait-none (side c) (endpoint uri c) c st none_waits))
              (IsValid-waiting c st u none_waits v)
        | inr (d, rest, q) ↦
            subst (IsValid side (endpoint uri))
              (sym (pair_or_wait-some (side c) (endpoint uri c) c d rest st q))
              (IsValid-pair c d rest st u q v)
      ]

  -- What is left after a connection has gone: valid, and without it.
  IsValid-unpair :
      (c d : ℕ) (st : App2App)
      → st.paired c ≡ some d
      → IsValid side (endpoint uri) st
      → IsValid side (endpoint uri) (unpair c d st) × Unknown side (endpoint uri) c (unpair c d st)
  unfolding unpair
  IsValid-unpair c d st at v =
      let partners = unpair-Partners side (endpoint uri) c d st.paired at v.partners in
      let alone : set_paired c none (set_paired d none st.paired) c ≡ none = rw (==_refl c) refl in
      (
        record {
          partners = partners;
          queues = unpair-Queues side (endpoint uri) c d st.paired st.waiting v.queues;
          one_sided = v.one_sided;
        },
        record {
          alone = alone;
          no_partner = λ x h. clash (sym (partners.symmetric x c h) ∙ alone);
          not_waiting =
              λ t e. absent t e c st.waiting (λ h. clash (sym at ∙ v.queues.free t e c h));
        },
      )

  IsValid-removed :
      (c : ℕ) (st : App2App)
      → st.paired c ≡ none
      → IsValid side (endpoint uri) st
      → let st' = remove_waiting_connection (side c) (endpoint uri c) c st in
        IsValid side (endpoint uri) st' × Unknown side (endpoint uri) c st'
  unfolding remove_waiting_connection
  IsValid-removed c st free v =
      let k = key (side c) (endpoint uri c) in
      let waiting' = set_waiting k (without c (st.waiting k)) st.waiting in
      (
        record {
          partners = v.partners;
          queues =
              remove-Queues side (endpoint uri) (side c) (endpoint uri c) c st.paired st.waiting
                v.queues;
          one_sided =
              OneSided-shrink side (endpoint uri) st.waiting waiting'
                (without_shrinks k c st.waiting) v.one_sided;
        },
        record {
          alone = free;
          no_partner = λ x h. clash (sym (v.partners.symmetric x c h) ∙ free);
          not_waiting = λ t e. absent t e c waiting' (λ h.
              let (was, apart) = left (side c) t (endpoint uri c) e c c st.waiting h in
              elim apart [
                | inl far ↦ opposite (sym far ∙ ==_refl c)
                | inr elsewhere ↦ opposite (
                    sym elsewhere
                    ∙ subst (λ j. text_eq j k ≡ true)
                        (ap (λ s. key s (endpoint uri c)) (v.queues.typed t e c was)
                          ∙ ap (key t) (v.queues.placed t e c was))
                        (text_eq_refl k))
              ]);
        },
      )

  pub leave-IsValid :
      (c : ℕ) (st : App2App)
      → IsValid side (endpoint uri) st
      → let st' = leave (side c) (endpoint uri c) c st in
        IsValid side (endpoint uri) st' × Unknown side (endpoint uri) c st'
  leave-IsValid c st v =
      let Left : App2App → Type 0 =
        λ st'. IsValid side (endpoint uri) st' × Unknown side (endpoint uri) c st' in
      elim (Option-cases (st.paired c)) [
        | inl free ↦
            subst Left (sym (leave-none (side c) (endpoint uri c) c st free))
              (IsValid-removed c st free v)
        | inr (d, at) ↦
            subst Left (sym (leave-some (side c) (endpoint uri c) c d st at))
              (IsValid-unpair c d st at v)
      ]

  pub connect-IsValid :
      (c : ℕ) (st : App2App)
      → Unknown side (endpoint uri) c st
      → IsValid side (endpoint uri) st
      → IsValid side (endpoint uri) (connect (side c) (uri c) c st).1
  unfolding connect
  connect-IsValid c st u v = elim (Bool-cases (is_empty (endpoint uri c))) [
    | inl none_given ↦ rw none_given v
    | inr given ↦ elim (Bool-cases (is_stopped st)) [
      | inl off ↦ rw (given, off) v
      | inr on ↦ rw (given, on) (pair_or_wait-IsValid c st u v)
    ]
  ]

  pub disconnect-IsValid :
      (c : ℕ) (st : App2App)
      → IsValid side (endpoint uri) st
      → IsValid side (endpoint uri) (disconnect (side c) (uri c) c st)
  unfolding disconnect
  disconnect-IsValid c st v = elim (Bool-cases (is_empty (endpoint uri c))) [
    | inl none_given ↦ rw none_given v
    | inr given ↦ elim (Bool-cases (is_stopped st)) [
      | inl off ↦ rw (given, off) v
      | inr on ↦ rw (given, on) (leave-IsValid c st v).0
    ]
  ]

  pub Frames-IsValid :
      (f : App2App → App2App) (st : App2App)
      → Frames f
      → IsValid side (endpoint uri) st
      → IsValid side (endpoint uri) (f st)
  Frames-IsValid f st frames v =
      let (p, w) = frames st in
      record {
        partners = subst (Partners side (endpoint uri)) (sym p) v.partners;
        queues =
            subst (λ q. Queues side (endpoint uri) (f st).paired q) (sym w)
              (subst (λ q. Queues side (endpoint uri) q st.waiting) (sym p) v.queues);
        one_sided = subst (OneSided side (endpoint uri)) (sym w) v.one_sided;
      }
