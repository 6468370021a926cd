-- ===== src/Sessions/Sweep.antt =====
-- src/network_mcp/session_mgr.py: what get_active_sessions returns, and the sessions that it drops.
use network_mcp.Base.{
  ◌≤◌, suc, true, false, String, str_discrete, some, List, [], ◌∷◌, ◌≡◌, refl, in_list, length, sym,
  ◌∙◌, ap, arith, Time, inl, inr, Bool-cases, Option-cases, map,
}
use network_mcp.Dict
use network_mcp.Dict.{Dict}
use network_mcp.Dict.Laws.{get-del_ne}
use network_mcp.Sessions.{
  SessionInfo, is_expired, is_live, live_ids, drop_expired, active_of, add_active,
}
use network_mcp.Sessions.Index.{absent-cons}
use network_mcp.Sessions.Upkeep.{find, find-del}
use network_mcp.Sessions.Room.{length-live_ids-le}

module _ {Meta : Type 0} (now : Time) where
  -- The sweep of a user's expired sessions leaves every other session as it was.
  pub record Swept (xs : List String) (T T' : Dict String (SessionInfo Meta)) : Type 0 where
    pub sub : (s : String) (i : SessionInfo Meta) → find s T' ≡ some i → find s T ≡ some i
    pub live : (s : String) → is_live now (find s T) ≡ true → find s T' ≡ find s T
    pub others : (s : String) → in_list s xs ≡ false → find s T' ≡ find s T

  pub drop_expired-Swept :
      (xs : List String) (T : Dict String (SessionInfo Meta)) → Swept xs T (drop_expired now xs T)
  unfolding drop_expired
  drop_expired-Swept [] T = record { sub = λ s i e. e; live = λ s l. refl; others = λ s n. refl }
  drop_expired-Swept (x ∷ xs) T = elim (Bool-cases (is_live now (find x T))) [
    | inl t ↦
        let ih = drop_expired-Swept xs T in
        rw t (record {
          sub = ih.sub;
          live = ih.live;
          others = λ s n. ih.others s (absent-cons s x xs n).1;
        })
    | inr f ↦
        let D = Dict.del str_discrete x T in
        let ih = drop_expired-Swept xs D in
        let away = λ (s : String) (l : is_live now (find s T) ≡ true).
          get-del_ne str_discrete x s T
            (λ e. cc (sym f ∙ ap (λ i. is_live now (find i T)) e ∙ l)) in
        rw f (record {
          sub = λ s i e. (find-del x s T i (ih.sub s i e)).1;
          live = λ s l. ih.live s (ap (is_live now) (away s l) ∙ l) ∙ away s l;
          others = λ s n.
              let (ne, m) = absent-cons s x xs n in
              ih.others s m ∙ get-del_ne str_discrete x s T ne;
        })
  ]

  -- The ids of the sessions that are returned.
  pub active_of-ids :
      (T : Dict String (SessionInfo Meta)) (xs : List String)
      → ((s : String) (i : SessionInfo Meta) → find s T ≡ some i → i.session_id ≡ s)
      → map (λ i. i.session_id) (active_of now T xs) ≡ live_ids now T xs
  unfolding active_of live_ids add_active is_live
  active_of-ids T [] own = refl
  active_of-ids T (x ∷ xs) own =
      let ih = active_of-ids T xs own in
      elim (Option-cases (find x T)) [
        | inl e ↦ rw e ih
        | inr (i, e) ↦ elim (Bool-cases (is_expired now i)) [
          | inl t ↦ rw (e, t) ih
          | inr f ↦ rw (e, f, own x i e, ih) refl
        ]
      ]

  pub active_of-length :
      (T : Dict String (SessionInfo Meta)) (xs : List String)
      → length (active_of now T xs) ≡ length (live_ids now T xs)
  unfolding active_of live_ids add_active is_live
  active_of-length T [] = refl
  active_of-length T (x ∷ xs) =
      let ih = active_of-length T xs in
      elim (Option-cases (find x T)) [
        | inl e ↦ rw e ih
        | inr (i, e) ↦ elim (Bool-cases (is_expired now i)) [
          | inl t ↦ rw (e, t) ih
          | inr f ↦ rw (e, f) (ap suc ih)
        ]
      ]

  -- A list that loses no id is as it was.
  pub live_ids-all :
      (T : Dict String (SessionInfo Meta)) (xs : List String)
      → length xs ≤ length (live_ids now T xs)
      → live_ids now T xs ≡ xs
  unfolding live_ids
  live_ids-all T [] h = refl
  live_ids-all T (x ∷ xs) h = elim (Bool-cases (is_live now (find x T))) [
    | inl t ↦
        let h' : length (x ∷ xs) ≤ length (x ∷ live_ids now T xs) = rw t at h in
        rw t (ap (λ ys. x ∷ ys) (live_ids-all T xs (omega arith)))
    | inr f ↦
        let h' : length (x ∷ xs) ≤ length (live_ids now T xs) = rw f at h in
        absurd (omega (arith, length-live_ids-le now T xs))
  ]
