-- ===== src/Sessions/Calls.antt =====
-- src/network_mcp/session_mgr.py: each call keeps the table of sessions and the index in agreement.
pub mod Active
use network_mcp.Base.{
  ℕ, ◌+◌, ◌-◌, ◌≤◌, ◌<◌, Bool, true, false, not, String, str_discrete, Option, none, some, List, [],
  ◌∷◌, ◌++◌, ◌≡◌, refl, ◌≢◌, in_list, length, leb, ltb, ite, sym, ◌∙◌, ap, arith, Time, seconds,
  inl, inr, Bool-cases, Option-cases, if◌then◌else◌, map,
}
use mathlib.Core.Option.{some-injective}
use mathlib.Core.Path.{subst, subst⁻¹}
use network_mcp.Dict
use network_mcp.Dict.{Dict, keys_where}
use network_mcp.Dict.Laws.{get-put_self, get-put_ne}
use network_mcp.Sessions.{
  SessionInfo, SessionManager, is_expired, is_live, live_ids, make_room, drop_expired, active_of,
  user_items, items_or_none, create_session, add_session, new_session, get_active_sessions,
  remove_session, remove_found, remove_all, cleanup_expired, touch_found, touch_session,
  validate_found, validate_session,
}
use network_mcp.Sessions.Index.{In, Once}
use network_mcp.Sessions.Room.{
  live_ids-In, live_ids-In_live, live_ids-Once, live_ids-absent, length-live_ids-le,
  make_room-Roomy,
}
use network_mcp.Sessions.Sweep.{drop_expired-Swept, active_of-ids, active_of-length, live_ids-all}
use network_mcp.Sessions.Upkeep.{find, items, Agree, IsConsistent, remove-Agree}
use network_mcp.Sessions.Creation.{part-Agree}
use network_mcp.Sessions.Creation.Grown.{grow-Agree}

module _ {Meta : Type 0} where
  pub is_live_of :
      (now : Time) (o : Option (SessionInfo Meta)) (i : SessionInfo Meta)
      → o ≡ some i
      → is_expired now i ≡ false
      → is_live now o ≡ true
  unfolding is_live
  is_live_of now none i e f = cc
  is_live_of now (some j) i e f = ap (λ x. not (is_expired now x)) (some-injective j i e) ∙ ap not f

  make_room_ok :
      (max : ℕ) (xs : List String) (T : Dict String (SessionInfo Meta))
      → 0 < max
      → (make_room max xs T).2 ≡ true
  unfolding make_room
  make_room_ok max [] T h = ground arith
  make_room_ok max (x ∷ xs) T h = elim (Bool-cases (leb max (length (x ∷ xs)))) [
    | inl t ↦ rw t (make_room_ok max xs (Dict.del str_discrete x T) h)
    | inr f ↦ rw f refl
  ]

  pub add_session_ok :
      (i : SessionInfo Meta) (r : List String × Dict String (SessionInfo Meta) × Bool)
      (m : SessionManager Meta)
      → r.2 ≡ true
      → add_session i r m ≡ (
        record m {
          sessions = Dict.put str_discrete i.session_id i r.1;
          user_sessions =
              Dict.put str_discrete i.user_id (r.0 ++ i.session_id ∷ []) m.user_sessions;
        },
        some i.session_id,
      )
  unfolding add_session
  add_session_ok i (ids, table, true) m e = refl
  add_session_ok i (ids, table, false) m e = cc

  pub create-IsConsistent :
      (now : Time) (sid user : String) (tenant : Option String) (x : Meta) (m : SessionManager Meta)
      → 0 < m.max_per_user
      → find sid m.sessions ≡ none
      → IsConsistent now m
      → IsConsistent now (create_session now sid user tenant x m).0
  unfolding create_session user_items new_session
  create-IsConsistent now sid user tenant x m pos fresh a =
      let T = m.sessions in
      let I = m.user_sessions in
      let i = new_session now sid user tenant x m in
      let ids = items user I in
      let live = live_ids now T ids in
      let r = make_room m.max_per_user live T in
      let R = make_room-Roomy m.max_per_user live T (live_ids-Once now T ids (a.once user)) in
      let ok = make_room_ok m.max_per_user live T pos in
      let gone : find sid r.1 ≡ none = elim (Option-cases (find sid r.1)) [
        | inl e ↦ e
        | inr (j, e) ↦ let f : none ≡ some j = sym fresh ∙ R.sub sid j e in cc
      ] in
      let kept : Agree now m.max_per_user r.1 (Dict.put str_discrete user r.0 I) =
        part-Agree now m.max_per_user T I a user r.0 r.1 R.once
          (omega (arith, R.fewer, length-live_ids-le now T ids))
          (λ s h. ((live_ids-In now T s ids (R.less s h)).0, R.stay s h))
          (λ s n. R.others s (live_ids-absent now T s ids n)) R.sub
          (λ s j e l h.
            R.still s j e
              (live_ids-In_live now T s ids h (is_live_of now (find s T) j (R.sub s j e) l))) in
      subst⁻¹ (λ q. IsConsistent now q.0) (add_session_ok i r m ok)
        (grow-Agree now m.max_per_user r.1 I r.0 i kept (R.room ok) gone)

  remove_found-IsConsistent :
      (now : Time) (sid : String) (o : Option (SessionInfo Meta)) (m : SessionManager Meta)
      → find sid m.sessions ≡ o
      → IsConsistent now m
      → IsConsistent now (remove_found sid o m)
  unfolding remove_found user_items
  remove_found-IsConsistent now sid none m e a = a
  remove_found-IsConsistent now sid (some i) m e a =
      remove-Agree now m.max_per_user m.sessions m.user_sessions a sid i e

  pub remove-IsConsistent :
      (now : Time) (sid : String) (m : SessionManager Meta)
      → IsConsistent now m
      → IsConsistent now (remove_session sid m)
  unfolding remove_session
  remove-IsConsistent now sid m a = remove_found-IsConsistent now sid _ m refl a

  pub remove_all-IsConsistent :
      (now : Time) (sids : List String) (m : SessionManager Meta)
      → IsConsistent now m
      → IsConsistent now (remove_all sids m)
  unfolding remove_all
  remove_all-IsConsistent now [] m a = a
  remove_all-IsConsistent now (s ∷ ss) m a =
      remove_all-IsConsistent now ss (remove_session s m) (remove-IsConsistent now s m a)

  validate_found-IsConsistent :
      (now : Time) (sid : String) (o : Option (SessionInfo Meta)) (m : SessionManager Meta)
      → IsConsistent now m
      → IsConsistent now (validate_found now sid o m).0
  unfolding validate_found
  validate_found-IsConsistent now sid none m a = a
  validate_found-IsConsistent now sid (some i) m a = elim (Bool-cases (is_expired now i)) [
    | inl t ↦ rw t (remove-IsConsistent now sid m a)
    | inr f ↦ rw f a
  ]

  pub validate-IsConsistent :
      (now : Time) (sid : String) (m : SessionManager Meta)
      → IsConsistent now m
      → IsConsistent now (validate_session now sid m).0
  unfolding validate_session
  validate-IsConsistent now sid m a = validate_found-IsConsistent now sid _ m a
