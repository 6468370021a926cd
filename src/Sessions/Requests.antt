-- ===== src/Sessions/Requests.antt =====
-- src/network_mcp/session_mgr.py: the calls of a session manager as steps, at times that do not go back.
pub mod Ended
use network_mcp.Base.{
  ℕ, ◌≤◌, ◌<◌, Bool, true, false, String, str_discrete, Option, none, some, List, [], ◌∷◌, ◌≡◌,
  refl, ◌∙◌, sym, length, map, arith, Time, All, inl, inr, Bool-cases, if◌then◌else◌,
}
use mathlib.Core.Path.{subst, subst⁻¹}
use network_mcp.Dict
use network_mcp.Dict.{keys_where}
use network_mcp.Sessions.{
  SessionInfo, SessionManager, init, is_expired, create_session, validate_session, validate_found,
  touch_session, touch_found, expire_session, get_active_sessions, cleanup_expired, remove_session,
  remove_found, remove_all, add_session, live_ids, make_room, user_items, items_or_none,
}
use network_mcp.Sessions.Index.{In, not-In-nil}
use network_mcp.Sessions.Upkeep.{find, IsConsistent}
use network_mcp.Sessions.Calls.{
  create-IsConsistent, remove-IsConsistent, remove_all-IsConsistent, validate-IsConsistent,
}
use network_mcp.Sessions.Calls.Active.{
  touch-IsConsistent, get_active-IsConsistent, get_active-Shown, later-IsConsistent,
}

pub data Request (Meta : Type 0) : Type 0 where
  create : Time → String → String → Option String → Meta → Request Meta
  validate : Time → String → Request Meta
  touch : Time → String → Request Meta
  expire : Time → String → Request Meta
  list_active : Time → String → Request Meta
  cleanup : Time → Request Meta

module _ {Meta : Type 0} where
  abbrev pub at : Request Meta → Time
  at (create now sid user tenant x) = now
  at (validate now sid) = now
  at (touch now sid) = now
  at (expire now sid) = now
  at (list_active now user) = now
  at (cleanup now) = now

  unfoldable pub step : Request Meta → SessionManager Meta → SessionManager Meta
  unfolding create_session validate_session touch_session expire_session get_active_sessions
      cleanup_expired
  step (create now sid user tenant x) m = (create_session now sid user tenant x m).0
  step (validate now sid) m = (validate_session now sid m).0
  step (touch now sid) m = touch_session now sid m
  step (expire now sid) m = expire_session sid m
  step (list_active now user) m = (get_active_sessions now user m).0
  step (cleanup now) m = (cleanup_expired now m).0

  -- The id of a new session is not in use.
  abbrev pub Fresh : Request Meta → SessionManager Meta → Type 0
  Fresh (create now sid user tenant x) m = find sid m.sessions ≡ none
  Fresh (validate now sid) m = Unit
  Fresh (touch now sid) m = Unit
  Fresh (expire now sid) m = Unit
  Fresh (list_active now user) m = Unit
  Fresh (cleanup now) m = Unit

  pub data Reach (idle max : ℕ) : Time → SessionManager Meta → Type 0 where
    new : Reach idle max 0 (init idle max)
    next :
        {t : Time} {m : SessionManager Meta}
        → Reach idle max t m
        → (r : Request Meta) → t ≤ at r
        → Fresh r m
        → Reach idle max (at r) (step r m)

  step-IsConsistent :
      (r : Request Meta) (m : SessionManager Meta)
      → 0 < m.max_per_user
      → Fresh r m
      → IsConsistent (at r) m
      → IsConsistent (at r) (step r m)
  unfolding step expire_session cleanup_expired
  step-IsConsistent (create now sid user tenant x) m pos fresh a =
      create-IsConsistent now sid user tenant x m pos fresh a
  step-IsConsistent (validate now sid) m pos fresh a = validate-IsConsistent now sid m a
  step-IsConsistent (touch now sid) m pos fresh a = touch-IsConsistent now m a sid
  step-IsConsistent (expire now sid) m pos fresh a = remove-IsConsistent now sid m a
  step-IsConsistent (list_active now user) m pos fresh a = get_active-IsConsistent now m a user
  step-IsConsistent (cleanup now) m pos fresh a =
      remove_all-IsConsistent now (keys_where (is_expired now) m.sessions) m a

  remove_found_limit :
      (sid : String) (o : Option (SessionInfo Meta)) (m : SessionManager Meta)
      → (remove_found sid o m).max_per_user ≡ m.max_per_user
  unfolding remove_found
  remove_found_limit sid none m = refl
  remove_found_limit sid (some i) m = refl

  remove_limit :
      (sid : String) (m : SessionManager Meta)
      → (remove_session sid m).max_per_user ≡ m.max_per_user
  unfolding remove_session
  remove_limit sid m = remove_found_limit sid _ m

  remove_all_limit :
      (sids : List String) (m : SessionManager Meta)
      → (remove_all sids m).max_per_user ≡ m.max_per_user
  unfolding remove_all
  remove_all_limit [] m = refl
  remove_all_limit (s ∷ ss) m = remove_all_limit ss (remove_session s m) ∙ remove_limit s m

  add_session_limit :
      (i : SessionInfo Meta) (r : List String × Dict.Dict String (SessionInfo Meta) × Bool)
      (m : SessionManager Meta)
      → (add_session i r m).0.max_per_user ≡ m.max_per_user
  unfolding add_session
  add_session_limit i (ids, table, true) m = refl
  add_session_limit i (ids, table, false) m = refl

  validate_found_limit :
      (now : Time) (sid : String) (o : Option (SessionInfo Meta)) (m : SessionManager Meta)
      → (validate_found now sid o m).0.max_per_user ≡ m.max_per_user
  unfolding validate_found
  validate_found_limit now sid none m = refl
  validate_found_limit now sid (some i) m = elim (Bool-cases (is_expired now i)) [
    | inl t ↦ rw t (remove_limit sid m)
    | inr f ↦ rw f refl
  ]

  touch_found_limit :
      (now : Time) (sid : String) (o : Option (SessionInfo Meta)) (m : SessionManager Meta)
      → (touch_found now sid o m).max_per_user ≡ m.max_per_user
  unfolding touch_found
  touch_found_limit now sid none m = refl
  touch_found_limit now sid (some i) m = elim (Bool-cases (is_expired now i)) [
    | inl t ↦ rw t (remove_limit sid m)
    | inr f ↦ rw f refl
  ]

  step_limit :
      (r : Request Meta) (m : SessionManager Meta) → (step r m).max_per_user ≡ m.max_per_user
  unfolding step create_session validate_session touch_session expire_session get_active_sessions
      cleanup_expired
  step_limit (create now sid user tenant x) m = add_session_limit _ _ m
  step_limit (validate now sid) m = validate_found_limit now sid _ m
  step_limit (touch now sid) m = touch_found_limit now sid _ m
  step_limit (expire now sid) m = remove_limit sid m
  step_limit (list_active now user) m = refl
  step_limit (cleanup now) m = remove_all_limit (keys_where (is_expired now) m.sessions) m

  Reach-IsConsistent :
      {idle max : ℕ} {t : Time} {m : SessionManager Meta}
      → 0 < max
      → Reach idle max t m
      → IsConsistent t m × (m.max_per_user ≡ max)
  unfolding init Dict.get items_or_none
  Reach-IsConsistent pos new = (
    record {
      own = λ s i e. cc;
      once = λ user. tt;
      short = λ user. omega arith;
      listed = λ user s h. absurd (not-In-nil s h);
      indexed = λ s i e f. cc;
    },
    refl,
  )
  Reach-IsConsistent pos (next {t} {m} run r le fresh) =
      let (a, limit) = Reach-IsConsistent pos run in
      (
        step-IsConsistent r m (omega arith) fresh (later-IsConsistent t m a (at r) le),
        step_limit r m ∙ limit,
      )

  -- After any calls of a manager with a limit above 0, at times that do not go back and with new ids
  -- for new sessions: get_active_sessions returns sessions of the user that are in the table and not
  -- expired, every one of them, and no more than the limit.
  pub Reach-lists :
      (idle max : ℕ) {t : Time} {m : SessionManager Meta}
      → 0 < max
      → Reach idle max t m
      → (now : Time) (user : String) → t ≤ now
      → All
          (λ i.
            (find i.session_id m.sessions ≡ some i)
            × (i.user_id ≡ user)
            × (is_expired now i ≡ false))
          (get_active_sessions now user m).1
        × ((sid : String) (i : SessionInfo Meta)
            → find sid m.sessions ≡ some i
            → i.user_id ≡ user
            → is_expired now i ≡ false
            → In sid (map (λ j. j.session_id) (get_active_sessions now user m).1))
        × (length (get_active_sessions now user m).1 ≤ max)
  Reach-lists idle max {t} {m} pos run now user le =
      let (a, limit) = Reach-IsConsistent pos run in
      let (sound, whole, few) = get_active-Shown now m (later-IsConsistent t m a now le) user in
      (sound, whole, subst (λ n. length (get_active_sessions now user m).1 ≤ n) limit few)
