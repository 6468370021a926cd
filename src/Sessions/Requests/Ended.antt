-- ===== src/Sessions/Requests/Ended.antt =====
-- src/network_mcp/session_mgr.py: a session that has ended, by removal or by its idle time.
use network_mcp.Base.{
  ℕ, ◌≤◌, Bool, true, false, String, str_discrete, Option, none, some, List, [], ◌∷◌, ◌≡◌, refl,
  ◌≢◌, ◌∙◌, sym, ap, length, leb, arith, Time, All, inl, inr, Bool-cases,
}
use network_mcp.Dict
use network_mcp.Dict.{Dict, keys_where}
use network_mcp.Dict.Laws.{get-put_ne}
use network_mcp.Sessions.{
  SessionInfo, SessionManager, is_expired, create_session, validate_session, validate_found,
  touch_session, touch_found, expire_session, get_active_sessions, cleanup_expired, remove_session,
  remove_found, remove_all, add_session, live_ids, make_room, user_items, new_session,
}
use network_mcp.Sessions.Sweep.{drop_expired-Swept}
use network_mcp.Sessions.Upkeep.{find, find-del}
use network_mcp.Sessions.Requests.{
  Request, create, validate, touch, expire, list_active, cleanup, step,
}

module _ {Meta : Type 0} where
  unfoldable pub run : List (Request Meta) → SessionManager Meta → SessionManager Meta
  unfolding step
  run [] m = m
  run (r ∷ rs) m = run rs (step r m)

  -- A call from time t on that makes no session with this id.
  abbrev pub After : Time → String → Request Meta → Type 0
  After t sid (create now s user tenant x) = (t ≤ now) × (s ≢ sid)
  After t sid (validate now s) = t ≤ now
  After t sid (touch now s) = t ≤ now
  After t sid (expire now s) = t ≤ now
  After t sid (list_active now user) = t ≤ now
  After t sid (cleanup now) = t ≤ now

  -- The id is not in the table, or its session is expired.
  abbrev pub Ended : Time → String → SessionManager Meta → Type 0
  Ended t sid m = (i : SessionInfo Meta) → find sid m.sessions ≡ some i → is_expired t i ≡ true

  -- Nothing but sessions of the old table.
  abbrev Sub : String → SessionManager Meta → SessionManager Meta → Type 0
  Sub sid m m' =
      (i : SessionInfo Meta) → find sid m'.sessions ≡ some i → find sid m.sessions ≡ some i

  remove_found-Sub :
      (sid s : String) (o : Option (SessionInfo Meta)) (m : SessionManager Meta)
      → Sub sid m (remove_found s o m)
  unfolding remove_found
  remove_found-Sub sid s none m i e = e
  remove_found-Sub sid s (some j) m i e = (find-del s sid m.sessions i e).1

  remove-Sub : (sid s : String) (m : SessionManager Meta) → Sub sid m (remove_session s m)
  unfolding remove_session
  remove-Sub sid s m = remove_found-Sub sid s _ m

  remove_all-Sub :
      (sid : String) (ss : List String) (m : SessionManager Meta) → Sub sid m (remove_all ss m)
  unfolding remove_all
  remove_all-Sub sid [] m i e = e
  remove_all-Sub sid (s ∷ ss) m i e =
      remove-Sub sid s m i (remove_all-Sub sid ss (remove_session s m) i e)

  add_session-Sub :
      (sid : String) (i : SessionInfo Meta)
      (r : List String × Dict String (SessionInfo Meta) × Bool) (m : SessionManager Meta)
      → i.session_id ≢ sid
      → ((j : SessionInfo Meta) → find sid r.1 ≡ some j → find sid m.sessions ≡ some j)
      → Sub sid m (add_session i r m).0
  unfolding add_session
  add_session-Sub sid i (ids, table, true) m ne sub j e =
      sub j (sym (get-put_ne str_discrete i.session_id sid i table ne) ∙ e)
  add_session-Sub sid i (ids, table, false) m ne sub j e = sub j e

  make_room_sub :
      (sid : String) (max : ℕ) (xs : List String) (T : Dict String (SessionInfo Meta))
      (i : SessionInfo Meta)
      → find sid (make_room max xs T).1 ≡ some i
      → find sid T ≡ some i
  unfolding make_room
  make_room_sub sid max [] T i e = e
  make_room_sub sid max (x ∷ xs) T i e = elim (Bool-cases (leb max (length (x ∷ xs)))) [
    | inl t ↦
        let e' : find sid (make_room max xs (Dict.del str_discrete x T)).1 ≡ some i = rw t at e in
        (find-del x sid T i (make_room_sub sid max xs (Dict.del str_discrete x T) i e')).1
    | inr f ↦ let e' : find sid T ≡ some i = rw f at e in e'
  ]

  validate_found-Sub :
      (sid : String) (now : Time) (s : String) (o : Option (SessionInfo Meta))
      (m : SessionManager Meta)
      → Sub sid m (validate_found now s o m).0
  unfolding validate_found
  validate_found-Sub sid now s none m = λ i e. e
  validate_found-Sub sid now s (some j) m = elim (Bool-cases (is_expired now j)) [
    | inl t ↦ rw t (remove-Sub sid s m)
    | inr f ↦ rw f (λ i e. e)
  ]

  still_expired :
      (t now : Time) (i : SessionInfo Meta)
      → t ≤ now
      → is_expired t i ≡ true
      → ¬ (is_expired now i ≡ false)
  unfolding is_expired
  still_expired t now i le e f = ground arith

  -- An expired session is not touched.
  touch_found-Ended :
      (t now : Time) (sid s : String) (o : Option (SessionInfo Meta)) (m : SessionManager Meta)
      → t ≤ now
      → find s m.sessions ≡ o
      → Ended t sid m
      → Ended t sid (touch_found now s o m)
  unfolding touch_found
  touch_found-Ended t now sid s none m le g d = d
  touch_found-Ended t now sid s (some j) m le g d = elim (Bool-cases (is_expired now j)) [
    | inl x ↦ rw x (λ i e. d i (remove-Sub sid s m i e))
    | inr f ↦ rw f (λ i e. elim (str_discrete s sid) [
      | yes same ↦
          let dead = d j (ap (λ k. find k m.sessions) (sym same) ∙ g) in
          absurd (still_expired t now j le dead f)
      | no ne ↦ d i (sym (get-put_ne str_discrete s sid _ m.sessions ne) ∙ e)
    ])
  ]

  step-Ended :
      (t : Time) (sid : String) (r : Request Meta) (m : SessionManager Meta)
      → After t sid r
      → Ended t sid m
      → Ended t sid (step r m)
  unfolding step create_session validate_session touch_session expire_session get_active_sessions
      cleanup_expired new_session
  step-Ended t sid (create now s user tenant x) m h d = λ i e. d i (
      add_session-Sub sid (new_session now s user tenant x m)
        (make_room m.max_per_user (live_ids now m.sessions (user_items user m)) m.sessions) m h.1
        (λ j f.
          make_room_sub sid m.max_per_user (live_ids now m.sessions (user_items user m)) m.sessions
            j f)
        i e)
  step-Ended t sid (validate now s) m h d = λ i e. d i (validate_found-Sub sid now s _ m i e)
  step-Ended t sid (touch now s) m h d = touch_found-Ended t now sid s _ m h refl d
  step-Ended t sid (expire now s) m h d = λ i e. d i (remove-Sub sid s m i e)
  step-Ended t sid (list_active now user) m h d =
      λ i e. d i ((drop_expired-Swept now (user_items user m) m.sessions).sub sid i e)
  step-Ended t sid (cleanup now) m h d =
      λ i e. d i (remove_all-Sub sid (keys_where (is_expired now) m.sessions) m i e)

  run-Ended :
      (t : Time) (sid : String) (rs : List (Request Meta)) (m : SessionManager Meta)
      → All (After t sid) rs
      → Ended t sid m
      → Ended t sid (run rs m)
  unfolding run
  run-Ended t sid [] m h d = d
  run-Ended t sid (r ∷ rs) m h d = run-Ended t sid rs (step r m) h.1 (step-Ended t sid r m h.0 d)

  validate_found-none :
      (t now : Time) (sid : String) (o : Option (SessionInfo Meta)) (m : SessionManager Meta)
      → t ≤ now
      → ((i : SessionInfo Meta) → o ≡ some i → is_expired t i ≡ true)
      → (validate_found now sid o m).1 ≡ none
  unfolding validate_found
  validate_found-none t now sid none m le d = refl
  validate_found-none t now sid (some i) m le d = elim (Bool-cases (is_expired now i)) [
    | inl x ↦ rw x refl
    | inr f ↦ absurd (still_expired t now i le (d i refl) f)
  ]

  -- A session that is removed or expired at a time is never validated from then on, whatever is
  -- called, touch_session included, unless a session is made with its id.
  pub validate-Ended :
      (t now : Time) (sid : String) (rs : List (Request Meta)) (m : SessionManager Meta)
      → Ended t sid m
      → All (After t sid) rs
      → t ≤ now
      → (validate_session now sid (run rs m)).1 ≡ none
  unfolding validate_session
  validate-Ended t now sid rs m d h le =
      validate_found-none t now sid _ (run rs m) le (run-Ended t sid rs m h d)
