-- ===== src/Sessions/Tests.antt =====
-- src/network_mcp/session_mgr.py: sessions of one user under a limit of two.
use network_mcp.Base.{
  ◌≤◌, true, false, String, str_discrete, none, some, List, [], ◌∷◌, ◌≡◌, refl, ◌≢◌, length, map,
  arith, seconds, All,
}
use mathlib.Core.Option.{some-injective}
use mathlib.Core.Path.{subst}
use network_mcp.Dict
use network_mcp.Sessions.{
  SessionInfo, SessionManager, init, is_expired, create_session, validate_session,
  get_active_sessions, total_sessions,
}
use network_mcp.Sessions.Index.{In}
use network_mcp.Sessions.Upkeep.{find}
use network_mcp.Sessions.Requests.{
  Request, create, touch, cleanup, step, Reach, new, next, Reach-lists,
}
use network_mcp.Sessions.Requests.Ended.{run, Ended, validate-Ended}

abbrev empty : SessionManager String
empty = init 60 2

abbrev first : Request String
first = create (seconds 1) "s1" "ada" none "web"

abbrev second : Request String
second = create (seconds 30) "s2" "ada" none "cli"

abbrev third : Request String
third = create (seconds 40) "s3" "ada" none "web"

abbrev three : SessionManager String
three = step third (step second (step first empty))

three_reached : Reach 60 2 (seconds 40) three
unfolding init step Dict.get create_session str_discrete Dict.put
three_reached =
    next (next (next new first (omega arith) refl) second (omega arith) refl) third (omega arith)
      refl

-- The oldest session made room for the third.
three_ids :
    map (λ i. i.session_id) (get_active_sessions (seconds 50) "ada" three).1 ≡ "s2" ∷ "s3" ∷ []
unfolding init step Dict.get create_session str_discrete get_active_sessions Dict.put Dict.del
three_ids = refl

Reach-lists_example :
    All
      (λ i.
        (find i.session_id three.sessions ≡ some i)
        × (i.user_id ≡ "ada")
        × (is_expired (seconds 50) i ≡ false))
      (get_active_sessions (seconds 50) "ada" three).1
    × ((sid : String) (i : SessionInfo String)
        → find sid three.sessions ≡ some i
        → i.user_id ≡ "ada"
        → is_expired (seconds 50) i ≡ false
        → In sid (map (λ j. j.session_id) (get_active_sessions (seconds 50) "ada" three).1))
    × (length (get_active_sessions (seconds 50) "ada" three).1 ≤ 2)
Reach-lists_example = Reach-lists 60 2 (omega arith) three_reached (seconds 50) "ada" (omega arith)

s4-ne-s1 : ◌≢◌ {A = String} "s4" "s1"
unfolding str_discrete
s4-ne-s1 e = subst (λ s. elim (str_discrete s "s4") [ yes p ↦ Unit {0} | no ne ↦ ⊥ ]) e tt

abbrev later_calls : List (Request String)
later_calls =
    touch (seconds 100) "s1"
    ∷ create (seconds 101) "s4" "ada" none "web"
    ∷ cleanup (seconds 150)
    ∷ []

one-Ended : Ended (seconds 90) "s1" (step first empty)
unfolding init step Dict.get create_session str_discrete is_expired Dict.put
one-Ended i e = subst (λ j. is_expired (seconds 90) j ≡ true) (some-injective _ i e) refl

validate-Ended_example :
    (validate_session (seconds 200) "s1" (run later_calls (step first empty))).1 ≡ none
validate-Ended_example =
    validate-Ended (seconds 90) (seconds 200) "s1" later_calls (step first empty) one-Ended
      (omega arith, ((omega arith, s4-ne-s1), (omega arith, tt))) (omega arith)

-- With a limit of 0 no session can be made.
no_room : (create_session (seconds 1) "s1" "ada" none "web" (init {Meta = String} 60 0)).1 ≡ none
unfolding init create_session Dict.get
no_room = refl

-- An expired session of the user is dropped from the index at the next login, and stays in the table.
left_in_table :
    (total_sessions (step (create (seconds 90) "s2" "ada" none "web") (step first empty)) ≡ 2)
    × ((step (create (seconds 90) "s2" "ada" none "web") (step first empty)).user_sessions
        ≡ ("ada", "s2" ∷ []) ∷ [])
unfolding init step Dict.get create_session str_discrete is_expired Dict.put total_sessions
left_in_table = (refl, refl)
