-- ===== src/Sessions/Creation.antt =====
-- src/network_mcp/session_mgr.py: a part of a user's sessions that is kept, and the rest of them dropped.
pub mod Grown
use network_mcp.Base.{
  ℕ, ◌+◌, ◌-◌, ◌≤◌, ◌<◌, Bool, true, false, not, String, str_discrete, Option, none, some, List, [],
  ◌∷◌, ◌++◌, ◌≡◌, refl, ◌≢◌, in_list, length, leb, ltb, ite, sym, ◌∙◌, ap, arith, Time, seconds,
  inl, inr, Bool-cases, Option-cases, if◌then◌else◌, map, length-append,
}
use mathlib.Core.Option.{some-injective}
use mathlib.Core.Path.{subst, subst⁻¹}
use network_mcp.Dict
use network_mcp.Dict.{Dict}
use network_mcp.Dict.Laws.{get-put, get-put_self, get-put_ne}
use network_mcp.Sessions.{
  SessionInfo, SessionManager, is_expired, is_live, live_ids, make_room, drop_expired, active_of,
  user_items, items_or_none, create_session, add_session, new_session, get_active_sessions,
}
use network_mcp.Sessions.Index.{
  In, Once, In-cases, In-append, In-append_left, In-append_right, In-head, append-Once, not-In-nil,
}
use network_mcp.Sessions.Room.{
  live_ids-In, live_ids-In_live, live_ids-Once, length-live_ids-le, Roomy, make_room-Roomy,
}
use network_mcp.Sessions.Upkeep.{find, items, Agree, IsConsistent, narrow-Agree}

items-put :
    (user other : String) (xs : List String) (I : Dict String (List String))
    → items other (Dict.put str_discrete user xs I)
      ≡ ite (str_discrete user other) xs (items other I)
unfolding items_or_none
items-put user other xs I = rw (get-put str_discrete user other xs I) (ground arith)

-- A property of the user's new list and of the other lists is one of every list.
pub put_items :
    (P : List String → Type 0) (user other : String) (xs : List String)
    (I : Dict String (List String))
    → (user ≡ other → P xs)
    → (user ≢ other → P (items other I))
    → P (items other (Dict.put str_discrete user xs I))
put_items P user other xs I mine others =
    subst⁻¹ P (items-put user other xs I)
      (elim (str_discrete user other) as (λ c. P (ite c xs (items other I))) [
        | yes e ↦ mine e
        | no ne ↦ others ne
      ])

module _ {Meta : Type 0} (now : Time) (max : ℕ) (T : Dict String (SessionInfo Meta))
    (I : Dict String (List String)) (a : Agree now max T I) (user : String) where
  -- An id of another user is not in the user's list.
  pub foreign :
      (other s : String) → user ≢ other → In s (items other I) → in_list s (items user I) ≡ false
  foreign other s ne h = elim (Bool-cases (in_list s (items user I))) [
    | inr f ↦ f
    | inl t ↦
        let (i, e, u) = a.listed user s t in
        let (j, f, v) = a.listed other s h in
        let same : i ≡ j = some-injective i j (sym e ∙ f) in
        absurd (ne (sym u ∙ ap (λ x. x.user_id) same ∙ v))
  ]

  -- A part of the user's live ids, and a table that lacks sessions of that user only.
  pub part-Agree :
      (r : List String) (T' : Dict String (SessionInfo Meta))
      → Once r
      → length r ≤ length (items user I)
      → ((s : String) → In s r → In s (items user I) × (find s T' ≡ find s T))
      → ((s : String) → in_list s (items user I) ≡ false → find s T' ≡ find s T)
      → ((s : String) (i : SessionInfo Meta) → find s T' ≡ some i → find s T ≡ some i)
      → ((s : String) (i : SessionInfo Meta)
          → find s T' ≡ some i
          → is_expired now i ≡ false
          → In s (items user I)
          → In s r)
      → Agree now max T' (Dict.put str_discrete user r I)
  part-Agree r T' once fewer mine others sub still =
      narrow-Agree now max T T' I (Dict.put str_discrete user r I) a sub
        (λ other. put_items Once user other r I (λ e. once) (λ ne. a.once other))
        (λ other.
          put_items (λ xs. length xs ≤ length (items other I)) user other r I
            (λ e. subst (λ u. length r ≤ length (items u I)) e fewer) (λ ne. omega arith))
        (λ other s.
          put_items (λ xs. In s xs → In s (items other I)) user other r I
            (λ e h. subst (λ u. In s (items u I)) e (mine s h).0) (λ ne h. h))
        (λ other s.
          put_items (λ xs. In s xs → find s T' ≡ find s T) user other r I (λ e h. (mine s h).1)
            (λ ne h. others s (foreign other s ne h)))
        (λ s i e live h.
          put_items (In s) user i.user_id r I
            (λ same. still s i e live (subst⁻¹ (λ u. In s (items u I)) same h)) (λ ne. h))
