-- ===== src/Sessions/Calls/Active.antt =====
-- src/network_mcp/session_mgr.py: touch_session, get_active_sessions and the passing of time.
use network_mcp.Base.{
  ◌≤◌, false, String, str_discrete, Option, none, some, List, [], ◌∷◌, ◌≡◌, refl, ◌≢◌, in_list,
  length, ltb, sym, ◌∙◌, ap, arith, Time, inl, inr, Bool-cases, map, All,
}
use mathlib.Core.Option.{some-injective}
use mathlib.Core.Path.{subst, subst⁻¹}
use network_mcp.Dict
use network_mcp.Dict.{Dict}
use network_mcp.Dict.Laws.{get-put_self, get-put_ne}
use network_mcp.Sessions.{
  SessionInfo, SessionManager, is_expired, live_ids, drop_expired, active_of, add_active,
  user_items, get_active_sessions, touch_found, touch_session,
}
use network_mcp.Sessions.Index.{In, In-head, In-tail}
use network_mcp.Sessions.Room.{live_ids-In, live_ids-In_live, live_ids-Once, length-live_ids-le}
use network_mcp.Sessions.Sweep.{drop_expired-Swept, active_of-ids, active_of-length, live_ids-all}
use network_mcp.Sessions.Upkeep.{find, items, Agree, IsConsistent, narrow-Agree}
use network_mcp.Sessions.Creation.{part-Agree}
use network_mcp.Sessions.Calls.{remove-IsConsistent, is_live_of}

module _ {Meta : Type 0} (now : Time) (m : SessionManager Meta) (a : IsConsistent now m) where
  abbrev T : Dict String (SessionInfo Meta)
  T = m.sessions

  abbrev I : Dict String (List String)
  I = m.user_sessions

  touch-Agree :
      (sid : String) (i : SessionInfo Meta)
      → find sid T ≡ some i
      → is_expired now i ≡ false
      → Agree now m.max_per_user (Dict.put str_discrete sid (record i { last_active = now }) T) I
  touch-Agree sid i there live =
      let j = record i { last_active = now } in
      let T' = Dict.put str_discrete sid j T in
      let back = λ (s : String) (ne : sid ≢ s). get-put_ne str_discrete sid s j T ne in
      let at_sid = λ (s : String) (e : sid ≡ s).
        ap (λ x. find x T') (sym e) ∙ get-put_self str_discrete sid j T in
      record {
        own = λ s k e. elim (str_discrete sid s) [
          | yes same ↦
              ap (λ x. x.session_id) (some-injective k j (sym e ∙ at_sid s same))
              ∙ a.own sid i there
              ∙ same
          | no ne ↦ a.own s k (sym (back s ne) ∙ e)
        ];
        once = a.once;
        short = a.short;
        listed = λ user s h.
            let (k, e, u) = a.listed user s h in
            elim (str_discrete sid s) [
              | yes same ↦
                  let is : i ≡ k = some-injective i k (sym there ∙ ap (λ x. find x T) same ∙ e) in
                  (j, at_sid s same, ap (λ x. x.user_id) is ∙ u)
              | no ne ↦ (k, back s ne ∙ e, u)
            ];
        indexed = λ s k e l. elim (str_discrete sid s) [
          | yes same ↦
              let is : k ≡ j = some-injective k j (sym e ∙ at_sid s same) in
              subst (λ x. In s (items x I)) (ap (λ x. x.user_id) (sym is))
                (subst (λ x. In x (items i.user_id I)) same (a.indexed sid i there live))
          | no ne ↦ a.indexed s k (sym (back s ne) ∙ e) l
        ];
      }

  touch_found-IsConsistent :
      (sid : String) (o : Option (SessionInfo Meta))
      → find sid T ≡ o
      → IsConsistent now (touch_found now sid o m)
  unfolding touch_found
  touch_found-IsConsistent sid none e = a
  touch_found-IsConsistent sid (some i) e = elim (Bool-cases (is_expired now i)) [
    | inl t ↦ rw t (remove-IsConsistent now sid m a)
    | inr f ↦ rw f (touch-Agree sid i e f)
  ]

  pub touch-IsConsistent : (sid : String) → IsConsistent now (touch_session now sid m)
  unfolding touch_session
  touch-IsConsistent sid = touch_found-IsConsistent sid _ refl

  module _ (user : String) where
    abbrev ids : List String
    ids = items user I

    abbrev live : List String
    live = live_ids now T ids

    cut-Agree :
        Agree now m.max_per_user (drop_expired now ids T) (Dict.put str_discrete user live I)
    cut-Agree =
        let W = drop_expired-Swept now ids T in
        part-Agree now m.max_per_user T I a user live (drop_expired now ids T)
          (live_ids-Once now T ids (a.once user)) (length-live_ids-le now T ids)
          (λ s h. let (m', l) = live_ids-In now T s ids h in (m', W.live s l)) W.others W.sub
          (λ s j e l h.
            live_ids-In_live now T s ids h (is_live_of now (find s T) j (W.sub s j e) l))

    uncut-Agree : length ids ≤ length live → Agree now m.max_per_user (drop_expired now ids T) I
    uncut-Agree le =
        let W = drop_expired-Swept now ids T in
        let all = live_ids-all now T ids le in
        narrow-Agree now m.max_per_user T (drop_expired now ids T) I I a W.sub a.once
          (λ other. omega arith) (λ other s h. h)
          (λ other s h. elim (Bool-cases (in_list s ids)) [
            | inl t ↦ W.live s (live_ids-In now T s ids (subst⁻¹ (In s) all t)).1
            | inr f ↦ W.others s f
          ])
          (λ s j e l h. h)

    pub get_active-IsConsistent : IsConsistent now (get_active_sessions now user m).0
    unfolding get_active_sessions user_items
    get_active-IsConsistent = elim (Bool-cases (ltb (length (active_of now T ids)) (length ids))) [
      | inl t ↦ rw (t, active_of-ids now T ids a.own) cut-Agree
      | inr f ↦ rw f (uncut-Agree (ground (arith, active_of-length now T ids)))
    ]

    -- What is returned of a list of ids of the user.
    abbrev Shown : SessionInfo Meta → Type 0
    Shown i = (find i.session_id T ≡ some i) × (i.user_id ≡ user) × (is_expired now i ≡ false)

    active_of-Shown :
        (xs : List String) → ((s : String) → In s xs → In s ids) → All Shown (active_of now T xs)
    unfolding active_of add_active
    active_of-Shown [] sub = tt
    active_of-Shown (x ∷ xs) sub =
        let rest = active_of-Shown xs (λ s h. sub s (In-tail s x xs h)) in
        let (i, e, u) = a.listed user x (sub x (In-head x xs)) in
        elim (Bool-cases (is_expired now i)) [
          | inl t ↦ rw (e, t) rest
          | inr f ↦ rw (e, f) ((ap (λ s. find s T) (a.own x i e) ∙ e, u, f), rest)
        ]

    -- All the live sessions of the user, no other, and no more than the limit.
    pub get_active-Shown :
        All Shown (get_active_sessions now user m).1
        × ((sid : String) (i : SessionInfo Meta)
            → find sid T ≡ some i
            → i.user_id ≡ user
            → is_expired now i ≡ false
            → In sid (map (λ j. j.session_id) (get_active_sessions now user m).1))
        × (length (get_active_sessions now user m).1 ≤ m.max_per_user)
    unfolding get_active_sessions user_items
    get_active-Shown = (
      active_of-Shown ids (λ s h. h),
      (λ sid i e u f. subst⁻¹ (In sid) (active_of-ids now T ids a.own) (
          live_ids-In_live now T sid ids (subst (λ x. In sid (items x I)) u (a.indexed sid i e f))
            (is_live_of now (find sid T) i e f))),
      omega (arith, active_of-length now T ids, length-live_ids-le now T ids, a.short user),
    )

  -- Time passes: what was expired stays so.
  pub later-IsConsistent : (later : Time) → now ≤ later → IsConsistent later m
  unfolding is_expired
  later-IsConsistent later le = record {
    own = a.own;
    once = a.once;
    short = a.short;
    listed = a.listed;
    indexed = λ s i e f. a.indexed s i e (ground arith);
  }
