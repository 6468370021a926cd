-- ===== src/Sessions/Room.antt =====
-- src/network_mcp/session_mgr.py: the loops over the ids of one user.
use network_mcp.Base.{
  ℕ, ◌≤◌, ◌<◌, Bool, true, false, String, str_discrete, some, List, [], ◌∷◌, ◌≡◌, refl, in_list,
  length, leb, if_true, if_false, sym, ◌∙◌, arith, Time, inl, inr, Bool-cases,
}
use mathlib.Core.Path.{subst, subst⁻¹}
use network_mcp.Dict
use network_mcp.Dict.{Dict}
use network_mcp.Dict.Laws.{get-del_ne}
use network_mcp.Sessions.{SessionInfo, is_live, live_ids, make_room}
use network_mcp.Sessions.Index.{
  In, Once, not-In-nil, absent-cons, In-cases, In-head, In-tail, Once-ne,
}
use network_mcp.Sessions.Upkeep.{find, find-del}

module _ {Meta : Type 0} (now : Time) where
  pub live_ids-In :
      (T : Dict String (SessionInfo Meta)) (s : String) (xs : List String)
      → In s (live_ids now T xs)
      → In s xs × (is_live now (find s T) ≡ true)
  unfolding live_ids
  live_ids-In T s [] h = absurd (not-In-nil s h)
  live_ids-In T s (x ∷ xs) h = elim (Bool-cases (is_live now (find x T))) [
    | inl t ↦
        let h' : In s (x ∷ live_ids now T xs) = subst (In s) (if_true _ _ t) h in
        elim (In-cases s x (live_ids now T xs) h') [
          | inl e ↦ (
            subst (λ i. In s (i ∷ xs)) e (In-head s xs),
            subst (λ i. is_live now (find i T) ≡ true) (sym e) t,
          )
          | inr m ↦ let (a, b) = live_ids-In T s xs m in (In-tail s x xs a, b)
        ]
    | inr f ↦
        let (a, b) = live_ids-In T s xs (subst (In s) (if_false _ _ f) h) in (In-tail s x xs a, b)
  ]

  pub live_ids-In_live :
      (T : Dict String (SessionInfo Meta)) (s : String) (xs : List String)
      → In s xs
      → is_live now (find s T) ≡ true
      → In s (live_ids now T xs)
  unfolding live_ids in_list
  live_ids-In_live T s [] h l = h
  live_ids-In_live T s (x ∷ xs) h l = elim (In-cases s x xs h) [
    | inl e ↦
        let t : is_live now (find x T) ≡ true = subst (λ i. is_live now (find i T) ≡ true) e l in
        subst⁻¹ (In s) (if_true _ _ t)
          (subst (λ i. In s (i ∷ live_ids now T xs)) e (In-head s (live_ids now T xs)))
    | inr m ↦
        let ih = live_ids-In_live T s xs m l in
        elim (Bool-cases (is_live now (find x T))) [
          | inl t ↦ subst⁻¹ (In s) (if_true _ _ t) (In-tail s x (live_ids now T xs) ih)
          | inr f ↦ subst⁻¹ (In s) (if_false _ _ f) ih
        ]
  ]

  pub live_ids-absent :
      (T : Dict String (SessionInfo Meta)) (s : String) (xs : List String)
      → in_list s xs ≡ false
      → in_list s (live_ids now T xs) ≡ false
  unfolding live_ids in_list
  live_ids-absent T s [] h = h
  live_ids-absent T s (x ∷ xs) h = ground (arith, live_ids-absent T s xs)

  pub live_ids-Once :
      (T : Dict String (SessionInfo Meta)) (xs : List String) → Once xs → Once (live_ids now T xs)
  unfolding live_ids
  live_ids-Once T [] o = tt
  live_ids-Once T (x ∷ xs) o = elim (Bool-cases (is_live now (find x T))) [
    | inl t ↦ rw t (live_ids-absent T x xs o.0, live_ids-Once T xs o.1)
    | inr f ↦ rw f (live_ids-Once T xs o.1)
  ]

  pub length-live_ids-le :
      (T : Dict String (SessionInfo Meta)) (xs : List String)
      → length (live_ids now T xs) ≤ length xs
  unfolding live_ids
  length-live_ids-le T [] = omega arith
  length-live_ids-le T (x ∷ xs) = ground (arith, length-live_ids-le T xs)

module _ {Meta : Type 0} where
  -- What the loop that makes room leaves: fewer ids than the limit, without the sessions that it
  -- dropped, and every other session as it was.
  pub record Roomy (max : ℕ) (xs : List String) (T : Dict String (SessionInfo Meta))
      (r : List String × Dict String (SessionInfo Meta) × Bool) : Type 0 where
    pub room : r.2 ≡ true → length r.0 < max
    pub once : Once r.0
    pub fewer : length r.0 ≤ length xs
    pub less : (s : String) → In s r.0 → In s xs
    pub stay : (s : String) → In s r.0 → find s r.1 ≡ find s T
    pub others : (s : String) → in_list s xs ≡ false → find s r.1 ≡ find s T
    pub sub : (s : String) (i : SessionInfo Meta) → find s r.1 ≡ some i → find s T ≡ some i
    pub still : (s : String) (i : SessionInfo Meta) → find s r.1 ≡ some i → In s xs → In s r.0

  pub make_room-Roomy :
      (max : ℕ) (xs : List String) (T : Dict String (SessionInfo Meta))
      → Once xs
      → Roomy max xs T (make_room max xs T)
  unfolding make_room
  make_room-Roomy max [] T o = record {
    room = λ e. ground arith;
    once = tt;
    fewer = omega arith;
    less = λ s h. h;
    stay = λ s h. refl;
    others = λ s h. refl;
    sub = λ s i e. e;
    still = λ s i e h. h;
  }
  make_room-Roomy max (x ∷ xs) T o = elim (Bool-cases (leb max (length (x ∷ xs)))) [
    | inr f ↦ rw f (record {
      room = λ e. ground arith;
      once = o;
      fewer = omega arith;
      less = λ s h. h;
      stay = λ s h. refl;
      others = λ s h. refl;
      sub = λ s i e. e;
      still = λ s i e h. h;
    })
    | inl t ↦
        let ih = make_room-Roomy max xs (Dict.del str_discrete x T) o.1 in
        rw t (record {
          room = ih.room;
          once = ih.once;
          fewer = omega (arith, ih.fewer);
          less = λ s h. In-tail s x xs (ih.less s h);
          stay = λ s h.
              ih.stay s h
              ∙ get-del_ne str_discrete x s T (λ e. Once-ne s x xs o (ih.less s h) (sym e));
          others = λ s h.
              let (ne, m) = absent-cons s x xs h in
              ih.others s m ∙ get-del_ne str_discrete x s T ne;
          sub = λ s i e. (find-del x s T i (ih.sub s i e)).1;
          still = λ s i e h. elim (In-cases s x xs h) [
            | inl same ↦ absurd ((find-del x s T i (ih.sub s i e)).0 (sym same))
            | inr m ↦ ih.still s i e m
          ];
        })
  ]
