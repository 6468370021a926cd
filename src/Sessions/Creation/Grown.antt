-- ===== src/Sessions/Creation/Grown.antt =====
-- src/network_mcp/session_mgr.py: a new session behind the others of its user.
use network_mcp.Base.{
  ℕ, ◌≤◌, ◌<◌, false, String, str_discrete, none, some, List, [], ◌∷◌, ◌++◌, ◌≡◌, refl, ◌≢◌,
  in_list, length, sym, ◌∙◌, ap, arith, Time, inl, inr, Bool-cases, ◌⊎◌, length-append,
}
use mathlib.Core.Option.{some-injective}
use mathlib.Core.Path.{subst, subst⁻¹}
use network_mcp.Dict
use network_mcp.Dict.{Dict}
use network_mcp.Dict.Laws.{get-put_self, get-put_ne}
use network_mcp.Sessions.{SessionInfo}
use network_mcp.Sessions.Index.{
  In, Once, In-cases, In-append, In-append_left, In-append_right, In-head, append-Once, not-In-nil,
}
use network_mcp.Sessions.Upkeep.{find, items, Agree}
use network_mcp.Sessions.Creation.{put_items}

module _ {Meta : Type 0} (now : Time) (max : ℕ) (T : Dict String (SessionInfo Meta))
    (I : Dict String (List String)) (r : List String) (i : SessionInfo Meta)
    (a : Agree now max T (Dict.put str_discrete i.user_id r I)) (room : length r < max)
    (fresh : find i.session_id T ≡ none) where
  abbrev before : Dict String (List String)
  before = Dict.put str_discrete i.user_id r I

  abbrev grown : List String
  grown = r ++ i.session_id ∷ []

  abbrev after : Dict String (List String)
  after = Dict.put str_discrete i.user_id grown I

  abbrev table : Dict String (SessionInfo Meta)
  table = Dict.put str_discrete i.session_id i T

  mine : items i.user_id before ≡ r
  mine = put_items (λ xs. xs ≡ r) i.user_id i.user_id r I (λ e. refl) (λ ne. absurd (ne refl))

  theirs : (other : String) → i.user_id ≢ other → items other before ≡ items other I
  theirs other ne =
      put_items (λ xs. xs ≡ items other I) i.user_id other r I (λ e. absurd (ne e)) (λ _. refl)

  -- A session that was there is another one.
  apart : (s : String) (j : SessionInfo Meta) → find s T ≡ some j → i.session_id ≢ s
  apart s j e same = let f : none ≡ some j = sym fresh ∙ ap (λ x. find x T) same ∙ e in cc

  older : (s : String) (j : SessionInfo Meta) → find s T ≡ some j → find s table ≡ some j
  older s j e = get-put_ne str_discrete i.session_id s i T (apart s j e) ∙ e

  table-cases :
      (s : String) (j : SessionInfo Meta)
      → find s table ≡ some j
      → ((i.session_id ≡ s) × (i ≡ j)) ⊎ (find s T ≡ some j)
  table-cases s j e = elim (str_discrete i.session_id s) [
    | yes same ↦ inl (
      same,
      some-injective i j
          (sym (get-put_self str_discrete i.session_id i T) ∙ ap (λ x. find x table) same ∙ e),
    )
    | no ne ↦ inr (sym (get-put_ne str_discrete i.session_id s i T ne) ∙ e)
  ]

  grown_listed :
      (s : String)
      → In s grown
      → (j : SessionInfo Meta) × (find s table ≡ some j) × (j.user_id ≡ i.user_id)
  grown_listed s h = elim (In-append s r (i.session_id ∷ []) h) [
    | inl m ↦ let (j, e, u) = a.listed i.user_id s (subst⁻¹ (In s) mine m) in (j, older s j e, u)
    | inr m ↦ elim (In-cases s i.session_id [] m) [
      | inl e ↦ (
        i,
        subst⁻¹ (λ x. find x table ≡ some i) e (get-put_self str_discrete i.session_id i T),
        refl,
      )
      | inr n ↦ absurd (not-In-nil s n)
    ]
  ]

  absent : in_list i.session_id r ≡ false
  absent = elim (Bool-cases (in_list i.session_id r)) [
    | inr f ↦ f
    | inl t ↦
        let (j, e, u) = a.listed i.user_id i.session_id (subst⁻¹ (In i.session_id) mine t) in
        absurd (apart i.session_id j e refl)
  ]

  pub grow-Agree : Agree now max table after
  grow-Agree = record {
    own = λ s j e. elim (table-cases s j e) [
      | inl (same, is) ↦ ap (λ x. x.session_id) (sym is) ∙ same
      | inr f ↦ a.own s j f
    ];
    once = λ other.
        put_items Once i.user_id other grown I
          (λ e. append-Once i.session_id r absent (subst Once mine (a.once i.user_id)))
          (λ ne. subst Once (theirs other ne) (a.once other));
    short = λ other.
        put_items (λ xs. length xs ≤ max) i.user_id other grown I
          (λ e. omega (arith, length-append r (i.session_id ∷ [])))
          (λ ne. subst (λ xs. length xs ≤ max) (theirs other ne) (a.short other));
    listed = λ other s.
        put_items
          (λ xs. In s xs → (j : SessionInfo Meta) × (find s table ≡ some j) × (j.user_id ≡ other))
          i.user_id other grown I (λ e h. let (j, f, u) = grown_listed s h in (j, f, u ∙ e))
          (λ ne h.
            let (j, f, u) = a.listed other s (subst⁻¹ (In s) (theirs other ne) h) in
            (j, older s j f, u));
    indexed = λ s j e live. elim (table-cases s j e) [
      | inl (same, is) ↦
          put_items (In s) i.user_id j.user_id grown I
            (λ _.
              In-append_right s r (i.session_id ∷ [])
                (subst (λ x. In s (x ∷ [])) (sym same) (In-head s [])))
            (λ ne. absurd (ne (ap (λ x. x.user_id) is)))
      | inr f ↦
          let h = a.indexed s j f live in
          put_items (In s) i.user_id j.user_id grown I
            (λ u.
              In-append_left s r (i.session_id ∷ [])
                (subst (In s) mine (subst⁻¹ (λ x. In s (items x before)) u h)))
            (λ ne. subst (In s) (theirs j.user_id ne) h)
    ];
  }
