-- ===== src/Sessions/Upkeep.antt =====
-- src/network_mcp/session_mgr.py: the agreement of the table of sessions with the index of users.
use network_mcp.Base.{
  ℕ, ◌≤◌, false, String, str_discrete, Option, none, some, List, [], ◌∷◌, ◌≡◌, ◌≢◌, in_list, length,
  if_pos, if_neg, sym, ◌∙◌, ap, arith, Time, ite,
}
use mathlib.Core.Option.{some-injective}
use mathlib.Core.Path.{subst, subst⁻¹}
use network_mcp.Dict
use network_mcp.Dict.{Dict}
use network_mcp.Dict.Laws.{get-put, get-del, get-del_self, get-del_ne}
use network_mcp.Sessions.{
  SessionInfo, SessionManager, is_expired, remove_item, items_or_none, write_items,
}
use network_mcp.Sessions.Index.{
  In, Once, remove_item-In, remove_item-In_ne, remove_item-not-In, remove_item-Once,
  length-remove_item-le,
}

abbrev pub find :
    {Meta : Type 0} → String → Dict String (SessionInfo Meta) → Option (SessionInfo Meta)
find sid table = Dict.get str_discrete sid table

abbrev pub items : String → Dict String (List String) → List String
items user index = items_or_none (Dict.get str_discrete user index)

-- The list of each user has no id twice and is within the limit, and its ids are those of sessions of
-- the user; each session that is not expired is in its user's list.
pub record Agree {Meta : Type 0} (now : Time) (max : ℕ) (table : Dict String (SessionInfo Meta))
    (index : Dict String (List String)) : Type 0 where
  pub own : (sid : String) (i : SessionInfo Meta) → find sid table ≡ some i → i.session_id ≡ sid
  pub once : (user : String) → Once (items user index)
  pub short : (user : String) → length (items user index) ≤ max
  pub listed :
      (user sid : String)
      → In sid (items user index)
      → (i : SessionInfo Meta) × (find sid table ≡ some i) × (i.user_id ≡ user)
  pub indexed :
      (sid : String) (i : SessionInfo Meta)
      → find sid table ≡ some i
      → is_expired now i ≡ false
      → In sid (items i.user_id index)

abbrev pub IsConsistent : {Meta : Type 0} → Time → SessionManager Meta → Type 0
IsConsistent now m = Agree now m.max_per_user m.sessions m.user_sessions

-- A list that is written for a user, and deleted if it is empty.
pub items-write_items :
    (user other : String) (xs : List String) (index : Dict String (List String))
    → items other (write_items user xs index) ≡ ite (str_discrete user other) xs (items other index)
unfolding write_items items_or_none
items-write_items user other [] index = rw (get-del str_discrete user other index) (ground arith)
items-write_items user other (x ∷ xs) index =
    rw (get-put str_discrete user other (x ∷ xs) index) (ground arith)

module _ {Meta : Type 0} (now : Time) (max : ℕ) (T T' : Dict String (SessionInfo Meta))
    (I I' : Dict String (List String)) where
  -- Sessions that are dropped from the table and from the lists alike.
  pub narrow-Agree :
      Agree now max T I
      → ((s : String) (i : SessionInfo Meta) → find s T' ≡ some i → find s T ≡ some i)
      → ((user : String) → Once (items user I'))
      → ((user : String) → length (items user I') ≤ length (items user I))
      → ((user s : String) → In s (items user I') → In s (items user I))
      → ((user s : String) → In s (items user I') → find s T' ≡ find s T)
      → ((s : String) (i : SessionInfo Meta)
          → find s T' ≡ some i
          → is_expired now i ≡ false
          → In s (items i.user_id I)
          → In s (items i.user_id I'))
      → Agree now max T' I'
  narrow-Agree a sub once fewer less stay still = record {
    own = λ s i e. a.own s i (sub s i e);
    once = once;
    short = λ user. omega (arith, a.short user, fewer user);
    listed =
        λ user s h. let (i, e, u) = a.listed user s (less user s h) in (i, stay user s h ∙ e, u);
    indexed = λ s i e live. still s i e live (a.indexed s i (sub s i e) live);
  }

pub find-del :
    {Meta : Type 0} (sid s : String) (T : Dict String (SessionInfo Meta)) (i : SessionInfo Meta)
    → find s (Dict.del str_discrete sid T) ≡ some i
    → (sid ≢ s) × (find s T ≡ some i)
find-del sid s T i e = elim (str_discrete sid s) [
  | yes same ↦
      let f : none ≡ some i =
        sym (get-del_self str_discrete sid T)
        ∙ ap (λ x. find x (Dict.del str_discrete sid T)) same
        ∙ e in
      cc
  | no ne ↦ (ne, sym (get-del_ne str_discrete sid s T ne) ∙ e)
]

module _ {Meta : Type 0} (now : Time) (max : ℕ) (T : Dict String (SessionInfo Meta))
    (I : Dict String (List String)) (a : Agree now max T I) where
  -- A removed session is in no list, and the lists of the others stay.
  module _ (sid : String) (i : SessionInfo Meta) (there : find sid T ≡ some i) where
    abbrev left : List String
    left = remove_item sid (items i.user_id I)

    abbrev rewritten : Dict String (List String)
    rewritten = write_items i.user_id left I

    removed_items :
        (user s : String) → In s (items user rewritten) → In s (items user I) × (sid ≢ s)
    removed_items user s h = elim (str_discrete i.user_id user) [
      | yes e ↦
          let h' : In s left =
            subst (In s)
              (items-write_items i.user_id user left I
                ∙ if_pos (str_discrete i.user_id user) e left (items user I))
              h in
          (
            subst (λ u. In s (items u I)) e (remove_item-In sid s (items i.user_id I) h'),
            λ same. cc (
                sym (remove_item-not-In sid (items i.user_id I) (a.once i.user_id))
                ∙ ap (λ x. in_list x left) same
                ∙ h'),
          )
      | no ne ↦
          let h' : In s (items user I) =
            subst (In s)
              (items-write_items i.user_id user left I
                ∙ if_neg (str_discrete i.user_id user) ne left (items user I))
              h in
          (
            h',
            λ same.
                let (j, e, u) = a.listed user s h' in
                let same_info : i ≡ j =
                  some-injective i j (sym there ∙ ap (λ x. find x T) same ∙ e) in
                absurd (ne (ap (λ x. x.user_id) same_info ∙ u)),
          )
    ]

    -- What holds of the rewritten list and of the other lists holds of every list.
    by_user :
        (P : List String → Type 0) (user : String)
        → (i.user_id ≡ user → P left)
        → (i.user_id ≢ user → P (items user I))
        → P (items user rewritten)
    by_user P user mine others =
        subst⁻¹ P (items-write_items i.user_id user left I)
          (elim (str_discrete i.user_id user) as (λ c. P (ite c left (items user I))) [
            | yes e ↦ mine e
            | no ne ↦ others ne
          ])

    pub remove-Agree : Agree now max (Dict.del str_discrete sid T) rewritten
    remove-Agree =
        narrow-Agree now max T (Dict.del str_discrete sid T) I rewritten a
          (λ s j e. (find-del sid s T j e).1)
          (λ user.
            by_user Once user (λ e. remove_item-Once sid (items i.user_id I) (a.once i.user_id))
              (λ ne. a.once user))
          (λ user.
            by_user (λ xs. length xs ≤ length (items user I)) user
              (λ e.
                subst (λ u. length left ≤ length (items u I)) e
                  (length-remove_item-le sid (items i.user_id I)))
              (λ ne. omega arith))
          (λ user s h. (removed_items user s h).0)
          (λ user s h. get-del_ne str_discrete sid s T (removed_items user s h).1)
          (λ s j e live h.
            by_user (In s) j.user_id
              (λ same.
                remove_item-In_ne sid s (items i.user_id I) (find-del sid s T j e).0
                  (subst⁻¹ (λ u. In s (items u I)) same h))
              (λ ne. h))
