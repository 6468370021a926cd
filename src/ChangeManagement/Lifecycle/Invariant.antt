-- ===== src/ChangeManagement/Lifecycle/Invariant.antt =====
-- What every operation of a manager keeps.
use network_mcp.Base.{
  ◌≡◌, refl, sym, ap, ◌∙◌, inl, inr, ◌<◌, String, str_discrete, none, some, if_pos, if_neg,
  ℕ_discrete,
}
use mathlib.Core.Path.{subst, subst⁻¹}
use mathlib.Core.Option.{some-injective}
use network_mcp.Dict
use network_mcp.Dict.Laws.{get-put_self, get-put_ne, get-del_self, get-del_ne}
use network_mcp.ChangeManagement.{ChangeRequest, ChangeManager, Ref, update}
use network_mcp.ChangeManagement.Marks.{archive}
use network_mcp.ChangeManagement.Lifecycle.{pending_at, completed_at, Known, IsFinal}

-- An object in a dict stands under its own id and was made before; an archived one is final; and no
-- id stands in both dicts.
pub record Inv (m : ChangeManager) : Type 0 where
  pub held :
      (k : String) (r : Ref) → pending_at k m ≡ some r → ((m.heap r).id ≡ k) × (r < m.next_ref)
  pub kept :
      (k : String) (r : Ref)
      → completed_at k m ≡ some r
      → ((m.heap r).id ≡ k) × (r < m.next_ref) × IsFinal (m.heap r).status
  pub apart : (k : String) (r s : Ref) → pending_at k m ≡ some r → completed_at k m ≡ some s → ⊥

-- What a property of the written object and of the others says of the heap.
pub heap-update {ℓ} :
    (P : Ref → ChangeRequest → Type ℓ) (m : ChangeManager) (r : Ref) (cr : ChangeRequest) (q : Ref)
    → (r ≡ q → P r cr)
    → P q (m.heap q)
    → P q ((update r cr m).heap q)
unfolding update
heap-update P m r cr q new old = elim (ℕ_discrete r q) [
  | yes e ↦ subst⁻¹ (P q) (if_pos (ℕ_discrete r q) e cr (m.heap q)) (subst (λ i. P i cr) e (new e))
  | no n ↦ subst⁻¹ (P q) (if_neg (ℕ_discrete r q) n cr (m.heap q)) old
]

pub id-update :
    (m : ChangeManager) (r : Ref) (cr : ChangeRequest) (q : Ref)
    → cr.id ≡ (m.heap r).id
    → ((update r cr m).heap q).id ≡ (m.heap q).id
id-update m r cr q h = heap-update (λ i c. c.id ≡ (m.heap i).id) m r cr q (λ e. h) refl

-- A write that keeps the id, and leaves an archived object final.
pub update-Inv :
    (m : ChangeManager) (r : Ref) (cr : ChangeRequest)
    → cr.id ≡ (m.heap r).id
    → (completed_at (m.heap r).id m ≡ some r → IsFinal cr.status)
    → Inv m
    → Inv (update r cr m)
unfolding update
update-Inv m r cr h f inv = record {
  held = λ k q e. let (same, old) = inv.held k q e in (id-update m r cr q h ∙ same, old);
  kept = λ k q e.
      let (same, old, final) = inv.kept k q e in
      (
        id-update m r cr q h ∙ same,
        old,
        heap-update (λ i c. IsFinal c.status) m r cr q
            (λ i. f (
              subst⁻¹ (λ j. completed_at j m ≡ some r) (ap (λ j. (m.heap j).id) i ∙ same)
                (e ∙ ap some (sym i))))
            final,
      );
  apart = inv.apart;
}

-- A known object that is archived is the one that its id names, if the id is archived already.
archived_same :
    (m : ChangeManager) (r q : Ref)
    → Known m r
    → Inv m
    → completed_at (m.heap r).id m ≡ some q
    → r ≡ q
archived_same m r q (inl p) inv e = absurd (inv.apart (m.heap r).id r q p e)
archived_same m r q (inr c) inv e = some-injective _ _ (sym c ∙ e)

old_one : (m : ChangeManager) (r : Ref) → Known m r → Inv m → r < m.next_ref
old_one m r (inl p) inv = (inv.held _ r p).1
old_one m r (inr c) inv = (inv.kept _ r c).1

-- The id of the object that is archived, in the two dicts.
pending_at-archive :
    (m : ChangeManager) (r : Ref) (k : String)
    → (m.heap r).id ≡ k
    → pending_at k (archive r m) ≡ none
unfolding archive
pending_at-archive m r k i =
    subst
      (λ j. Dict.get str_discrete j (Dict.del str_discrete (m.heap r).id m.pending_requests) ≡ none)
      i (get-del_self str_discrete (m.heap r).id m.pending_requests)

archive-completed_at :
    (m : ChangeManager) (r : Ref) (k : String)
    → (m.heap r).id ≡ k
    → completed_at k (archive r m) ≡ some r
unfolding archive
archive-completed_at m r k i =
    subst
      (λ j.
        Dict.get str_discrete j (Dict.put str_discrete (m.heap r).id r m.completed_requests)
        ≡ some r)
      i (get-put_self str_discrete (m.heap r).id r m.completed_requests)

pub archive-Inv :
    (m : ChangeManager) (r : Ref)
    → Known m r
    → IsFinal (m.heap r).status
    → Inv m
    → Inv (archive r m)
unfolding archive
archive-Inv m r known final inv = record {
  held = λ k q e. elim (str_discrete (m.heap r).id k) [
    | yes i ↦ absurd (cc (pending_at-archive m r k i, e))
    | no n ↦ inv.held k q (sym (get-del_ne str_discrete (m.heap r).id k m.pending_requests n) ∙ e)
  ];
  kept = λ k q e. elim (str_discrete (m.heap r).id k) [
    | yes i ↦
        let same : r ≡ q = some-injective _ _ (sym (archive-completed_at m r k i) ∙ e) in
        subst (λ x. ((m.heap x).id ≡ k) × (x < m.next_ref) × IsFinal (m.heap x).status) same
          (i, old_one m r known inv, final)
    | no n ↦
        inv.kept k q (sym (get-put_ne str_discrete (m.heap r).id k r m.completed_requests n) ∙ e)
  ];
  apart = λ k q s e c. elim (str_discrete (m.heap r).id k) [
    | yes i ↦ cc (pending_at-archive m r k i, e)
    | no n ↦
        inv.apart k q s (sym (get-del_ne str_discrete (m.heap r).id k m.pending_requests n) ∙ e)
          (sym (get-put_ne str_discrete (m.heap r).id k r m.completed_requests n) ∙ c)
  ];
}

-- What is archived under an id stays so.
pub completed_at-archive :
    (m : ChangeManager) (r : Ref) (k : String) (q : Ref)
    → Known m r
    → Inv m
    → completed_at k m ≡ some q
    → completed_at k (archive r m) ≡ some q
unfolding archive
completed_at-archive m r k q known inv e = elim (str_discrete (m.heap r).id k) [
  | yes i ↦
      archive-completed_at m r k i
      ∙ ap some (archived_same m r q known inv (subst⁻¹ (λ j. completed_at j m ≡ some q) i e))
  | no n ↦ get-put_ne str_discrete (m.heap r).id k r m.completed_requests n ∙ e
]
