-- ===== src/ChangeManagement/Lifecycle/Keeps.antt =====
-- The writes, the archive, the creation and the approval of a manager, against its invariant.
use network_mcp.Base.{
  ◌≡◌, refl, sym, ap, ◌∙◌, ◌⊎◌, inl, inr, suc, ◌<◌, Bool, String, str_discrete, Option, none, some,
  if_pos, if_neg, ℕ_discrete, arith, Time, if_split, Option-cases,
}
use mathlib.Core.Path.{subst, subst⁻¹}
use mathlib.Core.Option.{some-injective}
use network_mcp.Dict
use network_mcp.Dict.Laws.{get-put_self, get-put_ne}
use network_mcp.ChangeManagement.{
  ChangeRequest, ChangeManager, Ref, update, add_request, auto_approve, approve_ref, is_pending,
}
use network_mcp.ChangeManagement.Marks.{archive}
use network_mcp.ChangeManagement.Lifecycle.{pending_at, completed_at, Known, IsFinal}
use network_mcp.ChangeManagement.Lifecycle.Invariant.{
  Inv, id-update, update-Inv, archive-Inv, completed_at-archive,
}

-- An operation keeps the invariant, and every archived entry.
pub record Keeps (m n : ChangeManager) : Type 0 where
  pub inv : Inv n
  pub stays : (k : String) (q : Ref) → completed_at k m ≡ some q → completed_at k n ≡ some q

pub heap-update_self :
    (m : ChangeManager) (r : Ref) (cr : ChangeRequest) → (update r cr m).heap r ≡ cr
unfolding update
heap-update_self m r cr = if_pos (ℕ_discrete r r) refl _ _

Known-update :
    (m : ChangeManager) (r : Ref) (cr : ChangeRequest)
    → cr.id ≡ (m.heap r).id
    → Known m r
    → Known (update r cr m) r
unfolding update
Known-update m r cr h known =
    subst⁻¹ (λ k. (pending_at k m ≡ some r) ⊎ (completed_at k m ≡ some r)) (id-update m r cr r h)
      known

pub update-Keeps :
    (m : ChangeManager) (r : Ref) (cr : ChangeRequest)
    → cr.id ≡ (m.heap r).id
    → (completed_at (m.heap r).id m ≡ some r → IsFinal cr.status)
    → Inv m
    → Keeps m (update r cr m)
unfolding update
update-Keeps m r cr h f inv = record { inv = update-Inv m r cr h f inv; stays = λ k q e. e }

-- The last lines of mark_completed, mark_failed and of a rollback: a final status, and the archive.
pub close-Keeps :
    (m : ChangeManager) (r : Ref) (cr : ChangeRequest)
    → cr.id ≡ (m.heap r).id
    → IsFinal cr.status
    → Known m r
    → Inv m
    → Keeps m (archive r (update r cr m))
close-Keeps m r cr h final known inv =
    let up = update-Keeps m r cr h (λ e. final) inv in
    let known' = Known-update m r cr h known in
    record {
      inv =
          archive-Inv (update r cr m) r known'
            (subst⁻¹ (λ c. IsFinal c.status) (heap-update_self m r cr) final) up.inv;
      stays = λ k q e. completed_at-archive (update r cr m) r k q known' up.inv (up.stays k q e);
    }

auto_approve-id : (b : Bool) (cr : ChangeRequest) → (auto_approve b cr).id ≡ cr.id
unfolding auto_approve
auto_approve-id b cr = ground arith

old_object :
    (m : ChangeManager) (cr : ChangeRequest) (q : Ref)
    → q < m.next_ref
    → (update m.next_ref cr m).heap q ≡ m.heap q
unfolding update
old_object m cr q h = if_neg (ℕ_discrete m.next_ref q) (λ e. omega arith) _ _

put_here :
    (m : ChangeManager) (id k : String)
    → id ≡ k
    → Dict.get str_discrete k (Dict.put str_discrete id m.next_ref m.pending_requests)
      ≡ some m.next_ref
put_here m id k i =
    subst
      (λ j.
        Dict.get str_discrete j (Dict.put str_discrete id m.next_ref m.pending_requests)
        ≡ some m.next_ref)
      i (get-put_self str_discrete id m.next_ref m.pending_requests)

pub create-Keeps :
    (m : ChangeManager) (cr : ChangeRequest)
    → completed_at cr.id m ≡ none
    → Inv m
    → Keeps m (add_request cr m).0
unfolding add_request
create-Keeps m cr c inv = record {
  inv = record {
    held = λ k q e. elim (str_discrete cr.id k) [
      | yes i ↦
          let same : m.next_ref ≡ q = some-injective _ _ (sym (put_here m cr.id k i) ∙ e) in
          subst
            (λ x.
              (((update m.next_ref (auto_approve m.require_approval cr) m).heap x).id ≡ k)
              × (x < suc m.next_ref))
            same
            (
              ap (λ (c : ChangeRequest). c.id) (heap-update_self m m.next_ref _)
                  ∙ auto_approve-id m.require_approval cr
                  ∙ i,
              omega arith,
            )
      | no n ↦
          let (same, old) =
            inv.held k q
              (sym (get-put_ne str_discrete cr.id k m.next_ref m.pending_requests n) ∙ e) in
          (ap (λ (c : ChangeRequest). c.id) (old_object m _ q old) ∙ same, omega arith)
    ];
    kept = λ k q e.
        let (same, old, final) = inv.kept k q e in
        (
          ap (λ (c : ChangeRequest). c.id) (old_object m _ q old) ∙ same,
          omega arith,
          subst⁻¹ (λ (c : ChangeRequest). IsFinal c.status) (old_object m _ q old) final,
        );
    apart = λ k q s e d. elim (str_discrete cr.id k) [
      | yes i ↦ cc (subst (λ j. completed_at j m ≡ none) i c, d)
      | no n ↦
          inv.apart k q s
            (sym (get-put_ne str_discrete cr.id k m.next_ref m.pending_requests n) ∙ e) d
    ];
  };
  stays = λ k q e. e;
}

pub pending_not_archived :
    (m : ChangeManager) (k : String) (r : Ref)
    → pending_at k m ≡ some r
    → Inv m
    → completed_at (m.heap r).id m ≡ some r
    → ⊥
pending_not_archived m k r p inv c =
    inv.apart k r r p (subst (λ j. completed_at j m ≡ some r) (inv.held k r p).0 c)

pub approve-Keeps :
    (m : ChangeManager) (now : Time) (change_id approved_by reason : String) (o : Option Ref)
    → pending_at change_id m ≡ o
    → Inv m
    → Keeps m (approve_ref now approved_by reason m o).0
unfolding approve_ref
approve-Keeps m now change_id approved_by reason none p inv = record {
  inv = inv;
  stays = λ k q e. e;
}
approve-Keeps m now change_id approved_by reason (some r) p inv =
    if_split (λ (x : ChangeManager × Option Ref). Keeps m x.0) (is_pending (m.heap r).status)
      (λ h. update-Keeps m r _ refl (λ e. absurd (pending_not_archived m change_id r p inv e)) inv)
      (λ h. record { inv = inv; stays = λ k q e. e })

pub capture-Keeps :
    (m : ChangeManager) (r : Ref) (cr : ChangeRequest)
    → cr.id ≡ (m.heap r).id
    → cr.status ≡ (m.heap r).status
    → Inv m
    → Keeps m (update r cr m)
capture-Keeps m r cr h e inv =
    update-Keeps m r cr h (λ c. subst⁻¹ IsFinal e (inv.kept (m.heap r).id r c).2) inv

pub archived_facts :
    (m : ChangeManager) (k : String) (q : Ref)
    → completed_at k m ≡ some q
    → Inv m
    → (completed_at k m ≡ some q) × (pending_at k m ≡ none) × IsFinal (m.heap q).status
archived_facts m k q e inv = (
  e,
  elim (Option-cases (pending_at k m)) [ inl n ↦ n | inr (r, p) ↦ absurd (inv.apart k r q p e) ],
  (inv.kept k q e).2,
)
