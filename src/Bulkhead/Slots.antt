-- ===== src/Bulkhead/Slots.antt =====
-- src/network_mcp/connection.py: the blocks that hold a slot of a bulkhead.
use network_mcp.Base.{
  ℕ, ◌+◌, ◌-◌, ◌==◌, true, false, String, str_discrete, Option, none, some, List, [], ◌∷◌, ◌++◌,
  ◌≡◌, refl, ite, arith, Bool-cases, inl, inr, ap, sym, ◌∙◌,
}
use network_mcp.Dict
use network_mcp.Dict.Laws.{get-put}
use network_mcp.Bulkhead.{
  BulkheadManager, init, acquire, release, get_semaphore, semaphore_of, set_value, acquire_value,
  release_value, get_available,
}

-- The bulkhead and the vendor of each block that holds a slot.
pub record Slots : Type 0 where
  pub bulkhead : BulkheadManager
  pub holders : List String

unfoldable pub held : String → List String → ℕ
held v [] = 0
held v (w ∷ ws) = ite (str_discrete w v) 1 0 + held v ws

-- Blocks begin when they get a slot, fail, and end in any order; get_available may be called.
pub data Step : Slots → Slots → Type 0 where
  begin :
      (y : Slots) (v : String)
      → (acquire v y.bulkhead).1 ≡ true
      → Step y (record { bulkhead = (acquire v y.bulkhead).0; holders = v ∷ y.holders })
  time_out :
      (y : Slots) (v : String)
      → (acquire v y.bulkhead).1 ≡ false
      → Step y (record { bulkhead = (acquire v y.bulkhead).0; holders = y.holders })
  leave :
      (y : Slots) (v : String) (before after : List String)
      → y.holders ≡ before ++ v ∷ after
      → Step y (record { bulkhead = release v y.bulkhead; holders = before ++ after })
  ask :
      (y : Slots) (v : String)
      → Step y (record { bulkhead = (get_available v y.bulkhead).0; holders = y.holders })

pub data Reach (y : Slots) : Slots → Type 0 where
  here : Reach y y
  next : {z w : Slots} → Reach y z → Step z w → Reach y w

-- The free slots of a vendor: all of them, before its semaphore is made.
abbrev pub value_or : ℕ → Option ℕ → ℕ
value_or n none = n
value_or n (some m) = m

unfoldable pub free : String → BulkheadManager → ℕ
free v b = value_or b.per_vendor_limit (Dict.get str_discrete v b.semaphores)

-- 1 at the vendor itself, and 0 at any other
abbrev one_at : String → String → ℕ
one_at v w = ite (str_discrete v w) 1 0

free-set_value :
    (v w : String) (n : ℕ) (b : BulkheadManager)
    → free w (set_value v n b) ≡ ite (str_discrete v w) n (free w b)
unfolding free set_value
free-set_value v w n b = rw (get-put str_discrete v w n b.semaphores) (ground arith)

-- What holds of the value of a semaphore that is looked up and perhaps made.
record IsLookUp (v : String) (b : BulkheadManager) (r : BulkheadManager × ℕ) : Type 0 where
  kept : (w : String) → free w r.0 ≡ free w b
  limit : r.0.per_vendor_limit ≡ b.per_vendor_limit
  value : r.1 ≡ free v b

semaphore_of-IsLookUp :
    (v : String) (o : Option ℕ) (b : BulkheadManager)
    → Dict.get str_discrete v b.semaphores ≡ o
    → IsLookUp v b (semaphore_of v o b)
unfolding semaphore_of free
semaphore_of-IsLookUp v (some n) b e = record {
  kept = λ w. refl;
  limit = refl;
  value = sym (ap (value_or b.per_vendor_limit) e);
}
semaphore_of-IsLookUp v none b e = record {
  kept = λ w.
      rw (get-put str_discrete v w b.per_vendor_limit b.semaphores)
        (elim (str_discrete v w)
          as (λ c.
            value_or b.per_vendor_limit
              (ite c (some b.per_vendor_limit) (Dict.get str_discrete w b.semaphores))
            ≡ value_or b.per_vendor_limit (Dict.get str_discrete w b.semaphores)) [
              | yes same ↦ sym (
                  ap (λ i. value_or b.per_vendor_limit (Dict.get str_discrete i b.semaphores))
                    (sym same)
                  ∙ ap (value_or b.per_vendor_limit) e)
              | no ne ↦ refl
            ]);
  limit = refl;
  value = sym (ap (value_or b.per_vendor_limit) e);
}

get_semaphore-IsLookUp : (v : String) (b : BulkheadManager) → IsLookUp v b (get_semaphore v b)
unfolding get_semaphore
get_semaphore-IsLookUp v b = semaphore_of-IsLookUp v _ b refl

value_at :
    (v w : String) (b : BulkheadManager) (r : BulkheadManager × ℕ)
    → IsLookUp v b r
    → v ≡ w
    → r.1 ≡ free w b
value_at v w b r k same = k.value ∙ ap (λ i. free i b) same

-- A slot that is got is one less for its vendor, and none less for any other.
acquire_value_lem :
    (v w : String) (b : BulkheadManager) (r : BulkheadManager × ℕ)
    → IsLookUp v b r
    → (acquire_value v r).1 ≡ true
    → free w (acquire_value v r).0 + one_at v w ≡ free w b
unfolding acquire_value
acquire_value_lem v w b (c, n) k e = elim (Bool-cases (n == 0)) [
  | inl t ↦ let f : false ≡ true = rw t at e in cc
  | inr f ↦
      rw (f, free-set_value v w (n - 1) c)
        (elim (str_discrete v w) as (λ x. ite x (n - 1) (free w c) + ite x 1 0 ≡ free w b) [
          | yes same ↦ ground (arith, value_at v w b (c, n) k same)
          | no ne ↦ omega (arith, k.kept w)
        ])
]

acquire_value_fail :
    (v w : String) (b : BulkheadManager) (r : BulkheadManager × ℕ)
    → IsLookUp v b r
    → (acquire_value v r).1 ≡ false
    → free w (acquire_value v r).0 ≡ free w b
unfolding acquire_value
acquire_value_fail v w b (c, n) k e = elim (Bool-cases (n == 0)) [
  | inl t ↦ rw t (k.kept w)
  | inr f ↦ let t : true ≡ false = rw f at e in cc
]

release_value_lem :
    (v w : String) (b : BulkheadManager) (r : BulkheadManager × ℕ)
    → IsLookUp v b r
    → free w (release_value v r) ≡ free w b + one_at v w
unfolding release_value
release_value_lem v w b (c, n) k =
    rw (free-set_value v w (n + 1) c)
      (elim (str_discrete v w) as (λ x. ite x (n + 1) (free w c) ≡ free w b + ite x 1 0) [
        | yes same ↦ omega (arith, value_at v w b (c, n) k same)
        | no ne ↦ omega (arith, k.kept w)
      ])

acquire_value_limit :
    (v : String) (b : BulkheadManager) (r : BulkheadManager × ℕ)
    → IsLookUp v b r
    → (acquire_value v r).0.per_vendor_limit ≡ b.per_vendor_limit
unfolding acquire_value set_value
acquire_value_limit v b (c, n) k = elim (Bool-cases (n == 0)) [
  | inl t ↦ rw t k.limit
  | inr f ↦ rw f k.limit
]

held-append : (v : String) (xs ys : List String) → held v (xs ++ ys) ≡ held v xs + held v ys
unfolding held
held-append v [] ys = omega arith
held-append v (x ∷ xs) ys = omega (arith, held-append v xs ys)

-- The slots that blocks hold and those that are free are the limit of each vendor.
pub record IsBalanced (limit : ℕ) (y : Slots) : Type 0 where
  pub limited : y.bulkhead.per_vendor_limit ≡ limit
  pub balance : (v : String) → held v y.holders + free v y.bulkhead ≡ limit

Step-IsBalanced : (n : ℕ) {y z : Slots} → Step y z → IsBalanced n y → IsBalanced n z
unfolding acquire release get_available held set_value release_value
Step-IsBalanced n (begin y v e) s =
    let k = get_semaphore-IsLookUp v y.bulkhead in
    record {
      limited = acquire_value_limit v y.bulkhead _ k ∙ s.limited;
      balance = λ w. omega (arith, s.balance w, acquire_value_lem v w y.bulkhead _ k e);
    }
Step-IsBalanced n (time_out y v e) s =
    let k = get_semaphore-IsLookUp v y.bulkhead in
    record {
      limited = acquire_value_limit v y.bulkhead _ k ∙ s.limited;
      balance = λ w. omega (arith, s.balance w, acquire_value_fail v w y.bulkhead _ k e);
    }
Step-IsBalanced n (leave y v before after e) s =
    let k = get_semaphore-IsLookUp v y.bulkhead in
    record {
      limited = k.limit ∙ s.limited;
      balance = λ w. omega (
        arith,
        s.balance w,
        release_value_lem v w y.bulkhead _ k,
        ap (held w) e,
        held-append w before (v ∷ after),
        held-append w before after,
      );
    }
Step-IsBalanced n (ask y v) s =
    let k = get_semaphore-IsLookUp v y.bulkhead in
    record { limited = k.limit ∙ s.limited; balance = λ w. omega (arith, s.balance w, k.kept w) }

unfoldable pub new_slots : ℕ → Slots
unfolding init
new_slots limit = record { bulkhead = init limit; holders = [] }

balanced : (limit : ℕ) {y : Slots} → Reach (new_slots limit) y → IsBalanced limit y
unfolding new_slots init held free Dict.get
balanced limit here = record { limited = refl; balance = λ v. omega arith }
balanced limit (next r st) = Step-IsBalanced limit st (balanced limit r)

-- However blocks begin, time out and end, and whatever is asked in between: the blocks that hold a
-- slot for a vendor and the slots that are free for it are together the limit.
pub Reach-balance :
    (limit : ℕ) {y : Slots}
    → Reach (new_slots limit) y
    → (v : String) → held v y.holders + free v y.bulkhead ≡ limit
unfolding new_slots
Reach-balance limit r v = (balanced limit r).balance v
