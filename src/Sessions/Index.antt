-- ===== src/Sessions/Index.antt =====
-- src/network_mcp/session_mgr.py: lists of session ids without repetition.
use network_mcp.Base.{
  ◌≤◌, true, false, String, str_discrete, List, [], ◌∷◌, ◌++◌, ◌≡◌, refl, ◌≢◌, in_list, length,
  if_pos, if_neg, sym, ◌∙◌, ap, arith, ◌⊎◌, inl, inr,
}
use mathlib.Core.Path.{subst, subst⁻¹}
use network_mcp.Sessions.{remove_item}

abbrev pub In : String → List String → Type 0
In s xs = in_list s xs ≡ true

abbrev pub Once : List String → Type 0
Once [] = Unit
Once (x ∷ xs) = (in_list x xs ≡ false) × Once xs

pub In-cases : (s x : String) (xs : List String) → In s (x ∷ xs) → (s ≡ x) ⊎ In s xs
unfolding in_list
In-cases s x xs h = elim (str_discrete s x) [
  | yes e ↦ inl e
  | no ne ↦ inr (sym (if_neg (str_discrete s x) ne true (in_list s xs)) ∙ h)
]

pub not-In-nil : (s : String) → ¬ In s []
unfolding in_list
not-In-nil s h = cc

pub absent-cons :
    (s x : String) (xs : List String)
    → in_list s (x ∷ xs) ≡ false
    → (x ≢ s) × (in_list s xs ≡ false)
unfolding in_list
absent-cons s x xs h = (ground arith, ground arith)

pub In-head : (x : String) (xs : List String) → In x (x ∷ xs)
unfolding in_list
In-head x xs = if_pos (str_discrete x x) refl true (in_list x xs)

pub In-tail : (s x : String) (xs : List String) → In s xs → In s (x ∷ xs)
unfolding in_list
In-tail s x xs h = ground arith

-- An id of the rest is not the head.
pub Once-ne : (s x : String) (xs : List String) → Once (x ∷ xs) → In s xs → s ≢ x
Once-ne s x xs o h e = cc (sym o.0 ∙ ap (λ i. in_list i xs) (sym e) ∙ h)

pub remove_item-In : (x s : String) (xs : List String) → In s (remove_item x xs) → In s xs
unfolding remove_item in_list
remove_item-In x s [] h = h
remove_item-In x s (y ∷ ys) h = elim (str_discrete y x) [
  | yes e ↦ In-tail s y ys (subst (In s) (if_pos (str_discrete y x) e ys (y ∷ remove_item x ys)) h)
  | no ne ↦
      let h' = subst (In s) (if_neg (str_discrete y x) ne ys (y ∷ remove_item x ys)) h in
      elim (In-cases s y (remove_item x ys) h') [
        | inl e ↦ subst (λ i. In s (i ∷ ys)) e (In-head s ys)
        | inr m ↦ In-tail s y ys (remove_item-In x s ys m)
      ]
]

pub remove_item-In_ne :
    (x s : String) (xs : List String) → x ≢ s → In s xs → In s (remove_item x xs)
unfolding remove_item in_list
remove_item-In_ne x s [] ne h = h
remove_item-In_ne x s (y ∷ ys) ne h = ground (arith, remove_item-In_ne x s ys ne)

pub remove_item-not-In :
    (x : String) (xs : List String) → Once xs → in_list x (remove_item x xs) ≡ false
unfolding remove_item in_list
remove_item-not-In x [] o = refl
remove_item-not-In x (y ∷ ys) o = ground (arith, remove_item-not-In x ys o.1)

remove_item-absent :
    (x s : String) (xs : List String) → in_list s xs ≡ false → in_list s (remove_item x xs) ≡ false
unfolding remove_item in_list
remove_item-absent x s [] h = h
remove_item-absent x s (y ∷ ys) h = ground (arith, remove_item-absent x s ys)

pub remove_item-Once : (x : String) (xs : List String) → Once xs → Once (remove_item x xs)
unfolding remove_item
remove_item-Once x [] o = tt
remove_item-Once x (y ∷ ys) o = elim (str_discrete y x) [
  | yes e ↦ subst⁻¹ Once (if_pos (str_discrete y x) e ys (y ∷ remove_item x ys)) o.1
  | no ne ↦
      subst⁻¹ Once (if_neg (str_discrete y x) ne ys (y ∷ remove_item x ys))
        (remove_item-absent x y ys o.0, remove_item-Once x ys o.1)
]

pub length-remove_item-le : (x : String) (xs : List String) → length (remove_item x xs) ≤ length xs
unfolding remove_item
length-remove_item-le x [] = omega arith
length-remove_item-le x (y ∷ ys) = ground (arith, length-remove_item-le x ys)

pub In-append : (s : String) (xs ys : List String) → In s (xs ++ ys) → In s xs ⊎ In s ys
unfolding in_list
In-append s [] ys h = inr h
In-append s (x ∷ xs) ys h = elim (In-cases s x (xs ++ ys) h) [
  | inl e ↦ inl (subst (λ i. In s (i ∷ xs)) e (In-head s xs))
  | inr m ↦ elim (In-append s xs ys m) [ inl a ↦ inl (In-tail s x xs a) | inr b ↦ inr b ]
]

pub In-append_left : (s : String) (xs ys : List String) → In s xs → In s (xs ++ ys)
unfolding in_list
In-append_left s (x ∷ xs) ys h = ground (arith, In-append_left s xs ys)
In-append_left s [] ys h = cc

pub In-append_right : (s : String) (xs ys : List String) → In s ys → In s (xs ++ ys)
unfolding in_list
In-append_right s [] ys h = h
In-append_right s (x ∷ xs) ys h = In-tail s x (xs ++ ys) (In-append_right s xs ys h)

append-absent :
    (y x : String) (xs : List String)
    → in_list y xs ≡ false
    → y ≢ x
    → in_list y (xs ++ x ∷ []) ≡ false
unfolding in_list
append-absent y x [] h ne = ground arith
append-absent y x (z ∷ zs) h ne = ground (arith, append-absent y x zs)

-- A new id behind the others.
pub append-Once :
    (x : String) (xs : List String) → in_list x xs ≡ false → Once xs → Once (xs ++ x ∷ [])
unfolding in_list
append-Once x [] n o = (refl, tt)
append-Once x (y ∷ ys) n o =
    let ne : y ≢ x = ground arith in
    let rest : in_list x ys ≡ false = ground arith in
    (append-absent y x ys o.0 ne, append-Once x ys rest o.1)
