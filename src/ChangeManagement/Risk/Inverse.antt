-- ===== src/ChangeManagement/Risk/Inverse.antt =====
-- Rollback commands taken twice.
use network_mcp.Base.{
  ◌≡◌, refl, ap, sym, ◌∙◌, Bool, true, false, String, none, List, [], ◌∷◌, ◌++◌, if◌then◌else◌, All,
  arith,
}
use mathlib.Core.List.{append-nil}
use network_mcp.Base.Text.{
  strip, lstrip, rstrip, push_left, is_empty, is_space, drop_prefix, prepend, drop_prefix-prepend,
  rstrip-strip,
}
use network_mcp.ChangeManagement.Risk.{
  invert, or_negated, reversed, invert_all, generate_rollback_commands,
}

-- A command that is not empty, has no blanks around it, and does not start with "no ".
pub record IsPlain (c : String) : Type 0 where
  pub stripped : strip c ≡ c
  pub positive : drop_prefix "no " c ≡ none
  pub some_text : is_empty c ≡ false

-- A plain command, or one with "no " before it.
pub data IsCommand : String → Type 0 where
  plain : (c : String) → IsPlain c → IsCommand c
  negated : (c : String) → IsPlain c → IsCommand (prepend "no " c)

push_no :
    (s : String)
    → is_empty s ≡ false
    → push_left "n" (push_left "o" (push_left " " s)) ≡ prepend "no " s
unfolding push_left prepend is_empty
push_no String.[] h = cc
push_no (String.◌∷◌ d s) h = refl

strip-negated : (c : String) → IsPlain c → strip (prepend "no " c) ≡ prepend "no " c
unfolding strip lstrip rstrip prepend is_space
strip-negated c h =
    ap (λ s. push_left "n" (push_left "o" (push_left " " s))) (rstrip-strip c h.stripped)
    ∙ push_no c h.some_text

strip-IsCommand : (c : String) → IsCommand c → strip c ≡ c
strip-IsCommand _ (plain c h) = h.stripped
strip-IsCommand _ (negated c h) = strip-negated c h

some_text-IsCommand : (c : String) → IsCommand c → is_empty c ≡ false
unfolding is_empty prepend
some_text-IsCommand _ (plain c h) = h.some_text
some_text-IsCommand _ (negated c h) = refl

invert-plain : (c : String) → IsPlain c → invert c ≡ prepend "no " c
unfolding invert or_negated
invert-plain c h = rw h.positive refl

invert-negated : (c : String) → invert (prepend "no " c) ≡ c
unfolding invert or_negated
invert-negated c = rw (drop_prefix-prepend "no " c) refl

invert-IsCommand : (c : String) → IsCommand c → IsCommand (invert c)
invert-IsCommand _ (plain c h) = rw (invert-plain c h) (negated c h)
invert-IsCommand _ (negated c h) = rw (invert-negated c) (plain c h)

invert-invert : (c : String) → IsCommand c → invert (invert c) ≡ c
invert-invert _ (plain c h) = rw (invert-plain c h) (invert-negated c)
invert-invert _ (negated c h) = rw (invert-negated c) (invert-plain c h)

invert_all-append : (xs ys : List String) → invert_all (xs ++ ys) ≡ invert_all xs ++ invert_all ys
unfolding invert_all
invert_all-append [] ys = refl
invert_all-append (x ∷ xs) ys = let ih = invert_all-append xs ys in ground arith

reversed-append_one : (xs : List String) (x : String) → reversed (xs ++ (x ∷ [])) ≡ x ∷ reversed xs
unfolding reversed
reversed-append_one [] x = refl
reversed-append_one (y ∷ xs) x = ap (λ zs. zs ++ (y ∷ [])) (reversed-append_one xs x)

reversed-reversed : (xs : List String) → reversed (reversed xs) ≡ xs
unfolding reversed
reversed-reversed [] = refl
reversed-reversed (x ∷ xs) =
    reversed-append_one (reversed xs) x ∙ ap (λ zs. x ∷ zs) (reversed-reversed xs)

reversed-keep :
    (b : Bool) (y : String) (xs zs : List String)
    → reversed xs ≡ zs
    → reversed (if b then xs else y ∷ xs) ≡ zs ++ (if b then [] else y ∷ [])
unfolding reversed
reversed-keep true y xs zs h = h ∙ sym (append-nil zs)
reversed-keep false y xs zs h = ap (λ ws. ws ++ (y ∷ [])) h

reversed-invert_all : (xs : List String) → reversed (invert_all xs) ≡ invert_all (reversed xs)
unfolding reversed invert_all
reversed-invert_all [] = refl
reversed-invert_all (x ∷ xs) =
    reversed-keep (is_empty (strip x)) (invert (strip x)) (invert_all xs) _ (reversed-invert_all xs)
    ∙ sym (invert_all-append (reversed xs) (x ∷ []))

cons-both : {x y : String} {xs ys : List String} → x ≡ y → xs ≡ ys → x ∷ xs ≡ y ∷ ys
cons-both p q = cc (p, q)

invert_all-invert_all : (cs : List String) → All IsCommand cs → invert_all (invert_all cs) ≡ cs
unfolding invert_all
invert_all-invert_all [] h = refl
invert_all-invert_all (c ∷ cs) (h, hs) =
    let same = strip-IsCommand c h in
    let text = some_text-IsCommand c h in
    let other = invert-IsCommand c h in
    rw (same, text)
      (rw (strip-IsCommand (invert c) other, some_text-IsCommand (invert c) other)
        (cons-both (invert-invert c h) (invert_all-invert_all cs hs)))

-- For commands without blanks around them, each with one "no " before it at most, the rollback of the
-- rollback is the change: generating rollback commands twice gives the commands back, in order.
pub generate_rollback_commands_involutive :
    (commands : List String)
    → All IsCommand commands
    → generate_rollback_commands (generate_rollback_commands commands) ≡ commands
unfolding generate_rollback_commands
generate_rollback_commands_involutive commands h =
    ap invert_all (reversed-invert_all (reversed commands))
    ∙ ap (λ cs. invert_all (invert_all cs)) (reversed-reversed commands)
    ∙ invert_all-invert_all commands h
