-- ===== src/Base/Text.antt =====
-- The methods of Python's str that the source calls on texts: strip, startswith with a slice, and
-- `in`. The blanks are those of str.isspace.
use Prim.Native.Char.{Char, code}
use Prim.Native.Nat.{ℕ}
use Prim.Native.String.{String}
use text.Mathlib.TextEquality.{Char-path}
use mathlib.Core.Path.{◌≡◌, refl, sym, ap, ◌∙◌}
use mathlib.Core.Logic.{inl, inr}
use mathlib.Core.Bool.{Bool, true, false, ◌&&◌, ◌||◌}
use mathlib.Core.Option.{Option, none, some, some-injective}
use mathlib.Core.List.{List, [], ◌∷◌}
use native.Mathlib.Omega.{arith}
use network_mcp.Base.Tests.{leb, ◌==◌, if◌then◌else◌, Bool-cases, if_true, if_false}

unfoldable pub is_space : ℕ → Bool
is_space n =
    (leb 9 n && leb n 13)
    || (leb 28 n && leb n 32)
    || (n == 133)
    || (n == 160)
    || (n == 5760)
    || (leb 8192 n && leb n 8202)
    || (n == 8232)
    || (n == 8233)
    || (n == 8239)
    || (n == 8287)
    || (n == 12288)

unfoldable pub lstrip : String → String
lstrip String.[] = String.[]
lstrip (String.◌∷◌ c s) = let rest = lstrip s in if is_space (code c) then rest else String.◌∷◌ c s

-- A character stays if it is no blank or something stays behind it.
unfoldable pub push_left : Char → String → String
push_left c String.[] = if is_space (code c) then String.[] else String.◌∷◌ c String.[]
push_left c (String.◌∷◌ d s) = String.◌∷◌ c (String.◌∷◌ d s)

unfoldable pub rstrip : String → String
unfolding push_left
rstrip String.[] = String.[]
rstrip (String.◌∷◌ c s) = push_left c (rstrip s)

unfoldable pub strip : String → String
unfolding lstrip rstrip
strip s = rstrip (lstrip s)

unfoldable pub is_empty : String → Bool
is_empty String.[] = true
is_empty (String.◌∷◌ c s) = false

-- The rest of s behind a prefix, if s starts with it.
unfoldable pub drop_prefix : String → String → Option String
drop_prefix String.[] s = some s
drop_prefix (String.◌∷◌ c p) String.[] = none
drop_prefix (String.◌∷◌ c p) (String.◌∷◌ d s) =
    let rest = drop_prefix p s in if code c == code d then rest else none

unfoldable pub is_some {ℓ} : {A : Type ℓ} → Option A → Bool
is_some none = false
is_some (some a) = true

-- `p in s`
unfoldable pub occurs_in : String → String → Bool
unfolding drop_prefix is_some
occurs_in p String.[] = is_some (drop_prefix p String.[])
occurs_in p (String.◌∷◌ c s) =
    let later = occurs_in p s in if is_some (drop_prefix p (String.◌∷◌ c s)) then true else later

-- p before s, character by character
unfoldable pub prepend : String → String → String
prepend String.[] s = s
prepend (String.◌∷◌ c p) s = String.◌∷◌ c (prepend p s)

pub drop_prefix-prepend : (p s : String) → drop_prefix p (prepend p s) ≡ some s
unfolding drop_prefix prepend
drop_prefix-prepend String.[] s = refl
drop_prefix-prepend (String.◌∷◌ c p) s = ground (arith, drop_prefix-prepend p s)

pub prepend-drop_prefix : (p s r : String) → drop_prefix p s ≡ some r → s ≡ prepend p r
unfolding drop_prefix prepend
prepend-drop_prefix String.[] s r h = some-injective _ _ h
prepend-drop_prefix (String.◌∷◌ c p) String.[] r h = cc
prepend-drop_prefix (String.◌∷◌ c p) (String.◌∷◌ d s) r h = elim (Bool-cases (code c == code d)) [
  | inl e ↦
      let same : c ≡ d = Char-path c d (ground arith) in
      let ih = prepend-drop_prefix p s r (sym (if_true _ _ e) ∙ h) in cc
  | inr e ↦ cc (sym (if_false _ _ e) ∙ h)
]

rstrip-push_left : (c : Char) (s : String) → rstrip s ≡ s → rstrip (push_left c s) ≡ push_left c s
unfolding rstrip push_left
rstrip-push_left c String.[] h = elim (Bool-cases (is_space (code c))) [
  | inl e ↦ rw e refl
  | inr e ↦ rw (e, e) refl
]
rstrip-push_left c (String.◌∷◌ d s) h = ap (push_left c) h

rstrip_idem : (s : String) → rstrip (rstrip s) ≡ rstrip s
unfolding rstrip push_left
rstrip_idem String.[] = refl
rstrip_idem (String.◌∷◌ c s) = rstrip-push_left c (rstrip s) (rstrip_idem s)

-- A text that strip leaves alone has no blanks at its end.
pub rstrip-strip : (s : String) → strip s ≡ s → rstrip s ≡ s
unfolding strip
rstrip-strip s h = ap rstrip (sym h) ∙ rstrip_idem (lstrip s) ∙ h

-- `s.split()`: the word that is being read, from the right, and those behind it.
unfoldable pub add_word : String → List String → List String
add_word w ws = if is_empty w then ws else w ∷ ws

unfoldable pub split_word : String → String × List String
unfolding add_word is_space
split_word String.[] = (String.[], [])
split_word (String.◌∷◌ c s) =
    let rest = split_word s in
    if is_space (code c) then (String.[], add_word rest.0 rest.1) else (String.◌∷◌ c rest.0, rest.1)

unfoldable pub split : String → List String
unfolding split_word add_word
split s = add_word (split_word s).0 (split_word s).1
