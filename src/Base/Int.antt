-- ===== src/Base/Int.antt =====
-- Signed integers over the native numbers: `negsuc n` is -(n + 1).
use Prim.Native.Nat.{ℕ, suc, ◌+◌, ◌-◌, ◌≤◌}
use mathlib.Core.Path.{◌≡◌, ap}
use mathlib.Core.Bool.{Bool}
use native.Mathlib.Omega.{arith}
use network_mcp.Base.Tests.{leb, ltb, if◌then◌else◌}

pub data ℤ : Type 0 where
  pos : ℕ → ℤ
  negsuc : ℕ → ℤ

abbrev pub pos_part : ℤ → ℕ
pos_part (pos n) = n
pos_part (negsuc n) = 0

abbrev pub neg_part : ℤ → ℕ
neg_part (pos n) = 0
neg_part (negsuc n) = suc n

-- a - b, as an integer.
abbrev pub sub_ℕ : ℕ → ℕ → ℤ
sub_ℕ a b = if leb b a then pos (a - b) else negsuc (b - a - 1)

infixl 65 ◌+ℤ◌ ◌-ℤ◌
infix 50 ◌≤ℤ◌
unfoldable pub ◌+ℤ◌ : ℤ → ℤ → ℤ
a +ℤ b = sub_ℕ (pos_part a + pos_part b) (neg_part a + neg_part b)

unfoldable pub ◌-ℤ◌ : ℤ → ℤ → ℤ
a -ℤ b = sub_ℕ (pos_part a + neg_part b) (neg_part a + pos_part b)

abbrev pub ◌≤ℤ◌ : ℤ → ℤ → Type 0
a ≤ℤ b = pos_part a + neg_part b ≤ pos_part b + neg_part a

-- `a > b`, as a test.
abbrev pub gtb_ℤ : ℤ → ℤ → Bool
gtb_ℤ a b = ltb (pos_part b + neg_part a) (pos_part a + neg_part b)

-- One lemma for each operation lets `omega` work with the operations shut.
pub +ℤ_parts :
    (a b : ℤ)
    → pos_part (a +ℤ b) + neg_part a + neg_part b ≡ neg_part (a +ℤ b) + pos_part a + pos_part b
unfolding ◌+ℤ◌
+ℤ_parts a b = ground arith

pub -ℤ_parts :
    (a b : ℤ)
    → pos_part (a -ℤ b) + neg_part a + pos_part b ≡ neg_part (a -ℤ b) + pos_part a + neg_part b
unfolding ◌-ℤ◌
-ℤ_parts a b = ground arith

pub eq_of_parts : (a b : ℤ) → pos_part a + neg_part b ≡ pos_part b + neg_part a → a ≡ b
eq_of_parts a b h = ground arith

pub ruleset int_laws = (arith, +ℤ_parts, -ℤ_parts, eq_of_parts)

-- Taking a part away from both sides of an account, putting one on, and moving one to the debt.
pub account_sub :
    (m : ℤ) (debt s t t' : ℕ)
    → m +ℤ pos debt ≡ pos t
    → t' + s ≡ t
    → (m -ℤ pos s) +ℤ pos debt ≡ pos t'
account_sub m debt s t t' h e = omega (int_laws, ap pos_part h, ap neg_part h)

pub account_add :
    (m : ℤ) (debt s t : ℕ) → m +ℤ pos debt ≡ pos t → (m +ℤ pos s) +ℤ pos debt ≡ pos (t + s)
account_add m debt s t h = omega (int_laws, ap pos_part h, ap neg_part h)

pub account_owe : (m : ℤ) (s t : ℕ) → m ≡ pos t → (m -ℤ pos s) +ℤ pos s ≡ pos t
account_owe m s t h = omega (int_laws, ap pos_part h, ap neg_part h)

pub account_clear : (m : ℤ) (t : ℕ) → m +ℤ pos 0 ≡ pos t → m ≡ pos t
account_clear m t h = omega (int_laws, ap pos_part h, ap neg_part h)

pub account_open : (m : ℤ) (t : ℕ) → m ≡ pos t → m +ℤ pos 0 ≡ pos t
account_open m t h = omega (int_laws, ap pos_part h, ap neg_part h)
