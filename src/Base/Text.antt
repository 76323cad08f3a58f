-- ===== src/Base/Text.antt =====
-- A Go string is a list of bytes; the functions of package strings that the program calls.
use Prim.Native.Char.{code}
use Prim.Native.Nat.{ℕ, suc}
use Prim.Native.String.{String}
use mathlib.Core.Bool.{Bool, true, false, ◌&&◌, ◌||◌}
use mathlib.Core.Path.{◌≡◌, refl}
use mathlib.Core.Logic.{◌↔◌}
use mathlib.Core.List.{List, [], ◌∷◌, ◌++◌, reverse}
use mathlib.Core.Option.{Option, none, some}
use mathlib.Core.Option
use native.Mathlib.Omega.{arith}
unfoldable use native.Mathlib.Decide.{ℕ_discrete}
use fyer_webframe.Base.Tests.{◌==◌, if◌then◌else◌}

abbrev pub Text : Type 0
Text = List ℕ

-- The bytes of an ASCII literal.
abbrev pub codes : String → Text
codes String.[] = []
codes (String.◌∷◌ c s) = code c ∷ codes s

unfoldable pub text_dec : (s t : Text) → Dec (s ≡ t)
unfolding ℕ_discrete
text_dec = hlevel ℕ_discrete

-- strings.Contains for a one-byte substring.
unfoldable pub contains_byte : Text → ℕ → Bool
contains_byte [] b = false
contains_byte (c ∷ s) b = c == b || contains_byte s b

-- strings.Index for a one-byte substring; `none` is Go's -1.
unfoldable pub index_byte : Text → ℕ → Option ℕ
index_byte [] b = none
index_byte (c ∷ s) b = if c == b then some 0 else Option.map suc (index_byte s b)

-- strings.LastIndex for a one-byte substring.
unfoldable pub last_index_byte : Text → ℕ → Option ℕ
last_index_byte [] b = none
last_index_byte (c ∷ s) b = elim (last_index_byte s b) [
  | some i ↦ some (suc i)
  | none ↦ if c == b then some 0 else none
]

-- strings.HasPrefix.
unfoldable pub has_prefix : Text → Text → Bool
has_prefix s [] = true
has_prefix [] (p ∷ ps) = false
has_prefix (c ∷ s) (p ∷ ps) = c == p && has_prefix s ps

-- strings.HasSuffix.
unfoldable pub has_suffix : Text → Text → Bool
unfolding has_prefix
has_suffix s p = has_prefix (reverse s) (reverse p)

-- strings.Contains.
unfoldable pub contains : Text → Text → Bool
unfolding has_prefix
contains [] p = has_prefix [] p
contains (c ∷ s) p = has_prefix (c ∷ s) p || contains s p

-- One more byte in front of the parts that the rest of the string splits into.
abbrev pub split_step : Bool → ℕ → List Text → List Text
split_step true c ps = [] ∷ ps
split_step false c [] = (c ∷ []) ∷ []
split_step false c (p ∷ ps) = (c ∷ p) ∷ ps

-- strings.Split at a one-byte separator.
unfoldable pub split : ℕ → Text → List Text
split b [] = [] ∷ []
split b (c ∷ s) = split_step (c == b) c (split b s)

unfoldable pub trim_left : ℕ → Text → Text
trim_left b [] = []
trim_left b (c ∷ s) = if c == b then trim_left b s else c ∷ s

-- strings.Trim for a one-byte cutset.
unfoldable pub trim : ℕ → Text → Text
unfolding trim_left
trim b s = reverse (trim_left b (reverse (trim_left b s)))

-- strings.Join at a one-byte separator.
unfoldable pub join : ℕ → List Text → Text
join b [] = []
join b (p ∷ []) = p
join b (p ∷ q ∷ ps) = p ++ (b ∷ join b (q ∷ ps))

pub has_prefix_append : (p s : Text) → has_prefix (p ++ s) p ≡ true
unfolding has_prefix
has_prefix_append [] s = refl
has_prefix_append (c ∷ p) s = ground (arith, has_prefix_append p s)

pub has_prefix_inv : (s p : Text) → has_prefix s p ≡ true → (r : Text) × (s ≡ p ++ r)
unfolding has_prefix
has_prefix_inv s [] h = (s, refl)
has_prefix_inv [] (p ∷ ps) h = cc
has_prefix_inv (c ∷ s) (p ∷ ps) h =
    let (r, e) = has_prefix_inv s ps (ground arith) in (r, ground arith)

pub has_prefix_iff : (s p : Text) → (has_prefix s p ≡ true) ↔ ((r : Text) × (s ≡ p ++ r))
has_prefix_iff s p = (has_prefix_inv s p, λ (r, e). rw e (has_prefix_append p r))

split_step_cons :
    (t : Bool) (c : ℕ) (ps : List Text)
    → (q : Text) × (qs : List Text) × (split_step t c ps ≡ q ∷ qs)
split_step_cons true c ps = ([], ps, refl)
split_step_cons false c [] = (c ∷ [], [], refl)
split_step_cons false c (p ∷ ps) = (c ∷ p, ps, refl)

-- Splitting gives at least one part.
pub split_cons : (b : ℕ) (s : Text) → (p : Text) × (ps : List Text) × (split b s ≡ p ∷ ps)
unfolding split
split_cons b [] = ([], [], refl)
split_cons b (c ∷ s) = split_step_cons (c == b) c (split b s)
