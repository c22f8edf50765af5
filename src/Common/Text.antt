-- ===== src/Common/Text.antt =====
-- Joining texts, as the code does to build keys.
use Prim.Native.Char.{Char, code}
use Prim.Native.String.{String, ◌++◌, ◌∷◌}
use Prim.Native.String.append
use mathlib.Core.Path.{◌≡◌, sym, ap, ◌∙◌}
use mathlib.Core.Logic.{◌≢◌, inl, inr}
use mathlib.Core.Bool.{false}
use native.Mathlib.Omega.{arith}
use text.Mathlib.Text.{◌==◌ as str_eq}
use text.Mathlib.TextEquality.{eq_iff}
use text.Mathlib.TextLemmas.{append_cancel_left, append_assoc, head-eq_of_cons-eq}
use nexus_ai_gateway.Common.Tests.{Bool-cases}

-- `s + t` on Go strings.
abbrev pub str_append : String → String → String
str_append s t = s ++ t

pub str_append_assoc :
    (s t u : String) → str_append (str_append s t) u ≡ str_append s (str_append t u)
str_append_assoc s t u = append_assoc s t u

pub str_eq-append_left : (p s t : String) → str_eq (str_append p s) (str_append p t) ≡ str_eq s t
str_eq-append_left p s t =
    ground (arith, eq_iff (str_append p s) (str_append p t), eq_iff s t, append_cancel_left p s t)

append_heads :
    (p : String) (c d : Char) (s t u v : String)
    → str_append (p ++ (c ∷ s)) u ≡ str_append (p ++ (d ∷ t)) v
    → c ≡ d
append_heads p c d s t u v e = head-eq_of_cons-eq (
    sym (append.cons c s u)
    ∙ append_cancel_left p ((c ∷ s) ++ u) ((d ∷ t) ++ v)
        (sym (append_assoc p (c ∷ s) u) ∙ e ∙ append_assoc p (d ∷ t) v)
    ∙ append.cons d t v)

-- Two prefixes that differ at a letter give different texts.
pub str_eq_heads :
    (p : String) (c d : Char) (s t u v : String)
    → code c ≢ code d
    → str_eq (str_append (p ++ (c ∷ s)) u) (str_append (p ++ (d ∷ t)) v) ≡ false
str_eq_heads p c d s t u v n =
    elim (Bool-cases (str_eq (str_append (p ++ (c ∷ s)) u) (str_append (p ++ (d ∷ t)) v))) [
      | inl same ↦ absurd (n (ap code (append_heads p c d s t u v ((eq_iff _ _).0 same))))
      | inr other ↦ other
    ]
