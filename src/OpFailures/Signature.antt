-- ===== src/OpFailures/Signature.antt =====
-- core-console/backend/opfailures.go: two failures have one signature exactly if kind, target and reason
-- are the same, as long as no kind and no target has a bar.
use Prim.Native.Nat.{Ordering, compare as compare_ℕ}
use Prim.Native.Char.{Char, code}
use Prim.Native.String.append
use Prim.Native.String.compare
use Prim.Native.String.{then}
use text.Mathlib.Text.{is_eq}
use ncn_platform.Base.{
  Bool, true, false, not, ◌&&◌, ◌==◌, String, str_eq, text_append, ◌≡◌, refl, ap, ap₂, ◌∙◌, arith,
}
use ncn_platform.OpFailures.{OpFailure, signature}

abbrev pub barless : String → Bool
barless String.[] = true
barless (String.◌∷◌ c s) = not (code c == 124) && barless s

-- The same kind, target and reason.
abbrev pub same_failure : OpFailure → OpFailure → Bool
same_failure f g = str_eq f.kind g.kind && (str_eq f.target g.target && str_eq f.reason g.reason)

abbrev pub Barless : OpFailure → Type 0
Barless f = (barless f.kind ≡ true) × (barless f.target ≡ true)

is_eq-then :
    (o p : Ordering) → is_eq (then o p) ≡ (elim o [ Ordering.eq ↦ true | _ ↦ false ] && is_eq p)
is_eq-then Ordering.lt p = refl
is_eq-then Ordering.eq p = refl
is_eq-then Ordering.gt p = refl

str_eq-cons :
    (c d : Char) (s t : String)
    → str_eq (String.◌∷◌ c s) (String.◌∷◌ d t) ≡ (code c == code d && str_eq s t)
str_eq-cons c d s t =
    ap is_eq (compare.cons-cons c d s t) ∙ is_eq-then (compare_ℕ (code c) (code d)) _

abbrev bar : Char
bar = "|"

append-bar : (a : String) → text_append "|" a ≡ String.◌∷◌ bar a
append-bar a = append.cons bar "" a ∙ ap (λ t. String.◌∷◌ bar t) (append.nil a)

abbrev joined : String → String → String
joined s a = text_append s (text_append "|" a)

joined-nil : (a : String) → joined "" a ≡ String.◌∷◌ bar a
joined-nil a = append.nil (text_append "|" a) ∙ append-bar a

joined-cons : (c : Char) (s a : String) → joined (String.◌∷◌ c s) a ≡ String.◌∷◌ c (joined s a)
joined-cons c s a = append.cons c s (text_append "|" a)

str_eq-joined :
    (s t a b : String)
    → barless s ≡ true
    → barless t ≡ true
    → str_eq (joined s a) (joined t b) ≡ (str_eq s t && str_eq a b)
str_eq-joined String.[] String.[] a b h k =
    ap₂ str_eq (joined-nil a) (joined-nil b) ∙ str_eq-cons bar bar a b
str_eq-joined String.[] (String.◌∷◌ d t) a b h k =
    ap₂ str_eq (joined-nil a) (joined-cons d t b)
    ∙ str_eq-cons bar d a (joined t b)
    ∙ ground (arith, k, ap is_eq (compare.nil-cons d t))
str_eq-joined (String.◌∷◌ c s) String.[] a b h k =
    ap₂ str_eq (joined-cons c s a) (joined-nil b)
    ∙ str_eq-cons c bar (joined s a) b
    ∙ ground (arith, h, ap is_eq (compare.cons-nil c s))
str_eq-joined (String.◌∷◌ c s) (String.◌∷◌ d t) a b h k =
    ap₂ str_eq (joined-cons c s a) (joined-cons d t b)
    ∙ str_eq-cons c d (joined s a) (joined t b)
    ∙ ground
        (arith, str_eq-cons c d s t, str_eq-joined s t a b (ground (arith, h)) (ground (arith, k)))

pub signature-same_failure :
    (f g : OpFailure)
    → Barless f
    → Barless g
    → str_eq (signature f) (signature g) ≡ same_failure f g
signature-same_failure f g h k =
    str_eq-joined f.kind g.kind (joined f.target f.reason) (joined g.target g.reason) h.0 k.0
    ∙ ap (λ b. str_eq f.kind g.kind && b)
        (str_eq-joined f.target g.target f.reason g.reason h.1 k.1)
