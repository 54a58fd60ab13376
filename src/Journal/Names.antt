-- ===== src/Journal/Names.antt =====
-- The names of rotated files: they begin with the path of the journal and differ from it.
use text.Mathlib.Text.{starts_with}
use text.Mathlib.TextLemmas.{nil-append, append-nil, append_cancel_left, cons-append}
use text.Mathlib.TextPositions.{slice-append_left}
use Prim.Native.String.{char_at}
use kairos_agent.Base.{
  String, ◌≡◌, refl, sym, ap, ◌∙◌, ◌≢◌, Bool, true, false, arith, str_eq, str_eq_iff, append,
  Bool-cases,
}

pub str_eq_refl : (s : String) → str_eq s s ≡ true
str_eq_refl s = (str_eq_iff s s).1 refl

pub starts_itself : (s t : String) → starts_with (append s t) s ≡ true
starts_itself s t = ap (λ x. str_eq x s) (slice-append_left s t) ∙ str_eq_refl s

pub starts_same : (s : String) → starts_with s s ≡ true
starts_same s = ap (λ x. starts_with x s) (sym (append-nil s)) ∙ starts_itself s ""

abbrev is_empty : String → Bool
is_empty String.[] = true
is_empty (String.◌∷◌ c s) = false

dot_cons : (suffix : String) → append "." suffix ≡ String.◌∷◌ (char_at "." 0) suffix
dot_cons suffix =
    cons-append (char_at "." 0) String.[] suffix
    ∙ ap (String.◌∷◌ (char_at "." 0)) (nil-append suffix)

no_suffix : (path suffix : String) → append path (append "." suffix) ≢ path
no_suffix path suffix same =
    let empty : append "." suffix ≡ "" =
      append_cancel_left path (append "." suffix) "" (same ∙ sym (append-nil path)) in
    let apart : false ≡ true = ap is_empty (sym (dot_cons suffix) ∙ empty) in ground (arith, apart)

pub rotated_differs : (path suffix : String) → str_eq (append path (append "." suffix)) path ≡ false
rotated_differs path suffix = ground (
  arith,
  str_eq_iff (append path (append "." suffix)) path,
  no_suffix path suffix,
  Bool-cases (str_eq (append path (append "." suffix)) path),
)
