-- ===== src/Runtime/Tests/MarkedCodec.antt =====
-- A codec that meets the laws: numbers in unary, and texts with a mark before each character.
use kairos_agent.Base.{
  ℕ, zero, suc, ◌≡◌, refl, ap, ◌≢◌, ◌⊎◌, inl, inr, Bool, true, false, not, Option, none, some, List,
  [], ◌∷◌, str_eq, append, ◌==◌, if◌then◌else◌,
}
use kairos_agent.Base.Int.{ℤ, pos, negsuc}
use kairos_agent.Base.Lists.{length}
use Prim.Native.Char.{Char, code}
use Prim.Native.String.{String}
use text.Mathlib.TextLemmas.{cons≢nil, cons-append}
use kairos_agent.Runtime.Store.{RuntimeSnapshot, Codec, IsCodec}

put : String → String → String
put String.[] rest = String.◌∷◌ "." rest
put (String.◌∷◌ c s) rest = String.◌∷◌ "x" (String.◌∷◌ c (put s rest))

abbrev with_char : Char → Option (String × String) → Option (String × String)
with_char c none = none
with_char c (some (s, r)) = some (String.◌∷◌ c s, r)

get : String → Option (String × String)
get String.[] = none
get (String.◌∷◌ m String.[]) = if code m == b'.' then some ("", "") else none
get (String.◌∷◌ m (String.◌∷◌ c r)) =
    let more = with_char c (get r) in if code m == b'.' then some ("", String.◌∷◌ c r) else more

get-put : (s rest : String) → get (put s rest) ≡ some (s, rest)
unfolding get put
get-put String.[] String.[] = refl
get-put String.[] (String.◌∷◌ c r) = refl
get-put (String.◌∷◌ c s) rest = rw (get-put s rest)

put-append : (s rest t : String) → append (put s rest) t ≡ put s (append rest t)
unfolding put
put-append String.[] rest t = rw cons-append
put-append (String.◌∷◌ c s) rest t = rw (cons-append, cons-append, put-append s rest t)

put_all : List String → String → String
put_all [] rest = rest
put_all (s ∷ l) rest = put s (put_all l rest)

abbrev with_text : String → Option (List String) → Option (List String)
with_text s none = none
with_text s (some l) = some (s ∷ l)

get_all : ℕ → String → Option (List String)
get_all zero text = some []
get_all (suc n) text = elim (get text) [ none ↦ none | some (s, r) ↦ with_text s (get_all n r) ]

get_all-put_all : (l : List String) (rest : String) → get_all (length l) (put_all l rest) ≡ some l
unfolding get_all put_all
get_all-put_all [] rest = refl
get_all-put_all (s ∷ l) rest =
    rw (get-put s (put_all l rest), get_all) (rw (get_all-put_all l rest))

put_all-append :
    (l : List String) (rest t : String) → append (put_all l rest) t ≡ put_all l (append rest t)
unfolding put_all
put_all-append [] rest t = refl
put_all-append (s ∷ l) rest t = rw (put-append s (put_all l rest) t, put_all-append l rest t)

ones : ℕ → String
ones zero = ""
ones (suc n) = String.◌∷◌ "1" (ones n)

size : String → ℕ
size String.[] = 0
size (String.◌∷◌ c s) = suc (size s)

size-ones : (n : ℕ) → size (ones n) ≡ n
unfolding size ones
size-ones zero = refl
size-ones (suc n) = ap suc (size-ones n)

int_text : ℤ → String
unfolding ones
int_text (pos n) = String.◌∷◌ "+" (ones n)
int_text (negsuc n) = String.◌∷◌ "-" (ones n)

text_int : String → ℤ
unfolding size
text_int String.[] = pos 0
text_int (String.◌∷◌ c s) = if code c == b'+' then pos (size s) else negsuc (size s)

text_int-int_text : (t : ℤ) → text_int (int_text t) ≡ t
unfolding int_text text_int
text_int-int_text (pos n) = ap pos (size-ones n)
text_int-int_text (negsuc n) = ap negsuc (size-ones n)

int_text_nonempty : (t : ℤ) → int_text t ≢ ""
unfolding int_text
int_text_nonempty (pos n) h = cons≢nil h
int_text_nonempty (negsuc n) h = cons≢nil h

bool_text : Bool → String
bool_text true = "1"
bool_text false = ""

text_bool : String → Bool
text_bool s = not (str_eq s "")

text_bool-bool_text : (b : Bool) → text_bool (bool_text b) ≡ b
unfolding text_bool bool_text
text_bool-bool_text true = refl
text_bool-bool_text false = refl

fields : RuntimeSnapshot → List String
unfolding int_text bool_text
fields s =
    s.mode
    ∷ s.connectivity
    ∷ s.license
    ∷ s.integrity
    ∷ int_text s.ntp_drift_nanos
    ∷ bool_text s.new_entries_blocked
    ∷ s.halt_reason
    ∷ s.halted_at_utc
    ∷ s.banner
    ∷ bool_text s.analytics_degraded
    ∷ s.last_updated_at_utc
    ∷ []

of_fields : List String → RuntimeSnapshot ⊎ String
unfolding text_int text_bool
of_fields (a ∷ b ∷ c ∷ d ∷ e ∷ f ∷ g ∷ h ∷ i ∷ j ∷ k ∷ []) = inl (record {
  mode = a;
  connectivity = b;
  license = c;
  integrity = d;
  ntp_drift_nanos = text_int e;
  new_entries_blocked = text_bool f;
  halt_reason = g;
  halted_at_utc = h;
  banner = i;
  analytics_degraded = text_bool j;
  last_updated_at_utc = k;
})
of_fields _ = inr "fields"

of_fields-fields : (s : RuntimeSnapshot) → of_fields (fields s) ≡ inl s
unfolding of_fields fields
of_fields-fields s = rw (
  text_int-int_text s.ntp_drift_nanos,
  text_bool-bool_text s.new_entries_blocked,
  text_bool-bool_text s.analytics_degraded,
)

encode_text : RuntimeSnapshot → String
encode_text s = put_all (fields s) ""

read_fields : Option (List String) → RuntimeSnapshot ⊎ String
read_fields none = inr "marks"
read_fields (some l) = of_fields l

decode_text : String → RuntimeSnapshot ⊎ String
decode_text text = read_fields (get_all 11 text)

decode-encode_text : (s : RuntimeSnapshot) → decode_text (append (encode_text s) "\n") ≡ inl s
unfolding decode_text encode_text read_fields get_all get put_all fields
decode-encode_text s =
    rw (put_all-append (fields s) "" "\n", get_all-put_all (fields s) "\n") (of_fields-fields s)

pub marked_codec : Codec
marked_codec = record {
  format = int_text;
  parse = λ s. inl (text_int s);
  encode = encode_text;
  decode = decode_text;
  quote = λ s. s;
}

pub marked_codec-IsCodec : IsCodec marked_codec
unfolding marked_codec
marked_codec-IsCodec = record {
  parse-format = λ t. ap inl (text_int-int_text t);
  format_nonempty = int_text_nonempty;
  decode-encode = decode-encode_text;
}
