-- ===== src/Dns/Names.antt =====
-- src/solfleet/dns.py: the name of the record that marks a pool as managed, and the types of records
-- that the cloud drivers ask for.
use Prim.Native.Char.{Char, code}
use solfleet.Prelude.Strings.{append_text}
use solfleet.Prelude.{
  if◌then◌else◌, eqb, refl, sym, ◌∙◌, ℕ, zero, suc, Bool, true, false, String, ◌==◌, ◌≡◌, ap, arith,
  eq_self, Bool-cases, inl, inr,
}

pub data RecordType : Type 0 where
  a txt : RecordType

abbrev pub same_type : RecordType → RecordType → Bool
same_type a a = true
same_type txt txt = true
same_type a txt = false
same_type txt a = false

-- `"solfleet-managed"`
abbrev pub marker_content : String
marker_content = "solfleet-managed"

abbrev before_dots : Char → String → String
before_dots c String.[] = if eqb (code c) b'.' then String.[] else String.◌∷◌ c String.[]
before_dots c (String.◌∷◌ d s) = String.◌∷◌ c (String.◌∷◌ d s)

-- `s.rstrip(".")`
abbrev pub rstrip_dots : String → String
rstrip_dots String.[] = String.[]
rstrip_dots (String.◌∷◌ c s) = before_dots c (rstrip_dots s)

-- `name.rstrip(".") + "."`
unfoldable pub fqdn : String → String
fqdn name = append_text (rstrip_dots name) "."

-- `f"_solfleet.{record}"`
unfoldable pub marker_name : String → String
marker_name r = append_text "_solfleet." r

abbrev drop_text : ℕ → String → String
drop_text zero s = s
drop_text (suc n) String.[] = String.[]
drop_text (suc n) (String.◌∷◌ c s) = drop_text n s

marker_name_inj : (q r : String) → marker_name q ≡ marker_name r → q ≡ r
unfolding marker_name
marker_name_inj q r e = ap (drop_text 10) e

-- Two pools have different markers.
pub same-marker_name : (q r : String) → (marker_name q == marker_name r) ≡ (q == r)
same-marker_name q r = elim (Bool-cases (q == r)) [
  | inl e ↦ ground (arith, eq_self (marker_name r))
  | inr e ↦ ground (arith, marker_name_inj q r)
]

abbrev is_nil : String → Bool
is_nil String.[] = true
is_nil (String.◌∷◌ c s) = false

append_dot-not-is_nil : (s : String) → is_nil (append_text s ".") ≡ false
append_dot-not-is_nil String.[] = refl
append_dot-not-is_nil (String.◌∷◌ c s) = refl

append_dot_inj : (s t : String) → append_text s "." ≡ append_text t "." → s ≡ t
append_dot_inj String.[] String.[] e = refl
append_dot_inj String.[] (String.◌∷◌ d t) e =
    cc (ap is_nil (ap (drop_text 1) e), append_dot-not-is_nil t)
append_dot_inj (String.◌∷◌ c s) String.[] e =
    cc (ap is_nil (ap (drop_text 1) e), append_dot-not-is_nil s)
append_dot_inj (String.◌∷◌ c s) (String.◌∷◌ d t) e = cc (append_dot_inj s t (ap (drop_text 1) e))

-- The marker of a name from which the dots at the end are gone.
abbrev bare_marker : String → String
bare_marker String.[] = "_solfleet"
bare_marker (String.◌∷◌ c s) = append_text "_solfleet." (String.◌∷◌ c s)

rstrip_dots-marker :
    (s t : String) → rstrip_dots s ≡ t → rstrip_dots (append_text "_solfleet." s) ≡ bare_marker t
rstrip_dots-marker s String.[] e = rw e refl
rstrip_dots-marker s (String.◌∷◌ c t) e = rw e refl

bare_marker_inj : (s t : String) → bare_marker s ≡ bare_marker t → s ≡ t
bare_marker_inj String.[] String.[] e = refl
bare_marker_inj String.[] (String.◌∷◌ d t) e = cc
bare_marker_inj (String.◌∷◌ c s) String.[] e = cc
bare_marker_inj (String.◌∷◌ c s) (String.◌∷◌ d t) e = ap (drop_text 10) e

fqdn-marker_name_inj :
    (q r : String) → fqdn (marker_name q) ≡ fqdn (marker_name r) → fqdn q ≡ fqdn r
unfolding fqdn marker_name
fqdn-marker_name_inj q r e =
    let bare =
      sym (rstrip_dots-marker q (rstrip_dots q) refl)
      ∙ append_dot_inj (rstrip_dots (marker_name q)) (rstrip_dots (marker_name r)) e
      ∙ rstrip_dots-marker r (rstrip_dots r) refl in
    ap (λ s. append_text s ".") (bare_marker_inj (rstrip_dots q) (rstrip_dots r) bare)

fqdn-marker_name : (q r : String) → fqdn q ≡ fqdn r → fqdn (marker_name q) ≡ fqdn (marker_name r)
unfolding fqdn marker_name
fqdn-marker_name q r e =
    let same = append_dot_inj (rstrip_dots q) (rstrip_dots r) e in
    ap (λ s. append_text s ".")
      (rstrip_dots-marker q (rstrip_dots r) same ∙ sym (rstrip_dots-marker r (rstrip_dots r) refl))

-- Two names have the same marker exactly if they are the same name.
pub same-fqdn-marker_name :
    (q r : String) → (fqdn (marker_name q) == fqdn (marker_name r)) ≡ (fqdn q == fqdn r)
same-fqdn-marker_name q r = elim (Bool-cases (fqdn q == fqdn r)) [
  | inl e ↦ rw (fqdn-marker_name q r (ground (arith, e)), e) (eq_self (fqdn (marker_name r)))
  | inr e ↦ ground (arith, fqdn-marker_name_inj q r)
]
