-- ===== src/Dns/Route53.antt =====
-- `Route53Driver` of src/solfleet/dns.py, over the AWS client as a parameter. One record set for each name
-- and type holds all its values. A call that raises ends the caller's round, as for every driver.
pub mod Laws
use solfleet.Prelude.{
  ℕ, Bool, not, false, ◌&&◌, ◌||◌, ◌≡◌, List, [], ◌∷◌, String, Option, none, some, mem, ◌==◌,
  select, sorted, sorted_set, is_some, is_empty, if◌then◌else◌, Result, ok, err, value_error,
}
use solfleet.Prelude.Text.{str, repr}
use solfleet.Prelude.Strings.{append_text}
use solfleet.Dns.{DnsDriver}
use solfleet.Dns.Names.{RecordType, a, txt, same_type, fqdn, marker_name, marker_content}

pub record HostedZone : Type 0 where
  pub name : String
  pub id : String

pub record RecordSet : Type 0 where
  pub name : String
  pub kind : RecordType
  pub ttl : ℕ
  pub values : List String

-- The calls of the driver: what the two listings answer, and the state after an `UPSERT` and a `DELETE`.
pub record Route53Api : Type 1 where
  pub State : Type 0
  pub hosted_zones : State → String → List HostedZone
  -- `list_resource_record_sets` from a name and a type on
  pub record_sets : State → String → String → RecordType → List RecordSet
  pub upsert : State → String → RecordSet → State
  pub delete : State → String → RecordSet → State

-- The id of the zone: the one that was kept, or that of the first listed zone of the same name.
unfoldable pub zone_id : Option String → String → List HostedZone → Result String
zone_id (some z) zone listed = ok z
zone_id none zone listed = elim (select (λ h. h.name == zone) listed) [
  | [] ↦ err (value_error (str "route53 zone " ∷ repr (some zone) ∷ str " not found" ∷ []))
  | h ∷ others ↦ ok h.id
]

-- The first set of that name and type.
abbrev pub first_set : String → RecordType → List RecordSet → Option RecordSet
first_set name t [] = none
first_set name t (rs ∷ sets) =
    let rest = first_set name t sets in
    if rs.name == name && same_type rs.kind t then some rs else rest

abbrev pub values_of : Option RecordSet → List String
values_of none = []
values_of (some rs) = rs.values

-- `f'"{MARKER_CONTENT}"'`
abbrev quoted_marker : String
quoted_marker = append_text "\"" (append_text marker_content "\"")

abbrev pub marker_set : String → RecordSet
marker_set r = record {
  name = fqdn (marker_name r);
  kind = txt;
  ttl = 300;
  values = quoted_marker ∷ [];
}

-- The values are a Python set, so they are written once each.
abbrev pub members_set : String → List String → ℕ → RecordSet
members_set r values ttl = record { name = fqdn r; kind = a; ttl = ttl; values = sorted_set values }

-- A driver whose zone was found.
module _ (api : Route53Api) (z : String) where
  abbrev pub record_set : api.State → RecordType → String → Option RecordSet
  record_set s t name = first_set (fqdn name) t (api.record_sets s z (fqdn name) t)

  unfoldable pub list_members : api.State → String → List String
  list_members s r = sorted (values_of (record_set s a r))

  abbrev pub delete_set : api.State → Option RecordSet → api.State
  delete_set s none = s
  delete_set s (some rs) = api.delete s z rs

  unfoldable pub write_members : api.State → String → List String → ℕ → api.State
  write_members s r values ttl =
      if is_empty values
      then delete_set s (record_set s a r)
      else api.upsert s z (members_set r values ttl)

  unfoldable pub add_member : api.State → String → String → ℕ → api.State
  unfolding list_members write_members
  add_member s r ip ttl =
      let members = list_members s r in
      if mem ip members then s else write_members s r (ip ∷ members) ttl

  unfoldable pub remove_member : api.State → String → String → api.State
  unfolding list_members write_members
  remove_member s r ip =
      let members = list_members s r in
      if mem ip members then write_members s r (select (λ v. not (v == ip)) members) 60 else s

  unfoldable pub has_marker : api.State → String → Bool
  has_marker s r = is_some (record_set s txt (marker_name r))

  unfoldable pub ensure_marker : api.State → String → api.State
  unfolding has_marker
  ensure_marker s r = if has_marker s r then s else api.upsert s z (marker_set r)

abbrev pub route53 : Route53Api → String → DnsDriver
route53 api z = record {
  State = api.State;
  list_members = list_members api z;
  add_member = add_member api z;
  remove_member = remove_member api z;
  has_marker = has_marker api z;
  ensure_marker = ensure_marker api z;
}

-- What the API promises for one zone. `Plain` are the names that it keeps as they are spelled: of the zone, in
-- lower case, with no character that it escapes. `Accepts` are the sets that it takes: values of the right form,
-- no more than it allows, under a plain name, with a time to live in its bounds; it takes what is left of a
-- listed set. An `UPSERT` of such a set replaces the set of its name and type, or makes one, and a `DELETE` of a
-- set that is there takes it away. Neither changes another set.
pub record IsFaithful (api : Route53Api) (z : String) (Plain : String → Type 0)
    (Accepts : RecordSet → Type 0) : Type 0 where
  pub accepts-fewer :
      (s : api.State) (q ip : String)
      → Plain q
      → is_empty (select (λ v. not (v == ip)) (list_members api z s q)) ≡ false
      → Accepts (members_set q (select (λ v. not (v == ip)) (list_members api z s q)) 60)
  pub upsert-other :
      (s : api.State) (rs : RecordSet) (t : RecordType) (r : String)
      → Accepts rs
      → Plain r
      → (rs.name == fqdn r && same_type rs.kind t) ≡ false
      → record_set api z (api.upsert s z rs) t r ≡ record_set api z s t r
  pub record_set-upsert :
      (s : api.State) (rs : RecordSet) (q : String)
      → Accepts rs
      → rs.name ≡ fqdn q
      → (found : RecordSet) × (record_set api z (api.upsert s z rs) rs.kind q ≡ some found)
        × ((j : String) → mem j found.values ≡ mem j rs.values)
  pub delete-other :
      (s : api.State) (rs : RecordSet) (t : RecordType) (r : String)
      → Plain r
      → (rs.name == fqdn r && same_type rs.kind t) ≡ false
      → record_set api z (api.delete s z rs) t r ≡ record_set api z s t r
  pub delete-set :
      (s : api.State) (t : RecordType) (q : String) (rs : RecordSet)
      → Plain q
      → record_set api z s t q ≡ some rs
      → record_set api z (api.delete s z rs) t q ≡ none

-- A name of a pool: it and its marker are plain, and the set that marks it is taken.
abbrev pub IsPool : (String → Type 0) → (RecordSet → Type 0) → String → Type 0
IsPool Plain Accepts r = Plain r × Plain (marker_name r) × Accepts (marker_set r)

-- The set that an addition would write is taken.
abbrev pub Takes :
    (api : Route53Api) → String → (RecordSet → Type 0) → api.State → String → String → ℕ → Type 0
Takes api z Accepts s q ip ttl = Accepts (members_set q (ip ∷ list_members api z s q) ttl)
