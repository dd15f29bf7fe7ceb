-- ===== src/Dns/Cloudflare.antt =====
-- `CloudflareDriver` of src/solfleet/dns.py, over the HTTP client as a parameter. A call that answers with
-- an error status ends the caller's round, as for every driver.
pub mod Laws
use solfleet.Prelude.{
  ℕ, Bool, not, true, false, ◌&&◌, ◌||◌, ◌≡◌, ◌⊎◌, List, [], ◌∷◌, map, String, Option, none, some,
  mem, ◌==◌, select, sorted, is_empty, if◌then◌else◌,
}
use solfleet.Prelude.Text.{str, repr}
use solfleet.Prelude.{Result, ok, err, value_error}
use solfleet.Dns.{DnsDriver}
use solfleet.Dns.Names.{RecordType, a, txt, same_type, marker_name, marker_content}

-- The requests of the driver: what `GET /zones` and `GET /zones/{z}/dns_records` list, each record with its
-- id and its content, and the state after a `POST` and a `DELETE`.
pub record CloudflareApi : Type 1 where
  pub State : Type 0
  pub RecordId : Type 0
  pub same_id : RecordId → RecordId → Bool
  pub zones : State → String → List String
  pub records : State → String → RecordType → String → List (RecordId × String)
  pub create : State → String → RecordType → String → String → ℕ → State
  pub delete : State → String → RecordId → State

-- The id of the zone: the one that was kept, or the first that the API lists.
unfoldable pub zone_id : Option String → String → List String → Result String
zone_id (some z) zone listed = ok z
zone_id none zone [] =
    err (value_error (str "cloudflare zone " ∷ repr (some zone) ∷ str " not found" ∷ []))
zone_id none zone (z ∷ listed) = ok z

-- A driver whose zone was found.
module _ (api : CloudflareApi) (z : String) where
  abbrev pub contents : api.State → RecordType → String → List String
  contents s t r = map (λ (rec : api.RecordId × String). rec.1) (api.records s z t r)

  unfoldable pub list_members : api.State → String → List String
  list_members s r = sorted (contents s a r)

  unfoldable pub add_member : api.State → String → String → ℕ → api.State
  unfolding list_members
  add_member s r ip ttl = if mem ip (list_members s r) then s else api.create s z a r ip ttl

  -- `for rec in records: if rec["content"] == ip: delete(rec["id"])`
  abbrev pub delete_all : String → List (api.RecordId × String) → api.State → api.State
  delete_all ip [] s = s
  delete_all ip ((i, content) ∷ recs) s =
      delete_all ip recs (if content == ip then api.delete s z i else s)

  unfoldable pub remove_member : api.State → String → String → api.State
  remove_member s r ip = delete_all ip (api.records s z a r) s

  unfoldable pub has_marker : api.State → String → Bool
  has_marker s r = not (is_empty (api.records s z txt (marker_name r)))

  unfoldable pub ensure_marker : api.State → String → api.State
  unfolding has_marker
  ensure_marker s r =
      if has_marker s r then s else api.create s z txt (marker_name r) marker_content 300

abbrev pub cloudflare : CloudflareApi → String → DnsDriver
cloudflare api z = record {
  State = api.State;
  list_members = list_members api z;
  add_member = add_member api z;
  remove_member = remove_member api z;
  has_marker = has_marker api z;
  ensure_marker = ensure_marker api z;
}

-- Membership as evidence, for records that no test compares.
abbrev pub In : {A : Type 0} → A → List A → Type 0
In x [] = ⊥
In x (y ∷ ys) = (x ≡ y) ⊎ In x ys

-- What the API promises for one zone. `Plain` are the names that it keeps as they are spelled: of the zone, in
-- lower case, with no dot at the end. `Accepts` are the records that it takes: an address or a text of the right
-- form under a plain name, with a time to live in its bounds. A created record is listed under its type and its
-- name and changes no other listing, and it is only relied on where no equal record exists. A deleted record
-- leaves every listing, and no two records share an id.
pub record IsFaithful (api : CloudflareApi) (z : String) (Plain : String → Type 0)
    (Accepts : RecordType → String → String → ℕ → Type 0) : Type 0 where
  pub create-other :
      (s : api.State) (t : RecordType) (q v : String) (ttl : ℕ) (u : RecordType) (r : String)
      → Accepts t q v ttl
      → Plain r
      → (same_type t u && q == r) ≡ false
      → api.records (api.create s z t q v ttl) z u r ≡ api.records s z u r
  pub mem-create :
      (s : api.State) (q v : String) (ttl : ℕ) (j : String)
      → Accepts a q v ttl
      → mem v (contents api z s a q) ≡ false
      → mem j (contents api z (api.create s z a q v ttl) a q)
        ≡ (j == v || mem j (contents api z s a q))
  pub create-IsListed :
      (s : api.State) (q v : String) (ttl : ℕ)
      → Accepts txt q v ttl
      → is_empty (api.records (api.create s z txt q v ttl) z txt q) ≡ false
  pub delete-removes :
      (s : api.State) (i : api.RecordId) (t : RecordType) (r : String)
      → Plain r
      → api.records (api.delete s z i) z t r
        ≡ select (λ rec. not (api.same_id i rec.0)) (api.records s z t r)
  pub ids_reflexive : (i : api.RecordId) → api.same_id i i ≡ true
  pub ids_differ :
      (s : api.State) (t u : RecordType) (q r : String) (x y : api.RecordId × String)
      → Plain q
      → Plain r
      → In x (api.records s z t q)
      → In y (api.records s z u r)
      → api.same_id x.0 y.0 ≡ true
      → (same_type t u && q == r && x.1 == y.1) ≡ true

-- A name of a pool: it and its marker are plain, and the record that marks it is taken.
abbrev pub IsPool :
    (String → Type 0) → (RecordType → String → String → ℕ → Type 0) → String → Type 0
IsPool Plain Accepts r =
    Plain r × Plain (marker_name r) × Accepts txt (marker_name r) marker_content 300
