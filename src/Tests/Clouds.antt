-- ===== src/Tests/Clouds.antt =====
-- A zone of Cloudflare and one of Route53 that are lists of records, and the drivers over them.
use mathlib.Core.Path.{subst}
use solfleet.Prelude.{
  ℕ, Bool, not, true, false, ◌&&◌, ◌≡◌, refl, sym, ap, inl, inr, List, [], ◌∷◌, String, none, some,
  ◌==◌, select, if◌then◌else◌, Bool-cases, arith, eq_self,
}
use solfleet.Dns.{IsLawful, IsLawfulOn, IsLawfulOn-IsLawful}
use solfleet.Dns.Names.{RecordType, a, txt, same_type, fqdn}
use solfleet.Dns.Cloudflare
use solfleet.Dns.Cloudflare.Laws.{cloudflare-IsLawfulOn}
use solfleet.Dns.Route53
use solfleet.Dns.Route53.Laws.{route53-IsLawfulOn, first_set-some}

record Entry : Type 0 where
  kind : RecordType
  name : String
  content : String

abbrev same_entry : Entry → Entry → Bool
same_entry x y = same_type x.kind y.kind && x.name == y.name && x.content == y.content

abbrev listed : List Entry → RecordType → String → List (Entry × String)
listed [] t q = []
listed (x ∷ s) t q =
    let rest = listed s t q in
    if same_type x.kind t && x.name == q then (x, x.content) ∷ rest else rest

abbrev zone_api : Cloudflare.CloudflareApi
zone_api = record {
  State = List Entry;
  RecordId = Entry;
  same_id = same_entry;
  zones = λ s zone. "z1" ∷ [];
  records = λ s z t q. listed s t q;
  create = λ s z t q v ttl. (record { kind = t; name = q; content = v }) ∷ s;
  delete = λ s z i. select (λ x. not (same_entry i x)) s;
}

listed-select :
    (i : Entry) (s : List Entry) (t : RecordType) (q : String)
    → listed (select (λ x. not (same_entry i x)) s) t q
      ≡ select (λ (y : Entry × String). not (same_entry i y.0)) (listed s t q)
listed-select i [] t q = refl
listed-select i (x ∷ s) t q = ground (arith, listed-select i s t q)

-- What is listed has the type and the name that were asked for.
In-listed :
    (s : List Entry) (t : RecordType) (q : String) (x : Entry × String)
    → Cloudflare.In x (listed s t q)
    → (same_type x.0.kind t && x.0.name == q && x.0.content == x.1) ≡ true
In-listed [] t q x m = elim m [ ]
In-listed (y ∷ s) t q x m = elim (Bool-cases (same_type y.kind t && y.name == q)) [
  | inl e ↦
      let n : Cloudflare.In x ((y, y.content) ∷ listed s t q) =
        subst (λ b. Cloudflare.In x (if b then (y, y.content) ∷ listed s t q else listed s t q)) e
          m in
      elim n [ inl p ↦ rw (p) (ground (arith, e, eq_self y.content)) | inr k ↦ In-listed s t q x k ]
  | inr e ↦
      In-listed s t q x (
        subst (λ b. Cloudflare.In x (if b then (y, y.content) ∷ listed s t q else listed s t q)) e
          m)
]

same_type_eq : (k l : RecordType) → same_type k l ≡ true → k ≡ l
same_type_eq a a e = refl
same_type_eq txt txt e = refl
same_type_eq a txt e = cc
same_type_eq txt a e = cc

same_type_refl : (t : RecordType) → same_type t t ≡ true
same_type_refl a = refl
same_type_refl txt = refl

zone_api-ids_differ :
    (s : List Entry) (t u : RecordType) (q r : String) (x y : Entry × String)
    → Cloudflare.In x (listed s t q)
    → Cloudflare.In y (listed s u r)
    → same_entry x.0 y.0 ≡ true
    → (same_type t u && q == r && x.1 == y.1) ≡ true
zone_api-ids_differ s t u q r x y m n e =
    let f = In-listed s t q x m in
    let g = In-listed s u r y n in
    ground (
      arith,
      f,
      g,
      e,
      same_type_eq x.0.kind t,
      same_type_eq y.0.kind u,
      same_type_eq x.0.kind y.0.kind,
      same_type_refl x.0.kind,
    )

-- The test zones take every name and every record.
abbrev Any : String → Type 0
Any r = Unit {0}

abbrev AnyRecord : RecordType → String → String → ℕ → Type 0
AnyRecord t q v ttl = Unit {0}

abbrev AnySet : Route53.RecordSet → Type 0
AnySet rs = Unit {0}

zone_api-IsFaithful : Cloudflare.IsFaithful zone_api "z1" Any AnyRecord
zone_api-IsFaithful = record {
  create-other = λ s t q v ttl u r taken plain h. ground (arith, h);
  mem-create = λ s q v ttl j taken h. ground (arith, eq_self q);
  create-IsListed = λ s q v ttl taken. ground (arith, eq_self q);
  delete-removes = λ s i t r plain. listed-select i s t r;
  ids_reflexive = λ i. ground (arith, same_type_refl i.kind, eq_self i.name, eq_self i.content);
  ids_differ = λ s t u q r x y plain plain'. zone_api-ids_differ s t u q r x y;
}

cloudflare-IsLawfulOn_example :
    IsLawfulOn
      (Cloudflare.cloudflare zone_api "z1")
      (Cloudflare.IsPool Any AnyRecord)
      (λ s q ip ttl. AnyRecord a q ip ttl)
      (λ r. r)
cloudflare-IsLawfulOn_example =
    cloudflare-IsLawfulOn zone_api "z1" Any AnyRecord zone_api-IsFaithful

abbrev sets_api : Route53.Route53Api
sets_api = record {
  State = List Route53.RecordSet;
  hosted_zones = λ s zone. (record { name = "example.com."; id = "z1" }) ∷ [];
  record_sets = λ s z name t. s;
  upsert = λ s z rs. rs ∷ s;
  delete = λ s z rs. select (λ x. not (rs.name == x.name && same_type rs.kind x.kind)) s;
}

first_set-other :
    (rs : Route53.RecordSet) (s : List Route53.RecordSet) (t : RecordType) (name : String)
    → (rs.name == name && same_type rs.kind t) ≡ false
    → Route53.first_set name t (select (λ x. not (rs.name == x.name && same_type rs.kind x.kind)) s)
      ≡ Route53.first_set name t s
first_set-other rs [] t name h = refl
first_set-other rs (x ∷ s) t name h =
    elim (Bool-cases (rs.name == x.name && same_type rs.kind x.kind)) [
      | inl e ↦ ground (
        arith,
        same_type_eq rs.kind x.kind,
        same_type_refl rs.kind,
        first_set-other rs s t name h,
      )
      | inr e ↦ rw (e) (
          ap (λ o. if x.name == name && same_type x.kind t then some x else o)
            (first_set-other rs s t name h))
    ]

first_set-removed :
    (rs : Route53.RecordSet) (s : List Route53.RecordSet)
    → Route53.first_set rs.name rs.kind
        (select (λ x. not (rs.name == x.name && same_type rs.kind x.kind)) s)
      ≡ none
first_set-removed rs [] = refl
first_set-removed rs (x ∷ s) =
    ground (arith, first_set-removed rs s, same_type_eq x.kind rs.kind, same_type_refl rs.kind)

sets_api-delete :
    (s : List Route53.RecordSet) (t : RecordType) (q : String) (rs : Route53.RecordSet)
    → Route53.first_set (fqdn q) t s ≡ some rs
    → Route53.first_set
        (fqdn q)
        t
        (select (λ x. not (rs.name == x.name && same_type rs.kind x.kind)) s)
      ≡ none
sets_api-delete s t q rs e =
    let found = first_set-some (fqdn q) t s rs e in
    let kind = same_type_eq rs.kind t (ground (arith, found)) in
    let name : rs.name ≡ fqdn q = ground (arith, found) in
    rw (sym name, sym kind) (first_set-removed rs s)

sets_api-IsFaithful : Route53.IsFaithful sets_api "z1" Any AnySet
sets_api-IsFaithful = record {
  accepts-fewer = λ s q ip plain left. tt;
  upsert-other = λ s rs t r taken plain h. rw (h) refl;
  record_set-upsert = λ s rs q taken e.
      (rs, rw (sym e) (ground (arith, eq_self rs.name, same_type_refl rs.kind)), λ j. refl);
  delete-other = λ s rs t r plain h. first_set-other rs s t (fqdn r) h;
  delete-set = λ s t q rs plain. sets_api-delete s t q rs;
}

route53-IsLawfulOn_example :
    IsLawfulOn
      (Route53.route53 sets_api "z1")
      (Route53.IsPool Any AnySet)
      (Route53.Takes sets_api "z1" AnySet)
      fqdn
route53-IsLawfulOn_example = route53-IsLawfulOn sets_api "z1" Any AnySet sets_api-IsFaithful

-- The guarantees of the watch apply to a driver over a zone that takes everything.
zone_api-IsLawful : IsLawful (Cloudflare.cloudflare zone_api "z1")
zone_api-IsLawful =
    let L = cloudflare-IsLawfulOn zone_api "z1" Any AnyRecord zone_api-IsFaithful in
    IsLawfulOn-IsLawful (Cloudflare.cloudflare zone_api "z1") (Cloudflare.IsPool Any AnyRecord)
      (λ s q ip ttl. AnyRecord a q ip ttl) (λ r. r) L (λ r. (tt, tt, tt)) (λ s q ip ttl. tt)
