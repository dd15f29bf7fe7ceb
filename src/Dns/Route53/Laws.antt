-- ===== src/Dns/Route53/Laws.antt =====
-- `Route53Driver` of src/solfleet/dns.py: what it lists after each of its operations.
use solfleet.Prelude.{
  ℕ, not, true, false, ◌&&◌, ◌||◌, ◌≡◌, refl, ap, ◌∙◌, inl, inr, List, [], ◌∷◌, String, none, some,
  mem, ◌==◌, select, is_empty, if◌then◌else◌, Bool-cases, Option-cases, mem-sorted, mem-sorted_set,
  mem-select, arith,
}
use solfleet.Dns.{IsLawfulOn}
use solfleet.Dns.Names.{RecordType, a, txt, same_type, fqdn, marker_name, same-fqdn-marker_name}
use solfleet.Dns.Route53.{
  Route53Api, RecordSet, IsFaithful, IsPool, Takes, members_set, route53, first_set, values_of,
  record_set, list_members, write_members, delete_set, add_member, remove_member, has_marker,
  ensure_marker, marker_set,
}

-- What is found has the name and the type that were asked for.
pub first_set-some :
    (name : String) (t : RecordType) (sets : List RecordSet) (rs : RecordSet)
    → first_set name t sets ≡ some rs
    → (rs.name == name && same_type rs.kind t) ≡ true
first_set-some name t [] rs e = cc
first_set-some name t (x ∷ sets) rs e = elim (Bool-cases (x.name == name && same_type x.kind t)) [
  | inl f ↦ ground arith
  | inr f ↦ first_set-some name t sets rs (ground arith)
]

same_type-a : (t : RecordType) → same_type t a ≡ true → t ≡ a
same_type-a a e = refl
same_type-a txt e = cc

module _ (api : Route53Api) (z : String) (Plain : String → Type 0) (Accepts : RecordSet → Type 0)
    (L : IsFaithful api z Plain Accepts) where
  abbrev N : String → Type 0
  N = IsPool Plain Accepts

  same-record_set :
      (s : api.State) (t : RecordType) (q r : String)
      → fqdn r ≡ fqdn q
      → record_set api z s t r ≡ record_set api z s t q
  same-record_set s t q r e = ap (λ name. first_set name t (api.record_sets s z name t)) e

  delete_set-other :
      (s : api.State) (q : String) (t : RecordType) (r : String)
      → Plain r
      → (fqdn q == fqdn r && same_type a t) ≡ false
      → record_set api z (delete_set api z s (record_set api z s a q)) t r ≡ record_set api z s t r
  delete_set-other s q t r pr apart = elim (Option-cases (record_set api z s a q)) [
    | inl e ↦ rw (e) refl
    | inr (rs, e) ↦
        let found = first_set-some (fqdn q) a (api.record_sets s z (fqdn q) a) rs e in
        let kind = same_type-a rs.kind (ground arith) in
        rw (e) (L.delete-other s rs t r pr (ground (arith, kind, found)))
  ]

  delete_set-same :
      (s : api.State) (q : String)
      → Plain q
      → record_set api z (delete_set api z s (record_set api z s a q)) a q ≡ none
  delete_set-same s q pq = elim (Option-cases (record_set api z s a q)) [
    | inl e ↦ rw (e, e) refl
    | inr (rs, e) ↦ rw (e) (L.delete-set s a q rs pq e)
  ]

  -- `_upsert` changes no set but that of its record.
  write_members-other :
      (s : api.State) (q : String) (values : List String) (ttl : ℕ) (t : RecordType) (r : String)
      → (is_empty values ≡ false → Accepts (members_set q values ttl))
      → Plain r
      → (fqdn q == fqdn r && same_type a t) ≡ false
      → record_set api z (write_members api z s q values ttl) t r ≡ record_set api z s t r
  unfolding write_members
  write_members-other s q [] ttl t r ok_set pr apart = delete_set-other s q t r pr apart
  write_members-other s q (v ∷ vs) ttl t r ok_set pr apart =
      L.upsert-other s (members_set q (v ∷ vs) ttl) t r (ok_set refl) pr apart

  mem-write_members :
      (s : api.State) (q : String) (values : List String) (ttl : ℕ) (j : String)
      → (is_empty values ≡ false → Accepts (members_set q values ttl))
      → Plain q
      → mem j (values_of (record_set api z (write_members api z s q values ttl) a q)) ≡ mem j values
  unfolding write_members
  mem-write_members s q [] ttl j ok_set pq = rw (delete_set-same s q pq) refl
  mem-write_members s q (v ∷ vs) ttl j ok_set pq =
      let (found, e, same) =
        L.record_set-upsert s (members_set q (v ∷ vs) ttl) q (ok_set refl) refl in
      rw (e) (same j ∙ mem-sorted_set j (v ∷ vs))

  -- The members of every name after `_upsert`.
  pub mem-list-write_members :
      (s : api.State) (q : String) (values : List String) (ttl : ℕ) (r j : String)
      → (is_empty values ≡ false → Accepts (members_set q values ttl))
      → Plain q
      → Plain r
      → mem j (list_members api z (write_members api z s q values ttl) r)
        ≡ (if fqdn r == fqdn q then mem j values else mem j (list_members api z s r))
  unfolding list_members
  mem-list-write_members s q values ttl r j ok_set pq pr = elim (Bool-cases (fqdn r == fqdn q)) [
    | inl e ↦
        rw
          (
            mem-sorted,
            same-record_set (write_members api z s q values ttl) a q r (ground (arith, e)),
            e,
          )
          (mem-write_members s q values ttl j ok_set pq)
    | inr e ↦
        rw
          (
            mem-sorted,
            write_members-other s q values ttl a r ok_set pr (ground (arith, e)),
            e,
            mem-sorted,
          )
          refl
  ]

  same-list_members :
      (s : api.State) (q r : String)
      → fqdn r ≡ fqdn q
      → list_members api z s r ≡ list_members api z s q
  unfolding list_members
  same-list_members s q r e = rw (same-record_set s a q r e) refl

  mem-add :
      (s : api.State) (q ip : String) (ttl : ℕ) (r j : String)
      → N q
      → N r
      → Takes api z Accepts s q ip ttl
      → mem j (list_members api z (add_member api z s q ip ttl) r)
        ≡ (mem j (list_members api z s r) || fqdn r == fqdn q && j == ip)
  unfolding add_member
  mem-add s q ip ttl r j nq nr ok_add = ground (
    arith,
    same-list_members s q r,
    mem-list-write_members s q (ip ∷ list_members api z s q) ttl r j (λ e. ok_add) nq.0 nr.0,
  )

  mem-remove :
      (s : api.State) (q ip r j : String)
      → N q
      → N r
      → mem j (list_members api z (remove_member api z s q ip) r)
        ≡ (mem j (list_members api z s r) && not (fqdn r == fqdn q && j == ip))
  unfolding remove_member
  mem-remove s q ip r j nq nr =
      let members = list_members api z s q in
      let kept = select (λ v. not (v == ip)) members in
      ground (
        arith,
        same-list_members s q r,
        mem-list-write_members s q kept 60 r j (λ e. L.accepts-fewer s q ip nq.0 e) nq.0 nr.0,
        mem-select j (λ v. not (v == ip)) members,
      )

  marker-add :
      (s : api.State) (q ip : String) (ttl : ℕ) (r : String)
      → N q
      → N r
      → Takes api z Accepts s q ip ttl
      → has_marker api z (add_member api z s q ip ttl) r ≡ has_marker api z s r
  unfolding has_marker add_member
  marker-add s q ip ttl r nq nr ok_add = ground (
    arith,
    write_members-other s q (ip ∷ list_members api z s q) ttl txt (marker_name r) (λ e. ok_add) nr.1
        (ground arith),
  )

  marker-remove :
      (s : api.State) (q ip r : String)
      → N q
      → N r
      → has_marker api z (remove_member api z s q ip) r ≡ has_marker api z s r
  unfolding has_marker remove_member
  marker-remove s q ip r nq nr =
      let kept = select (λ v. not (v == ip)) (list_members api z s q) in
      ground (
        arith,
        write_members-other s q kept 60 txt (marker_name r) (λ e. L.accepts-fewer s q ip nq.0 e)
            nr.1 (ground arith),
      )

  mem-ensure :
      (s : api.State) (q r j : String)
      → N q
      → N r
      → mem j (list_members api z (ensure_marker api z s q) r) ≡ mem j (list_members api z s r)
  unfolding list_members ensure_marker
  mem-ensure s q r j nq nr =
      ground (arith, L.upsert-other s (marker_set q) a r nq.2 nr.0 (ground arith))

  marker-ensure :
      (s : api.State) (q r : String)
      → N q
      → N r
      → has_marker api z (ensure_marker api z s q) r ≡ (fqdn r == fqdn q || has_marker api z s r)
  unfolding has_marker ensure_marker
  marker-ensure s q r nq nr = elim (Bool-cases (fqdn r == fqdn q)) [
    | inl e ↦
        let same : fqdn (marker_name r) ≡ fqdn (marker_name q) =
          ground (arith, same-fqdn-marker_name r q, e) in
        let (found, listed, _) = L.record_set-upsert s (marker_set q) (marker_name q) nq.2 refl in
        rw (e, same-record_set (ensure_marker api z s q) txt (marker_name q) (marker_name r) same)
          (ground (arith, listed))
    | inr e ↦ ground (
      arith,
      L.upsert-other s (marker_set q) txt (marker_name r) nq.2 nr.1
          (ground (arith, same-fqdn-marker_name r q, e)),
      e,
    )
  ]

-- Over a faithful API the Route53 driver keeps, for the pools whose name and marker the API keeps as they
-- are spelled and whose marker it accepts, the promises on the addresses and the markers after each
-- operation, where it accepts the set that an addition writes; names that differ in the dots at their end
-- only name one record.
pub route53-IsLawfulOn :
    (api : Route53Api) (z : String) (Plain : String → Type 0) (Accepts : RecordSet → Type 0)
    → IsFaithful api z Plain Accepts
    → IsLawfulOn (route53 api z) (IsPool Plain Accepts) (Takes api z Accepts) fqdn
route53-IsLawfulOn api z Plain Accepts L = record {
  same-key = λ s q r e. same-list_members api z Plain Accepts L s r q e;
  mem-add = mem-add api z Plain Accepts L;
  mem-remove = mem-remove api z Plain Accepts L;
  mem-ensure = mem-ensure api z Plain Accepts L;
  marker-add = marker-add api z Plain Accepts L;
  marker-remove = marker-remove api z Plain Accepts L;
  marker-ensure = marker-ensure api z Plain Accepts L;
}
