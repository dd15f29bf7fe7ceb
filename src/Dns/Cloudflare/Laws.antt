-- ===== src/Dns/Cloudflare/Laws.antt =====
-- `CloudflareDriver` of src/solfleet/dns.py: what it lists after each of its operations.
use mathlib.Core.Path.{subst}
use solfleet.Prelude.{
  ℕ, Bool, not, true, ◌&&◌, ◌||◌, ◌≡◌, refl, sym, ap, ◌∙◌, inl, inr, List, [], ◌∷◌, map, String,
  mem, ◌==◌, select, any, Bool-cases, mem-sorted, arith, eq_self,
}
use solfleet.Dns.{IsLawfulOn}
use solfleet.Dns.Names.{
  RecordType, a, txt, same_type, marker_name, marker_content, same-marker_name,
}
use solfleet.Dns.Cloudflare.{
  CloudflareApi, IsFaithful, IsPool, In, cloudflare, contents, list_members, add_member,
  remove_member, delete_all, has_marker, ensure_marker,
}

module _ {A : Type 0} where
  any-In : (p : A → Bool) (x : A) (xs : List A) → In x xs → p x ≡ true → any xs p ≡ true
  any-In p x [] m h = elim m [ ]
  any-In p x (y ∷ ys) (inl e) h = rw (sym e, h) refl
  any-In p x (y ∷ ys) (inr m) h = ground (arith, any-In p x ys m h)

  In-any : (p : A → Bool) (xs : List A) → any xs p ≡ true → (x : A) × In x xs × (p x ≡ true)
  In-any p [] h = cc
  In-any p (y ∷ ys) h = elim (Bool-cases (p y)) [
    | inl e ↦ (y, inl refl, e)
    | inr e ↦ let (x, m, q) = In-any p ys (ground arith) in (x, inr m, q)
  ]

  select-cong :
      (p q : A → Bool) (xs : List A) → ((x : A) → In x xs → p x ≡ q x) → select p xs ≡ select q xs
  select-cong p q [] h = refl
  select-cong p q (x ∷ xs) h =
      ground (arith, h x (inl refl), select-cong p q xs (λ y m. h y (inr m)))

  select-select :
      (p q : A → Bool) (xs : List A) → select q (select p xs) ≡ select (λ x. p x && q x) xs
  select-select p q [] = refl
  select-select p q (x ∷ xs) = ground (arith, select-select p q xs)

  select-true : (xs : List A) → select (λ x. true) xs ≡ xs
  select-true [] = refl
  select-true (x ∷ xs) = cc (select-true xs)

module _ (api : CloudflareApi) (z : String) (Plain : String → Type 0)
    (Accepts : RecordType → String → String → ℕ → Type 0) (L : IsFaithful api z Plain Accepts) where
  abbrev N : String → Type 0
  N = IsPool Plain Accepts

  -- The deletions leave out what shares an id with a record of that content.
  records-delete_all :
      (ip : String) (recs : List (api.RecordId × String)) (s : api.State) (t : RecordType)
      (r : String)
      → Plain r
      → api.records (delete_all api z ip recs s) z t r
        ≡ select (λ y. not (any recs (λ x. x.1 == ip && api.same_id x.0 y.0))) (api.records s z t r)
  records-delete_all ip [] s t r pr = sym (select-true (api.records s z t r))
  records-delete_all ip ((i, c) ∷ recs) s t r pr = elim (Bool-cases (c == ip)) [
    | inl e ↦
        rw (e, records-delete_all ip recs (api.delete s z i) t r pr, L.delete-removes s i t r pr)
          (select-select (λ y. not (api.same_id i y.0))
              (λ y. not (any recs (λ x. x.1 == ip && api.same_id x.0 y.0))) (api.records s z t r)
            ∙ select-cong _ _ (api.records s z t r) (λ y m. ground arith))
    | inr e ↦ rw (e, records-delete_all ip recs s t r pr) refl
  ]

  same_listing :
      (s : api.State) (q : String) (t : RecordType) (r : String) (y : api.RecordId × String)
      → (same_type a t && q == r) ≡ true
      → In y (api.records s z t r)
      → In y (api.records s z a q)
  same_listing s q a r y e m = subst (λ n. In y (api.records s z a n)) (ground (arith, e)) m
  same_listing s q txt r y e m = cc

  -- The listed record that `remove_member` deletes for a content: those of that record and content.
  is_deleted :
      (s : api.State) (q ip : String) (t : RecordType) (r : String) (y : api.RecordId × String)
      → Plain q
      → Plain r
      → In y (api.records s z t r)
      → any (api.records s z a q) (λ x. x.1 == ip && api.same_id x.0 y.0)
        ≡ (same_type a t && q == r && y.1 == ip)
  is_deleted s q ip t r y pq pr m =
      elim (Bool-cases (any (api.records s z a q) (λ x. x.1 == ip && api.same_id x.0 y.0))) [
        | inl e ↦
            let (x, n, h) =
              In-any (λ x. x.1 == ip && api.same_id x.0 y.0) (api.records s z a q) e in
            ground (arith, L.ids_differ s a t q r x y pq pr n m (ground arith))
        | inr e ↦ elim (Bool-cases (same_type a t && q == r && y.1 == ip)) [
          | inl f ↦
              let n : In y (api.records s z a q) = same_listing s q t r y (ground arith) m in
              let k =
                any-In (λ x. x.1 == ip && api.same_id x.0 y.0) y (api.records s z a q) n
                  (ground (arith, L.ids_reflexive y.0)) in
              cc
          | inr f ↦ cc
        ]
      ]

  records-remove_member :
      (s : api.State) (q ip : String) (t : RecordType) (r : String)
      → Plain q
      → Plain r
      → api.records (remove_member api z s q ip) z t r
        ≡ select (λ y. not (same_type a t && q == r && y.1 == ip)) (api.records s z t r)
  unfolding remove_member
  records-remove_member s q ip t r pq pr =
      records-delete_all ip (api.records s z a q) s t r pr
      ∙ select-cong _ _ (api.records s z t r) (λ y m. ap not (is_deleted s q ip t r y pq pr m))

  mem-contents :
      (b : Bool) (ip j : String) (recs : List (api.RecordId × String))
      → mem j (map (λ (x : api.RecordId × String). x.1) (select (λ y. not (b && y.1 == ip)) recs))
        ≡ (mem j (map (λ (x : api.RecordId × String). x.1) recs) && not (b && j == ip))
  mem-contents b ip j [] = refl
  mem-contents b ip j ((i, c) ∷ recs) = ground (arith, mem-contents b ip j recs)

  mem-add :
      (s : api.State) (q ip : String) (ttl : ℕ) (r j : String)
      → N q
      → N r
      → Accepts a q ip ttl
      → mem j (list_members api z (add_member api z s q ip ttl) r)
        ≡ (mem j (list_members api z s r) || r == q && j == ip)
  unfolding list_members add_member
  mem-add s q ip ttl r j nq nr ok_add = elim (Bool-cases (q == r)) [
    | inl e ↦
        let same : r ≡ q = ground (arith, e) in
        rw (same, mem-sorted, mem-sorted, mem-sorted)
          (elim (Bool-cases (mem ip (contents api z s a q))) [
            | inl listed ↦ rw (listed) (ground arith)
            | inr absent ↦
                rw (absent) (ground (arith, L.mem-create s q ip ttl j ok_add absent, eq_self q))
          ])
    | inr e ↦ ground (arith, L.create-other s a q ip ttl a r ok_add nr.0 e)
  ]

  mem-remove :
      (s : api.State) (q ip r j : String)
      → N q
      → N r
      → mem j (list_members api z (remove_member api z s q ip) r)
        ≡ (mem j (list_members api z s r) && not (r == q && j == ip))
  unfolding list_members
  mem-remove s q ip r j nq nr =
      rw (mem-sorted, mem-sorted, records-remove_member s q ip a r nq.0 nr.0)
        (mem-contents (q == r) ip j (api.records s z a r) ∙ ground arith)

  marker-add :
      (s : api.State) (q ip : String) (ttl : ℕ) (r : String)
      → N q
      → N r
      → Accepts a q ip ttl
      → has_marker api z (add_member api z s q ip ttl) r ≡ has_marker api z s r
  unfolding has_marker add_member
  marker-add s q ip ttl r nq nr ok_add =
      ground (arith, L.create-other s a q ip ttl txt (marker_name r) ok_add nr.1 refl)

  marker-remove :
      (s : api.State) (q ip r : String)
      → N q
      → N r
      → has_marker api z (remove_member api z s q ip) r ≡ has_marker api z s r
  unfolding has_marker
  marker-remove s q ip r nq nr =
      rw (records-remove_member s q ip txt (marker_name r) nq.0 nr.1, select-true) refl

  mem-ensure :
      (s : api.State) (q r j : String)
      → N q
      → N r
      → mem j (list_members api z (ensure_marker api z s q) r) ≡ mem j (list_members api z s r)
  unfolding list_members ensure_marker
  mem-ensure s q r j nq nr =
      ground (arith, L.create-other s txt (marker_name q) marker_content 300 a r nq.2 nr.0 refl)

  marker-ensure :
      (s : api.State) (q r : String)
      → N q
      → N r
      → has_marker api z (ensure_marker api z s q) r ≡ (r == q || has_marker api z s r)
  unfolding has_marker ensure_marker
  marker-ensure s q r nq nr = elim (Bool-cases (q == r)) [
    | inl e ↦
        let same : r ≡ q = ground (arith, e) in
        rw (same)
          (ground (arith, eq_self q, L.create-IsListed s (marker_name q) marker_content 300 nq.2))
    | inr e ↦
        let apart = same-marker_name q r ∙ e in
        ground (
          arith,
          L.create-other s txt (marker_name q) marker_content 300 txt (marker_name r) nq.2 nr.1
              apart,
        )
  ]

-- Over a faithful API the Cloudflare driver keeps, for the pools whose name and marker the API keeps as
-- they are spelled and whose marker it accepts, the promises on the addresses and the markers after each
-- operation, where it accepts the added address; every such name is a record of its own.
pub cloudflare-IsLawfulOn :
    (api : CloudflareApi) (z : String) (Plain : String → Type 0)
    (Accepts : RecordType → String → String → ℕ → Type 0)
    → IsFaithful api z Plain Accepts
    → IsLawfulOn
        (cloudflare api z)
        (IsPool Plain Accepts)
        (λ s q ip ttl. Accepts a q ip ttl)
        (λ r. r)
cloudflare-IsLawfulOn api z Plain Accepts L = record {
  same-key = λ s q r e. ap (list_members api z s) e;
  mem-add = mem-add api z Plain Accepts L;
  mem-remove = mem-remove api z Plain Accepts L;
  mem-ensure = mem-ensure api z Plain Accepts L;
  marker-add = marker-add api z Plain Accepts L;
  marker-remove = marker-remove api z Plain Accepts L;
  marker-ensure = marker-ensure api z Plain Accepts L;
}
