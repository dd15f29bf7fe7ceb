-- ===== src/Dns/Memory.antt =====
-- `InMemoryDnsDriver` of src/solfleet/dns.py. A Python set is a list that is read through `mem`.
use solfleet.Prelude.{
  ℕ, Bool, ◌&&◌, ◌||◌, not, List, [], ◌∷◌, ◌++◌, String, Option, none, some, mem, ◌==◌, select,
  sorted_set, mem-sorted_set, mem-select, if◌then◌else◌, ◌≡◌, refl, ap, arith, Option-cases, inl,
  inr,
}
use solfleet.Prelude.Dict.{Dict, lookup, insert, lookup-insert}
use solfleet.Dns.{DnsDriver, IsLawful}

pub data Action : Type 0 where
  add remove : Action

pub record InMemory : Type 0 where
  pub a : Dict (List String)
  pub markers : List String
  pub ops : List (Action × String × String)

-- `self._a.get(record, set())`
abbrev pub members_of : Option (List String) → List String
members_of none = []
members_of (some ips) = ips

unfoldable pub list_members : InMemory → String → List String
list_members s r = sorted_set (members_of (lookup r s.a))

-- `set.add` and `set.discard`
abbrev set_add : String → List String → List String
set_add ip ips = if mem ip ips then ips else ip ∷ ips

abbrev set_discard : String → List String → List String
set_discard ip ips = select (λ j. not (j == ip)) ips

unfoldable pub add_member : InMemory → String → String → ℕ → InMemory
add_member s r ip ttl = record s {
  a = insert r (set_add ip (members_of (lookup r s.a))) s.a;
  ops = s.ops ++ (add, r, ip) ∷ [];
}

-- On a record that is not there, `discard` acts on a set that is thrown away.
abbrev discard_from :
    Dict (List String) → String → String → Option (List String) → Dict (List String)
discard_from a r ip none = a
discard_from a r ip (some ips) = insert r (set_discard ip ips) a

unfoldable pub remove_member : InMemory → String → String → InMemory
remove_member s r ip = record s {
  a = discard_from s.a r ip (lookup r s.a);
  ops = s.ops ++ (remove, r, ip) ∷ [];
}

unfoldable pub has_marker : InMemory → String → Bool
has_marker s r = mem r s.markers

unfoldable pub ensure_marker : InMemory → String → InMemory
ensure_marker s r = record s { markers = set_add r s.markers }

abbrev pub in_memory : DnsDriver
in_memory = record {
  State = InMemory;
  list_members = list_members;
  add_member = add_member;
  remove_member = remove_member;
  has_marker = has_marker;
  ensure_marker = ensure_marker;
}

mem-set_add : (j ip : String) (ips : List String) → mem j (set_add ip ips) ≡ (mem j ips || j == ip)
mem-set_add j ip ips = ground arith

mem-set_discard :
    (j ip : String) (ips : List String) → mem j (set_discard ip ips) ≡ (mem j ips && not (j == ip))
mem-set_discard j ip ips = mem-select j (λ k. not (k == ip)) ips

mem-add :
    (s : InMemory) (q ip : String) (ttl : ℕ) (r j : String)
    → mem j (list_members (add_member s q ip ttl) r)
      ≡ (mem j (list_members s r) || r == q && j == ip)
unfolding list_members add_member
mem-add s q ip ttl r j =
    rw (mem-sorted_set, mem-sorted_set, lookup-insert)
      (ground (arith, mem-set_add j ip (members_of (lookup q s.a))))

mem-remove :
    (s : InMemory) (q ip r j : String)
    → mem j (list_members (remove_member s q ip) r)
      ≡ (mem j (list_members s r) && not (r == q && j == ip))
unfolding list_members remove_member
mem-remove s q ip r j =
    rw (mem-sorted_set, mem-sorted_set)
      (elim (Option-cases (lookup q s.a)) [
        | inl absent ↦ ground arith
        | inr (ips, e) ↦
            rw (e, discard_from, lookup-insert) (ground (arith, mem-set_discard j ip ips))
      ])

-- The in-memory driver keeps the promises on listed addresses and on markers that the callers rely on.
pub in_memory-IsLawful : IsLawful in_memory
unfolding add_member remove_member has_marker ensure_marker list_members
in_memory-IsLawful = record {
  key = λ r. r;
  same-key = λ s q r e. ap (list_members s) e;
  mem-add = mem-add;
  mem-remove = mem-remove;
  mem-ensure = λ s q r j. refl;
  marker-add = λ s q ip ttl r. refl;
  marker-remove = λ s q ip r. refl;
  marker-ensure = λ s q r. ground (arith, mem-set_add r q s.markers);
}
