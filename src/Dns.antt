-- ===== src/Dns.antt =====
-- src/solfleet/dns.py: the protocol `DnsDriver`, and what the callers rely on. A call of a cloud driver
-- that raises ends the caller's round and is not modelled: the operations here always return.
pub mod Memory
pub mod Names
pub mod Cloudflare
pub mod Route53
pub mod Make
use solfleet.Prelude.{ℕ, Bool, ◌&&◌, ◌||◌, not, List, String, mem, ◌==◌, ◌≡◌, true, Option}
use solfleet.Audit.{AuditLog}

pub record DnsDriver : Type 1 where
  pub State : Type 0
  pub list_members : State → String → List String
  pub add_member : State → String → String → ℕ → State
  pub remove_member : State → String → String → State
  pub has_marker : State → String → Bool
  pub ensure_marker : State → String → State

-- A driver keeps a set of addresses for each record, and a set of marked records. Names that `key` maps to
-- one text name one record.
pub record IsLawful (D : DnsDriver) : Type 0 where
  pub key : String → String
  pub same-key :
      (s : D.State) (q r : String) → key q ≡ key r → D.list_members s q ≡ D.list_members s r
  pub mem-add :
      (s : D.State) (q ip : String) (ttl : ℕ) (r j : String)
      → mem j (D.list_members (D.add_member s q ip ttl) r)
        ≡ (mem j (D.list_members s r) || key r == key q && j == ip)
  pub mem-remove :
      (s : D.State) (q ip r j : String)
      → mem j (D.list_members (D.remove_member s q ip) r)
        ≡ (mem j (D.list_members s r) && not (key r == key q && j == ip))
  pub mem-ensure :
      (s : D.State) (q r j : String)
      → mem j (D.list_members (D.ensure_marker s q) r) ≡ mem j (D.list_members s r)
  pub marker-add :
      (s : D.State) (q ip : String) (ttl : ℕ) (r : String)
      → D.has_marker (D.add_member s q ip ttl) r ≡ D.has_marker s r
  pub marker-remove :
      (s : D.State) (q ip r : String) → D.has_marker (D.remove_member s q ip) r ≡ D.has_marker s r
  pub marker-ensure :
      (s : D.State) (q r : String)
      → D.has_marker (D.ensure_marker s q) r ≡ (key r == key q || D.has_marker s r)

-- The same promises for a driver over an API that takes some names and additions only: they hold of the names
-- of a kind, and of an addition where the API takes it.
pub record IsLawfulOn (D : DnsDriver) (Names : String → Type 0)
    (Takes : D.State → String → String → ℕ → Type 0) (key : String → String) : Type 0 where
  pub same-key :
      (s : D.State) (q r : String) → key q ≡ key r → D.list_members s q ≡ D.list_members s r
  pub mem-add :
      (s : D.State) (q ip : String) (ttl : ℕ) (r j : String)
      → Names q
      → Names r
      → Takes s q ip ttl
      → mem j (D.list_members (D.add_member s q ip ttl) r)
        ≡ (mem j (D.list_members s r) || key r == key q && j == ip)
  pub mem-remove :
      (s : D.State) (q ip r j : String)
      → Names q
      → Names r
      → mem j (D.list_members (D.remove_member s q ip) r)
        ≡ (mem j (D.list_members s r) && not (key r == key q && j == ip))
  pub mem-ensure :
      (s : D.State) (q r j : String)
      → Names q
      → Names r
      → mem j (D.list_members (D.ensure_marker s q) r) ≡ mem j (D.list_members s r)
  pub marker-add :
      (s : D.State) (q ip : String) (ttl : ℕ) (r : String)
      → Names q
      → Names r
      → Takes s q ip ttl
      → D.has_marker (D.add_member s q ip ttl) r ≡ D.has_marker s r
  pub marker-remove :
      (s : D.State) (q ip r : String)
      → Names q
      → Names r
      → D.has_marker (D.remove_member s q ip) r ≡ D.has_marker s r
  pub marker-ensure :
      (s : D.State) (q r : String)
      → Names q
      → Names r
      → D.has_marker (D.ensure_marker s q) r ≡ (key r == key q || D.has_marker s r)

-- Where every name and every addition is taken, the driver is lawful.
pub IsLawfulOn-IsLawful :
    (D : DnsDriver) (Names : String → Type 0) (Takes : D.State → String → String → ℕ → Type 0)
    (key : String → String)
    → IsLawfulOn D Names Takes key
    → ((r : String) → Names r)
    → ((s : D.State) (q ip : String) (ttl : ℕ) → Takes s q ip ttl)
    → IsLawful D
IsLawfulOn-IsLawful D Names Takes key L named taken = record {
  key = key;
  same-key = L.same-key;
  mem-add = λ s q ip ttl r j. L.mem-add s q ip ttl r j (named q) (named r) (taken s q ip ttl);
  mem-remove = λ s q ip r j. L.mem-remove s q ip r j (named q) (named r);
  mem-ensure = λ s q r j. L.mem-ensure s q r j (named q) (named r);
  marker-add = λ s q ip ttl r. L.marker-add s q ip ttl r (named q) (named r) (taken s q ip ttl);
  marker-remove = λ s q ip r. L.marker-remove s q ip r (named q) (named r);
  marker-ensure = λ s q r. L.marker-ensure s q r (named q) (named r);
}

-- What an operation on DNS records works on: the records, and the audit log if one was given.
pub record DnsSession (S : Type 0) : Type 0 where
  pub dns : S
  pub audit : Option AuditLog

-- Some address is listed for the record.
abbrev pub Serves : (D : DnsDriver) → D.State → String → Type 0
Serves D s r = (ip : String) × (mem ip (D.list_members s r) ≡ true)
