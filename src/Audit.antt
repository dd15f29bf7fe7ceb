-- ===== src/Audit.antt =====
-- src/solfleet/audit.py: the table `events` and the two methods of `AuditLog`. The column `detail`
-- holds the value that its JSON text stands for, and the answers of the clock are a function of the
-- insertion.
pub mod History
use solfleet.Prelude.{
  ℕ, ◌+◌, Bool, true, not, List, [], ◌∷◌, ◌++◌, String, Option, none, some, map, take, select,
  truthy, ◌==◌, ltb, eqb, if◌then◌else◌,
}
use solfleet.Json.{Json}
use solfleet.Safety.{Mode}

pub record Row : Type 0 where
  pub id : ℕ
  pub ts : String
  pub operation : String
  pub cluster : String
  pub node : String
  pub mode : Mode
  -- `int(allowed)`
  pub allowed : ℕ
  pub detail : Option Json

-- `next_id` is the number that AUTOINCREMENT gives next, and `clock` answers for each insertion.
pub record AuditLog : Type 0 where
  pub rows : List Row
  pub next_id : ℕ
  pub clock : ℕ → String

-- The arguments of `record`.
pub record Entry : Type 0 where
  pub operation : String
  pub cluster : String
  pub node : String
  pub mode : Mode
  pub allowed : Bool
  pub detail : Option Json

unfoldable pub record_event : AuditLog → Entry → ℕ × AuditLog
record_event log e =
    let row : Row = record {
      id = log.next_id;
      ts = log.clock log.next_id;
      operation = e.operation;
      cluster = e.cluster;
      node = e.node;
      mode = e.mode;
      allowed = if e.allowed then 1 else 0;
      detail = e.detail;
    } in
    (log.next_id, record log { rows = log.rows ++ row ∷ []; next_id = log.next_id + 1 })

-- `if audit: audit.record(...)`
abbrev pub audit_with : Option AuditLog → Entry → Option AuditLog
audit_with none e = none
audit_with (some log) e = some (record_event log e).1

-- An element of the list that `recent` returns.
pub record Event : Type 0 where
  pub ts : String
  pub operation : String
  pub cluster : String
  pub node : String
  pub mode : Mode
  pub allowed : Bool
  pub detail : Option Json

abbrev pub to_event : Row → Event
to_event r = record {
  ts = r.ts;
  operation = r.operation;
  cluster = r.cluster;
  node = r.node;
  mode = r.mode;
  allowed = not (eqb r.allowed 0);
  detail = r.detail;
}

-- The clause ` WHERE node = ?`, which is there only for a node that is not empty.
abbrev pub selected : Option String → Row → Bool
selected none r = true
selected (some node) r = if truthy (some node) then r.node == node else true

-- `ORDER BY id DESC`
abbrev insert_desc : Row → List Row → List Row
insert_desc r [] = r ∷ []
insert_desc r (s ∷ rest) =
    let deeper = insert_desc r rest in if ltb r.id s.id then s ∷ deeper else r ∷ s ∷ rest

unfoldable pub order_desc : List Row → List Row
order_desc [] = []
order_desc (r ∷ rs) = insert_desc r (order_desc rs)

unfoldable pub recent : AuditLog → Option String → ℕ → List Event
recent log node limit = map to_event (take limit (order_desc (select (selected node) log.rows)))
