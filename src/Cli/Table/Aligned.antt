-- ===== src/Cli/Table/Aligned.antt =====
-- `format_table` of src/solfleet/cli.py: the lines of the table are aligned.
use solfleet.Prelude.{
  ℕ, zero, suc, ◌+◌, ◌-◌, ◌≤◌, ◌≡◌, refl, List, [], ◌∷◌, ◌++◌, map, String, All, All-map, length,
  arith,
}
use solfleet.Prelude.Text.{lit}
use solfleet.Prelude.Strings.{append_text, str_length}
use solfleet.Probe.{NodeStatus, ClusterStatus}
use solfleet.Executor.Frames.{All-append}
use solfleet.Cli.Table.{
  spaces, ljust, row, table_rows, headers, widen, widths, pad, join, line, lines_of, warnings,
  format_table,
}

str_length-append_text : (s t : String) → str_length (append_text s t) ≡ str_length s + str_length t
str_length-append_text String.[] t = omega arith
str_length-append_text (String.◌∷◌ c s) t = omega (arith, str_length-append_text s t)

str_length-spaces : (n : ℕ) → str_length (spaces n) ≡ n
str_length-spaces zero = omega arith
str_length-spaces (suc n) = omega (arith, str_length-spaces n)

str_length-ljust : (c : String) (w : ℕ) → str_length c ≤ w → str_length (ljust c w) ≡ w
unfolding ljust
str_length-ljust c w h = omega (
  arith,
  str_length-append_text c (spaces (w - str_length c)),
  str_length-spaces (w - str_length c),
)

-- Every cell has a column that is wide enough.
abbrev Fits : List ℕ → List String → Type 0
Fits [] [] = Unit
Fits [] (c ∷ cells) = ⊥
Fits (w ∷ ws) [] = ⊥
Fits (w ∷ ws) (c ∷ cells) = (str_length c ≤ w) × Fits ws cells

Fits-widen : (ws : List ℕ) (cells new : List String) → Fits ws cells → Fits (widen ws new) cells
Fits-widen [] [] new h = tt
Fits-widen [] (c ∷ cells) new h = elim h [ ]
Fits-widen (w ∷ ws) [] new h = elim h [ ]
Fits-widen (w ∷ ws) (c ∷ cells) [] h = h
Fits-widen (w ∷ ws) (c ∷ cells) (d ∷ new) h = (ground (arith, h.0), Fits-widen ws cells new h.1)

Fits-new :
    (ws : List ℕ) (cells new : List String)
    → Fits ws cells
    → length new ≡ length cells
    → Fits (widen ws new) new
Fits-new [] [] [] h e = tt
Fits-new [] [] (d ∷ new) h e = cc
Fits-new [] (c ∷ cells) new h e = elim h [ ]
Fits-new (w ∷ ws) [] new h e = elim h [ ]
Fits-new (w ∷ ws) (c ∷ cells) [] h e = cc
Fits-new (w ∷ ws) (c ∷ cells) (d ∷ new) h e =
    (ground arith, Fits-new ws cells new h.1 (omega (arith, e)))

abbrev pub line_width : List ℕ → ℕ
line_width [] = 0
line_width (w ∷ []) = w
line_width (w ∷ v ∷ ws) = w + (2 + line_width (v ∷ ws))

str_length-line :
    (ws : List ℕ) (cells : List String) → Fits ws cells → str_length (line ws cells) ≡ line_width ws
unfolding line
str_length-line [] [] h = refl
str_length-line [] (c ∷ cells) h = elim h [ ]
str_length-line (w ∷ ws) [] h = elim h [ ]
str_length-line (w ∷ []) (c ∷ []) h = str_length-ljust c w h.0
str_length-line (w ∷ []) (c ∷ d ∷ cells) h = elim h.1 [ ]
str_length-line (w ∷ v ∷ ws) (c ∷ []) h = elim h.1 [ ]
str_length-line (w ∷ v ∷ ws) (c ∷ d ∷ cells) h =
    let rest = join (pad (d ∷ cells) (v ∷ ws)) in
    omega (
      arith,
      str_length-append_text (ljust c w) (append_text "  " rest),
      str_length-append_text "  " rest,
      str_length-ljust c w h.0,
      str_length-line (v ∷ ws) (d ∷ cells) h.1,
    )

abbrev HasSeven : List String → Type 0
HasSeven cells = length cells ≡ 7

headers-Fits : (rows : List (List String)) → Fits (widths rows) headers
unfolding widths
headers-Fits [] = omega arith
headers-Fits (r ∷ rows) = Fits-widen (widths rows) headers r (headers-Fits rows)

rows-Fits : (rows : List (List String)) → All HasSeven rows → All (Fits (widths rows)) rows
unfolding widths
rows-Fits [] h = tt
rows-Fits (r ∷ rows) h = (
  Fits-new (widths rows) headers r (headers-Fits rows) h.0,
  All-map rows (λ cells. Fits-widen (widths rows) cells r) (rows-Fits rows h.1),
)

row-HasSeven :
    (cluster : ClusterStatus) (nodes : List NodeStatus) → All HasSeven (map (row cluster) nodes)
row-HasSeven cluster [] = tt
row-HasSeven cluster (n ∷ nodes) = (refl, row-HasSeven cluster nodes)

table_rows-HasSeven : (clusters : List ClusterStatus) → All HasSeven (table_rows clusters)
unfolding table_rows
table_rows-HasSeven [] = tt
table_rows-HasSeven (cluster ∷ clusters) =
    All-append HasSeven (map (row cluster) cluster.nodes) (table_rows clusters)
      (row-HasSeven cluster cluster.nodes) (table_rows-HasSeven clusters)

All-lines :
    (ws : List ℕ) (rows : List (List String))
    → All (Fits ws) rows
    → All (λ l. str_length l ≡ line_width ws) (map (line ws) rows)
All-lines ws [] h = tt
All-lines ws (r ∷ rows) h = (str_length-line ws r h.0, All-lines ws rows h.1)

-- The nodes of all clusters.
abbrev pub node_count : List ClusterStatus → ℕ
node_count [] = 0
node_count (cluster ∷ clusters) = length cluster.nodes + node_count clusters

length-rows : (clusters : List ClusterStatus) → length (table_rows clusters) ≡ node_count clusters
unfolding table_rows
length-rows [] = refl
length-rows (cluster ∷ clusters) =
    length-rows_of cluster cluster.nodes clusters (length-rows clusters)
  where
    length-rows_of :
        (c : ClusterStatus) (nodes : List NodeStatus) (cs : List ClusterStatus)
        → length (table_rows cs) ≡ node_count cs
        → length (map (row c) nodes ++ table_rows cs) ≡ length nodes + node_count cs
    length-rows_of c [] cs h = omega (arith, h)
    length-rows_of c (n ∷ nodes) cs h = omega (arith, length-rows_of c nodes cs h)

length-map : (ws : List ℕ) (rows : List (List String)) → length (map (line ws) rows) ≡ length rows
length-map ws [] = refl
length-map ws (r ∷ rows) = omega (arith, length-map ws rows)

-- Whatever was probed, the status table has one line for its headers and one for each node, all of the
-- same width, and the warnings below.
pub format_table-IsAligned :
    (clusters : List ClusterStatus)
    → (table : List String) × (format_table clusters ≡ map lit table ++ warnings clusters)
      × (length table ≡ 1 + node_count clusters)
      × All (λ l. str_length l ≡ line_width (widths (table_rows clusters))) table
unfolding format_table
format_table-IsAligned clusters =
    let rows = table_rows clusters in
    (
      lines_of rows,
      refl,
      omega (arith, length-map (widths rows) rows, length-rows clusters),
      (
        str_length-line (widths rows) headers (headers-Fits rows),
        All-lines (widths rows) rows (rows-Fits rows (table_rows-HasSeven clusters)),
      ),
    )
