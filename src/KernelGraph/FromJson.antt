-- ===== src/KernelGraph/FromJson.antt =====
-- `KernelGraph.fromJSON`, and the labels that `hash_report` and `hashCode` of xtrace_utils.js make.
use Prim.Native.String
use tracing_framework.Prelude.{
  ◌>>=◌, ℕ, ◌+◌, ◌-◌, ◌*◌, ◌%◌, String, Option, none, some, List, [], ◌∷◌, Bool, true, false,
  if◌then◌else◌, ltb, ◌==◌, ◌≡◌, refl, arith, ap, ◌∙◌,
}
use tracing_framework.Report.{Report, is_merge}
use tracing_framework.KernelGraph.Defs.{KernelNode, KernelGraph, kernel_graph, link, remove_node}

-- 2 to the 32. A 32-bit integer is its remainder.
abbrev pub word : ℕ
word = 4294967296

-- `hash = ((hash<<5)-hash)+char; hash = hash & hash`
unfoldable pub hash_step : ℕ → ℕ → ℕ
hash_step hash char = ((hash * 32) % word + (word - hash) + char) % word

unfoldable pub hash_from : ℕ → List ℕ → ℕ
hash_from hash [] = hash
hash_from hash (char ∷ chars) = hash_from (hash_step hash char) chars

-- `hashCode`, of the code units of a string
unfoldable pub hash_code : List ℕ → ℕ
hash_code chars = hash_from 0 chars

-- The sign and the magnitude of a 32-bit integer; the sign is true below 0.
unfoldable pub signed : ℕ → Bool × ℕ
signed hash = if ltb hash 2147483648 then (false, hash) else (true, word - hash)

-- `charCodeAt` at all positions of a string, and the text of an integer.
module _ (units : String → List ℕ) (text : Bool × ℕ → String) where
  unfoldable pub hash_report : Report → Bool × ℕ
  hash_report r = elim r.source [
    | none ↦ signed 0
    | some s ↦ if s == "" then signed 0 else signed (hash_code (units (String.◌++◌ "Source:" s)))
  ]

  -- `KernelNode.fromJSON`; without an `EventID`, `toString` raises a TypeError.
  unfoldable pub node_of : Report → Option KernelNode
  node_of r = do
    id ← r.event_id
    some (record { id = id; label = String.◌++◌ "L-" (text (hash_report r)); report = r })

  unfoldable pub nodes_of : List Report → Option (List KernelNode)
  nodes_of [] = some []
  nodes_of (r ∷ rs) = do n ← node_of r; ns ← nodes_of rs; some (n ∷ ns)

unfoldable pub link_to : List String → String → KernelGraph → KernelGraph
link_to [] nid g = g
link_to (e ∷ edges) nid g = link_to edges nid (link g e nid)

unfoldable pub link_reports : List KernelNode → KernelGraph → KernelGraph
link_reports [] g = g
link_reports (n ∷ ns) g = elim n.report.parent_event_id [
  | none ↦ link_reports ns g
  | some edges ↦ link_reports ns (link_to edges n.id g)
]

unfoldable pub remove_merges : List KernelNode → KernelGraph → Option KernelGraph
remove_merges [] g = some g
remove_merges (n ∷ ns) g = do
  g' ← if is_merge n.report then remove_node g n else some g
  remove_merges ns g'

unfoldable pub from_json :
    (String → List ℕ) → (Bool × ℕ → String) → String → List Report → Option KernelGraph
from_json units text id reports = do
  ns ← nodes_of units text reports
  remove_merges ns (link_reports ns (kernel_graph id ns))

-- The polynomial of Java's `String.hashCode`, from the first character on.
abbrev pub polynomial : ℕ → List ℕ → ℕ
polynomial acc [] = acc
polynomial acc (char ∷ chars) = polynomial (31 * acc + char) chars

hash_step_lem : (acc char : ℕ) → hash_step (acc % word) char ≡ (31 * acc + char) % word
unfolding hash_step
hash_step_lem acc char = omega arith

hash_from_lem :
    (acc : ℕ) (chars : List ℕ) → hash_from (acc % word) chars ≡ polynomial acc chars % word
unfolding hash_from
hash_from_lem acc [] = refl
hash_from_lem acc (char ∷ chars) =
    ap (λ h. hash_from h chars) (hash_step_lem acc char) ∙ hash_from_lem (31 * acc + char) chars

-- `hashCode` is the hash code of Java, the polynomial in 31 of the code units, taken modulo 2 to the 32.
pub hash_code_lem : (chars : List ℕ) → hash_code chars ≡ polynomial 0 chars % word
unfolding hash_code
hash_code_lem chars = hash_from_lem 0 chars
