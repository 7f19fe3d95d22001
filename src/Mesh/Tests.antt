-- ===== src/Mesh/Tests.antt =====
-- Runs of the mesh, and the theorems at concrete inputs.
use mango_waf.Common.{
  ℕ, inl, Bool, true, false, ◌||◌, none, some, List, [], ◌∷◌, ◌++◌, zero, suc, inr, Option, ◌-◌,
  ◌*◌, ◌≤◌, ◌<◌, ◌&&◌, leb, ◌==◌, if◌then◌else◌, length, Bool-cases, Option-cases, ap, sym, ◌∙◌,
  ◌≢◌, ◌↔◌, ◌⊎◌,
}
use mango_waf.Common.Bytes.{Str}
use mango_waf.Pipeline.{Pipeline, Broadcast, unban}
use mango_waf.Pipeline.Samples.{pipeline}
use mango_waf.Mesh.{MeshNode}
use mango_waf.Mesh.Exchange.{Node}

abbrev named : Str → MeshNode
named name = record { node_name = name; peer_domain_stats = [] }

abbrev node : Str → Node
node name = record { mesh = named name; pipeline = pipeline }
