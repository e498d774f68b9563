-- ===== src/Loader.antt =====
-- contractplane/loader.py: how a document becomes a pack. Reading the file and the YAML in it,
-- which `load_domain_pack` does before, is not modelled.
pub mod Parse
pub mod RoundTrip
pub mod Queue
pub mod Issues
pub mod Bound
pub mod Joining
pub mod Visits
pub mod Accepted
pub mod Checked
pub mod Compiles
pub mod Counting
use contractplane.Prelude.{List, map, is_empty}
use contractplane.Json.{Json}
use contractplane.Platform.{Platform}
use contractplane.Errors.{
  structural, ValidationIssue, pack_invalid, Result, ok, ◌>>=◌, ◌>>◌, require,
}
use contractplane.Models.{DomainPack}
use contractplane.Schema.{domain_pack_schema}
use contractplane.Loader.Parse.{as_object, parse}
use contractplane.Loader.Issues.{issue, semantic_issues}

unfoldable pub structural_issues : Platform → Json → List ValidationIssue
structural_issues platform raw =
    map (λ error. issue error.path (structural error.message))
      (platform.errors_by_path domain_pack_schema raw)

unfoldable pub parse_domain_pack : Platform → Json → Result DomainPack
parse_domain_pack platform raw = do
  let in_structure = structural_issues platform raw
  require (is_empty in_structure) (pack_invalid in_structure)
  item ← as_object raw
  pack ← parse item
  issues ← semantic_issues platform pack
  require (is_empty issues) (pack_invalid issues)
  ok pack
