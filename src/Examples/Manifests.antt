-- ===== src/Examples/Manifests.antt =====
-- Sorting, reading and applying two objects.
use init_agent.Base.{ℕ, ◌≡◌, Bool, List, [], ◌∷◌, ◌++◌, Text, codes, select, arith}
use init_agent.Go.Sort.{count_if}
use init_agent.Manifest.{object_weight, sort_objects_by_hierarchy}
use init_agent.Manifest.Order.{
  IsWeightOf, lower_kind, of_weight, sort_objects_by_hierarchy-groups,
  sort_objects_by_hierarchy-parts,
}
use init_agent.Manifest.Yaml.{parse_yaml, parsed, is_filled, documents, first_error, parse_yaml_lem}
use init_agent.Manifest.Apply.{apply}
use init_agent.Manifest.Apply.Laws.{Explained, apply-Explained}
use init_agent.Examples.Doubles.{widget, namespace, double, double-IsSort, start}

abbrev two_objects : List Text
two_objects = widget ∷ namespace ∷ []

sort_objects_by_hierarchy-groups_example :
    (sort_objects_by_hierarchy double two_objects
      ≡ of_weight double 0 two_objects
        ++ (of_weight double 1 two_objects
            ++ (of_weight double 2 two_objects
                ++ (of_weight double 3 two_objects ++ of_weight double 4 two_objects))))
    × ((obj : Text) → IsWeightOf double (lower_kind double obj) (object_weight double obj))
sort_objects_by_hierarchy-groups_example =
    sort_objects_by_hierarchy-groups double two_objects (omega arith)

sort_objects_by_hierarchy-parts_example :
    let sorted = sort_objects_by_hierarchy double two_objects in
    (sorted
      ≡ of_weight double 0 sorted
        ++ (of_weight double 1 sorted
            ++ (of_weight double 2 sorted
                ++ (of_weight double 3 sorted ++ of_weight double 4 sorted))))
    × ((k : ℕ) (p : Text → Bool)
        → count_if p (of_weight double k sorted) ≡ count_if p (of_weight double k two_objects))
sort_objects_by_hierarchy-parts_example =
    sort_objects_by_hierarchy-parts double double-IsSort two_objects

parse_yaml_lem_example :
    parse_yaml double namespace
    ≡ parsed double
        (select (is_filled double) (documents double (double.decode namespace)))
        (first_error double (double.decode namespace))
parse_yaml_lem_example = parse_yaml_lem double namespace

apply-Explained_example :
    Explained double
      (sort_objects_by_hierarchy double two_objects)
      start
      (apply double (codes "cluster") two_objects start).1
      (apply double (codes "cluster") two_objects start).0
apply-Explained_example = apply-Explained double (codes "cluster") two_objects start
