-- ===== src/Controller/Labels.antt =====
-- The loops over labels and owners, against what they leave.
use kubernetes_controller.Base.{
  ◌≡◌, refl, ap, ◌∙◌, String, Bool, not, ◌&&◌, Option, none, some, [], ◌∷◌, arith, if◌then◌else◌,
}
use kubernetes_controller.Base.{◌==◌, eq_iff}
use kubernetes_controller.Base.Dict.{Dict, lookup, insert, erase, lookup-insert, lookup-erase}
use kubernetes_controller.Controller.Helpers.{has}
use kubernetes_controller.Controller.Swap.Prepare.{is_internal_label, strip_service_labels}
use kubernetes_controller.Controller.Phases.Restoring.{merge_missing}

strip_one :
    (j k v : String) (internal_j internal_k : Bool) (x : Option String) (labels : Dict String)
    → (j ≡ k → internal_j ≡ internal_k)
    → (if has x && not internal_k
        then none
        else lookup k (if has (lookup j labels) && not internal_j then erase j labels else labels))
      ≡ (if has (if j == k then some v else x) && not internal_k then none else lookup k labels)
strip_one j k v internal_j internal_k x labels same =
    ground (arith, eq_iff j k, lookup-erase j k labels, same)

-- Of a pod's labels, exactly those are taken off that the source had and that the StatefulSet
-- controller does not read; every other label keeps its value.
pub lookup-strip_service_labels :
    (k : String) (source labels : Dict String)
    → lookup k (strip_service_labels source labels)
      ≡ (if has (lookup k source) && not (is_internal_label k) then none else lookup k labels)
unfolding strip_service_labels lookup
lookup-strip_service_labels k [] labels = refl
lookup-strip_service_labels k ((j, v) ∷ source) labels =
    lookup-strip_service_labels k source _
    ∙ strip_one j k v (is_internal_label j) (is_internal_label k) (lookup k source) labels
        (ap is_internal_label)

-- The labels of a target pod are its own, and for the others those of the source.
pub lookup-merge_missing :
    (k : String) (labels source : Dict String)
    → lookup k (merge_missing labels source)
      ≡ (if has (lookup k labels) then lookup k labels else lookup k source)
unfolding merge_missing lookup
lookup-merge_missing k labels [] = ground arith
lookup-merge_missing k labels ((j, v) ∷ source) = ground (
  arith,
  eq_iff j k,
  lookup-insert j k v labels,
  lookup-merge_missing k (insert j v labels) source,
  lookup-merge_missing k labels source,
)
