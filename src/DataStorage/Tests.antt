-- ===== src/DataStorage/Tests.antt =====
-- The claims about the storage at concrete slices.
use libquicr.Prelude.{suc, ◌≡◌, none, some, [], ◌∷◌, ok, arith, All}
use libquicr.DataStorage.{
  DataStorage, iterator_at, traverse, size, DataStorageDynView, subspan, view_bytes,
}
use libquicr.DataStorage.Traverse.{HasBytes, all_bytes, traverse-all_bytes}
use libquicr.DataStorage.View.{view_bytes-subspan}

abbrev two_slices : DataStorage
two_slices = (1 ∷ 2 ∷ []) ∷ (3 ∷ 4 ∷ 5 ∷ []) ∷ []

two_slices_have : All HasBytes two_slices
two_slices_have = ((λ e. cc), ((λ e. cc), tt))

traverse-all_bytes_example :
    traverse (suc (size two_slices)) (iterator_at two_slices) ≡ ok (1 ∷ 2 ∷ 3 ∷ 4 ∷ 5 ∷ [])
unfolding all_bytes
traverse-all_bytes_example = traverse-all_bytes two_slices two_slices_have

abbrev view : DataStorageDynView
view = record { storage = two_slices; start_pos = 3; end_pos = none }

view_bytes-subspan_example : view_bytes (subspan 1 (some 9) view) ≡ ok (2 ∷ 3 ∷ 4 ∷ 5 ∷ [])
unfolding all_bytes
view_bytes-subspan_example =
    view_bytes-subspan 1 (some 9) view two_slices_have (omega arith) (omega arith)
