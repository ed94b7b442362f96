-- ===== src/Labels/Examples.antt =====
-- Tests of the labels.
use process_wrapper.Prelude.{◌≡◌, refl, false, [], ◌∷◌, some, none, codes}
use process_wrapper.Labels.{parse_label, load_labels}

-- A line of the downward API of Kubernetes.
parsed :
    parse_label (codes "tier" ∷ []) (codes "app-name=\"web\" ")
    ≡ some (codes "app_name", codes "web")
unfolding parse_label
parsed = refl

excluded : parse_label (codes "tier" ∷ []) (codes "tier=front") ≡ none
unfolding parse_label
excluded = refl

-- Without the end of the file the loop goes on, as it does where the file could not be opened.
unopened : (load_labels [] (([], false) ∷ ([], false) ∷ ([], false) ∷ []) []).1 ≡ false
unfolding load_labels
unopened = refl
