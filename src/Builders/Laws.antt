-- ===== src/Builders/Laws.antt =====
-- The labels of a run leave its key as the builder has it.
use etok.Base.{◌≡◌, refl, List, [], ◌∷◌}
use etok.Labels.{Label, Version, set_label, set_common_labels}
use etok.Api.Meta.{ObjectMeta}
use etok.Builders.{RunBuilder, label_loop, build}

label_loop-name : (ls : List Label) (meta : ObjectMeta) → (label_loop ls meta).name ≡ meta.name
unfolding label_loop set_label
label_loop-name [] meta = refl
label_loop-name (l ∷ ls) meta = label_loop-name ls (set_label meta l)

label_loop-namespace :
    (ls : List Label) (meta : ObjectMeta) → (label_loop ls meta).namespace ≡ meta.namespace
unfolding label_loop set_label
label_loop-namespace [] meta = refl
label_loop-namespace (l ∷ ls) meta = label_loop-namespace ls (set_label meta l)

pub build-name : (version : Version) (b : RunBuilder) → (build version b).name ≡ b.name
unfolding build set_label set_common_labels
build-name version b = label_loop-name b.additional_labels _

pub build-namespace :
    (version : Version) (b : RunBuilder) → (build version b).namespace ≡ b.namespace
unfolding build set_label set_common_labels
build-namespace version b = label_loop-namespace b.additional_labels _
