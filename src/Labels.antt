-- ===== src/Labels.antt =====
-- pkg/labels/labels.go, on the labels of an object; pkg/version/version.go, whose values the
-- build sets.
use Prim.Native.Char.{code}
use etok.Base.{String, List, [], ◌∷◌, if◌then◌else◌, nat_eq}
use etok.Base.Dict.{Dict, insert}
use etok.Api.Meta.{ObjectMeta}

pub record Label : Type 0 where
  pub name : String
  pub value : String

-- The values that the linker puts into the package version.
pub record Version : Type 0 where
  pub version : String
  pub commit : String

-- strings.ReplaceAll(s, " ", "-")
unfoldable pub dashed : String → String
dashed String.[] = ""
dashed (String.◌∷◌ c s) = String.◌∷◌ (if nat_eq (code c) b' ' then "-" else c) (dashed s)

unfoldable pub new_label : String → String → Label
unfolding dashed
new_label name value = record { name = dashed name; value = dashed value }

unfoldable pub component : String → Label
unfolding new_label
component value = new_label "component" value

unfoldable pub workspace : String → Label
unfolding new_label
workspace value = new_label "workspace" value

unfoldable pub command : String → Label
unfolding new_label
command value = new_label "command" value

abbrev pub app : Label
app = record { name = "app"; value = "etok" }

unfoldable pub operator_component : Label
unfolding component
operator_component = component "operator"

unfoldable pub webhook_component : Label
unfolding component
webhook_component = component "webhook"

unfoldable pub workspace_component : Label
unfolding component
workspace_component = component "workspace"

unfoldable pub run_component : Label
unfolding component
run_component = component "run"

unfoldable pub set_label : ObjectMeta → Label → ObjectMeta
set_label obj lbl = record obj { labels = insert lbl.name lbl.value obj.labels }

make_loop : Dict String → List Label → Dict String
make_loop labels [] = labels
make_loop labels (l ∷ ls) = make_loop (insert l.name l.value labels) ls

unfoldable pub make_labels : List Label → Dict String
unfolding make_loop
make_labels lbl = make_loop [] lbl

unfoldable pub set_common_labels : Version → ObjectMeta → ObjectMeta
unfolding set_label
set_common_labels v obj =
    set_label (set_label (set_label obj app) (record { name = "version"; value = v.version }))
      (record { name = "commit"; value = v.commit })
