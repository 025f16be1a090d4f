-- ===== src/Node/Examples.antt =====
-- Nodes and their tags: witnesses of the theorems, and tests.
use yaml.Common.{ℕ, ◌≡◌, refl, Bool, false, some, [], Bytes, codes}
use yaml.Run.{ok, panic}
use yaml.Resolve.Tags.{binary_tag}
use yaml.Resolve.Samples.{sample}
use yaml.Node.{Node, new_node, scalar_node}
use yaml.Node.Tag
use yaml.Node.Tag.{set_string}
use yaml.Node.ShortTag.{short_tag-panics, set_string-short_tag}

abbrev no_nodes : ℕ → Node
no_nodes a = new_node

-- The node of the plain scalar `1`.
abbrev plain : Node
plain = record new_node { kind = scalar_node; value = codes "1" }

short_tag-panics_example : Tag.short_tag sample 1 no_nodes plain [] ≡ panic
short_tag-panics_example = short_tag-panics sample 0 no_nodes plain [] refl refl refl

-- Strings that are no text, and an encoding that leaves them alone.
abbrev invalid : Bytes → Bool
invalid s = false

abbrev binary : Node
binary = record new_node { kind = scalar_node; value = codes "x"; tag = binary_tag }

set_string-binary : set_string invalid (λ s. s) (λ n. n) (codes "x") new_node ≡ some binary
unfolding set_string
set_string-binary = refl

set_string-short_tag_example : Tag.short_tag sample 1 no_nodes binary [] ≡ ok binary_tag []
set_string-short_tag_example =
    set_string-short_tag sample invalid (λ s. s) (λ n. n) (codes "x") new_node 0 no_nodes []
      set_string-binary
