-- ===== src/Json/Tree.antt =====
-- Values as trees, an instance of the operations of serde_json. A text that would be parsed is kept.
use walastack_rs.Base.{
  ℕ, String, ◌≡◌, refl, ap, Bool, Option, none, some, List, [], ◌∷◌, if◌then◌else◌, ◌==◌, ==_refl,
  nat_keys, string_keys, codes_keys, ok,
}
use walastack_rs.Json.{SerdeJson}
use walastack_rs.Json.Laws.{IsLawful, HasEmptyNull}

mutual
  pub data Tree : Type 0 where
    null_tree : Tree
    boolean_tree : Bool → Tree
    number_tree : ℕ → Tree
    text_tree : String → Tree
    array_tree : Trees → Tree
    object_tree : Entries → Tree

  pub data Trees : Type 0 where
    no_trees : Trees
    tree_of : Tree → Trees → Trees

  pub data Entries : Type 0 where
    no_entries : Entries
    entry_of : String → Tree → Entries → Entries

abbrev pub trees : List Tree → Trees
trees [] = no_trees
trees (t ∷ ts) = tree_of t (trees ts)

abbrev pub tree_list : Trees → List Tree
tree_list no_trees = []
tree_list (tree_of t ts) = t ∷ tree_list ts

abbrev pub entries : List (String × Tree) → Entries
entries [] = no_entries
entries ((key, t) ∷ es) = entry_of key t (entries es)

abbrev pub find_entry : (key : String) → Entries → Option Tree
find_entry key no_entries = none
find_entry key (entry_of other t es) = if other == key then some t else find_entry key es

abbrev pub tree_get : (key : String) → Tree → Option Tree
tree_get key (object_tree es) = find_entry key es
tree_get key _ = none

abbrev pub tree_str : Tree → Option String
tree_str (text_tree s) = some s
tree_str _ = none

abbrev pub tree_array : Tree → Option (List Tree)
tree_array (array_tree ts) = some (tree_list ts)
tree_array _ = none

abbrev pub tree_json : SerdeJson
tree_json = record {
  Value = Tree;
  null = null_tree;
  boolean = boolean_tree;
  number = number_tree;
  text = text_tree;
  array = λ ts. array_tree (trees ts);
  object = λ es. object_tree (entries es);
  from_str = λ s. ok (text_tree s);
  get = tree_get;
  as_str = tree_str;
  as_array = tree_array;
}

tree_list-trees : (ts : List Tree) → tree_list (trees ts) ≡ ts
tree_list-trees [] = refl
tree_list-trees (t ∷ ts) = ap (λ rest. t ∷ rest) (tree_list-trees ts)

pub tree_json-IsLawful : IsLawful tree_json
tree_json-IsLawful = record {
  as_str-text = λ s. refl;
  as_array-array = λ vs. ap some (tree_list-trees vs);
  get_empty = λ key. refl;
  get_here = λ key v es _. rw (==_refl key) refl;
  get_there = λ key other v es apart. rw apart refl;
}

pub tree_json-HasEmptyNull : HasEmptyNull tree_json
tree_json-HasEmptyNull = record { get-null = λ key. refl; as_array-null = refl; as_str-null = refl }
