-- ===== src/IndexingTree.antt =====
-- src/miners/fs/tracker-indexing-tree.c: the tree of directories that are configured for indexing.
-- A `GNode` is its data, its first child and its next sibling, as in GLib; `null` is the NULL pointer.
-- A function that follows find_directory_node and changes the node that it found is one traversal in
-- the same order here. The signals that an operation emits are a list that it returns.
pub mod Nested
mod Counts
mod Adds
mod Removes
pub mod Nearest
mod Configured
mod Unlinks
pub mod Runs
pub mod Roots
pub mod Listing
pub mod Filters
mod Examples
use tracker_miners.Base.{
  ℕ, ◌+◌, ◌/◌, ◌%◌, Bool, true, false, not, ◌&&◌, ◌||◌, Option, none, some, List, [], ◌∷◌, ◌++◌,
  nat_eq, is_some, if◌then◌else◌, ◌==◌,
}
use tracker_miners.Base.Files.{FileOps, file_Eq, has_prefix, has_parent}

pub record NodeData (File : Type 0) : Type 0 where
  pub file : File
  pub flags : ℕ
  pub shallow : Bool
  pub removing : Bool

pub data GNode (File : Type 0) : Type 0 where
  null : GNode File
  gnode : NodeData File → GNode File → GNode File → GNode File

pub data Signal (File : Type 0) : Type 0 where
  directory_added directory_removed : File → Signal File
  directory_updated : Option File → Signal File
  child_updated : File → File → Signal File

-- TRACKER_DIRECTORY_FLAG_RECURSE and TRACKER_DIRECTORY_FLAG_IGNORE, bits 1 and 4
abbrev pub flag_recurse : ℕ → Bool
flag_recurse flags = nat_eq (flags / 2 % 2) 1

abbrev pub flag_ignore : ℕ → Bool
flag_ignore flags = nat_eq (flags / 16 % 2) 1

module _ {File : Type 0} where
  -- find_directory_node: the first node in post order whose file passes the test
  unfoldable pub find_node : (File → Bool) → GNode File → Option (NodeData File)
  find_node test null = none
  find_node test (gnode d children next) =
      let later = find_node test next in
      elim (find_node test children) [
        | some r ↦ some r
        | none ↦ if test d.file then some d else later
      ]

  -- a change of that node: of its data and its children
  unfoldable pub change_node :
      (File → Bool)
      → (NodeData File → NodeData File)
      → (GNode File → GNode File)
      → GNode File
      → GNode File
  change_node test f g null = null
  change_node test f g (gnode d children next) =
      let below = change_node test f g children in
      let later = change_node test f g next in
      elim (find_node test children) [
        | some r ↦ gnode d below next
        | none ↦ if test d.file then gnode (f d) (g children) next else gnode d children later
      ]

  -- the nodes of a chain of siblings that pass a test, each with its children
  unfoldable pub siblings : (File → Bool) → GNode File → GNode File
  siblings test null = null
  siblings test (gnode d children next) =
      let rest = siblings test next in if test d.file then gnode d children rest else rest

  -- g_node_append, of a chain
  unfoldable pub append : GNode File → GNode File → GNode File
  append null ns = ns
  append (gnode d children next) ns = gnode d children (append next ns)

  abbrev pub node_data_new : File → ℕ → NodeData File
  node_data_new f flags = record { file = f; flags = flags; shallow = false; removing = false }

module _ {File : Type 0} ⦃ops : FileOps File⦄ where
  -- parent_or_equals
  abbrev pub parent_or_equals : File → File → Bool
  parent_or_equals f g = f == g || has_prefix f g

  -- check_reparent_node on each child of the parent, then the new node is appended to it
  abbrev pub adopt : NodeData File → GNode File → GNode File
  adopt new children =
      append (siblings (λ f. not (has_prefix f new.file)) children)
        (gnode new (siblings (λ f. has_prefix f new.file) children) null)

  -- tracker_indexing_tree_add. Without a parent for the node, which is so for a directory that is not
  -- below the root, GLib's functions do nothing.
  unfoldable pub add : GNode File → File → ℕ → GNode File × List (Signal File)
  add tree directory flags = elim (find_node (◌==◌ directory) tree) [
    | some d ↦ (
      change_node (◌==◌ directory) (λ x. record x { flags = flags; shallow = false }) (λ c. c) tree,
      if nat_eq d.flags flags then [] else directory_updated (some d.file) ∷ [],
    )
    | none ↦ (
      change_node (has_prefix directory) (λ x. x) (adopt (node_data_new directory flags)) tree,
      directory_added directory ∷ [],
    )
  ]

  -- g_node_unlink of the node found in a chain, with its children. Where the node is deeper in the
  -- chain, its parent is there too, and takes back those of its children that are below it.
  unfoldable pub unlink_node : (File → Bool) → GNode File → GNode File × GNode File
  unlink_node test null = (null, null)
  unlink_node test (gnode d children next) =
      let below = unlink_node test children in
      let later = unlink_node test next in
      elim (find_node test children) [
        | some r ↦
            (gnode d (append below.0 (siblings (λ f. has_prefix f d.file) below.1)) next, null)
        | none ↦ if test d.file then (next, children) else (gnode d children later.0, later.1)
      ]

  -- tracker_indexing_tree_remove; the root node is marked, and stays
  unfoldable pub remove : GNode File → File → GNode File × List (Signal File)
  remove null directory = (null, [])
  remove (gnode root children next) directory = elim (find_node (◌==◌ directory) children) [
    | some d ↦ if d.removing then (gnode root children next, []) else (
      (unlink_node (◌==◌ directory) (gnode root children next)).0,
      directory_removed d.file ∷ [],
    )
    | none ↦
        if directory == root.file && not root.removing
        then (gnode (record root { removing = true; shallow = true }) children next, [])
        else (gnode root children next, [])
  ]

  -- tracker_indexing_tree_get_root, with the flags; without a result they are
  -- TRACKER_DIRECTORY_FLAG_NONE, which is 0
  unfoldable pub get_root : GNode File → File → Option (File × ℕ)
  get_root tree f = elim (find_node (parent_or_equals f) tree) [
    | none ↦ none
    | some d ↦
        if not d.shallow && (f == d.file || has_prefix f d.file)
        then some (d.file, d.flags)
        else none
  ]

  abbrev pub file_is_root : GNode File → File → Bool
  file_is_root tree f = is_some (find_node (◌==◌ f) tree)

  -- The traversal of tracker_indexing_tree_list_roots: it prepends, so that the last in post order
  -- comes first.
  unfoldable pub list_roots : GNode File → List File → List File
  list_roots null roots = roots
  list_roots (gnode d children next) roots =
      let seen = list_roots children roots in
      list_roots next (if not d.shallow && not d.removing then d.file ∷ seen else seen)

  abbrev pub updates_below : File → List File → List (Signal File)
  updates_below f [] = []
  updates_below f (r ∷ rs) =
      let rest = updates_below f rs in
      if has_prefix r f then directory_updated (some r) ∷ rest else rest

  abbrev pub root_of : Option (File × ℕ) → Option File
  root_of none = none
  root_of (some (root, flags)) = some root

  -- the first signal of notify_update; the directory is NULL for a root that is shallow
  unfoldable pub update_signals : GNode File → File → List (Signal File)
  update_signals tree f =
      if file_is_root tree f
      then directory_updated (root_of (get_root tree f)) ∷ []
      else elim (get_root tree f) [
        | none ↦ []
        | some (root, flags) ↦
            if flag_recurse flags || has_parent f root then child_updated root f ∷ [] else []
      ]

  -- tracker_indexing_tree_notify_update, which tells besides whether there is a signal
  unfoldable pub notify_update : GNode File → File → Bool → List (Signal File) × Bool
  notify_update tree f recursive =
      let emitted =
        update_signals tree f ++ (if recursive then updates_below f (list_roots tree []) else []) in
      (emitted, elim emitted [ [] ↦ false | _ ∷ _ ↦ true ])
