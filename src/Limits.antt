-- ===== src/Limits.antt =====
-- src/pypstreader/limits.py: the ceilings of every walk, and the cycle guard.
--
-- A limit is the largest value that passes. The texts that name what was refused are not
-- modelled, and neither is the check that a caller's ceilings are positive.
pub mod Visited
use pypst_reader.Prelude.{
  ℕ, ◌+◌, ◌*◌, ◌^◌, ◌<◌, ◌≤◌, Bool, true, false, ◌||◌, List, [], ◌∷◌, ltb, leb, ◌==◌, length, not,
  if◌then◌else◌,
}
use pypst_reader.Error.{Result, ok, err, require, limit}

pub record Limits : Type 0 where
  pub max_btree_depth : ℕ
  pub max_xblock_depth : ℕ
  pub max_subnode_depth : ℕ
  pub max_heap_tree_depth : ℕ
  pub max_folder_depth : ℕ
  pub max_embedded_message_depth : ℕ
  pub max_allocation : ℕ
  pub max_file_size : ℕ
  pub max_items : ℕ
  pub max_heap_items : ℕ
  pub max_property_count : ℕ
  pub max_recipients : ℕ
  pub max_attachments : ℕ
  pub max_folders : ℕ
  pub max_messages : ℕ
  pub max_mv_items : ℕ

abbrev pub default_limits : Limits
default_limits = record {
  max_btree_depth = 8;
  max_xblock_depth = 2;
  max_subnode_depth = 2;
  max_heap_tree_depth = 8;
  max_folder_depth = 64;
  max_embedded_message_depth = 16;
  max_allocation = 256 * 2 ^ 20;
  max_file_size = 64 * 2 ^ 30;
  max_items = 2 ^ 27;
  max_heap_items = 65536 * 2047;
  max_property_count = 2 ^ 16;
  max_recipients = 2 ^ 16;
  max_attachments = 510 * 340;
  max_folders = 2 ^ 27;
  max_messages = 2 ^ 27;
  max_mv_items = 1000000;
}

unfoldable pub check_depth : ℕ → ℕ → Result (Unit {0})
check_depth depth ceiling = if ltb ceiling depth then err limit else ok tt

unfoldable pub check_count : ℕ → ℕ → Result (Unit {0})
check_count count ceiling = if ltb ceiling count then err limit else ok tt

unfoldable pub check_allocation : ℕ → ℕ → Result (Unit {0})
check_allocation nbytes ceiling = if ltb ceiling nbytes then err limit else ok tt

-- `VisitedSet`: the keys seen, latest first, and the ceiling. Every key in the program is a number
-- (a byte offset, a search key or a raw heap id).
pub record VisitedSet : Type 0 where
  pub seen : List ℕ
  pub ceiling : ℕ

unfoldable pub visited_set : ℕ → VisitedSet
visited_set ceiling = record { seen = []; ceiling = ceiling }

-- `key in self._seen`
unfoldable pub contains : List ℕ → ℕ → Bool
contains [] key = false
contains (k ∷ ks) key = k == key || contains ks key

unfoldable pub add : VisitedSet → ℕ → Result VisitedSet
unfolding contains
add v key =
    if contains v.seen key
    then err limit
    else if leb v.ceiling (length v.seen)
    then err limit
    else ok (record v { seen = key ∷ v.seen })
