-- ===== src/Folder/Walk.antt =====
-- `Folder.walk` of src/pypstreader/messaging/folder.py.
--
-- The stack's top is its head, so that the children, which the source pushes in reverse, go there in
-- their order. A round takes a folder that was not seen: the fuel is two more than `max_folders`.
use pypst_reader.Prelude.{ℕ, zero, suc, ◌+◌, List, [], ◌∷◌, ◌++◌, map, Option, none, some}
use pypst_reader.Error.{Result, ok, err, stuck}
use pypst_reader.Limits.{VisitedSet, visited_set, add, check_depth}
use pypst_reader.Trace.{Trace, done, raised, exhausted, yield_}
use pypst_reader.Store.Open.{Store}
use pypst_reader.Folder.{Folder, subfolders}

abbrev pub below : ℕ → Folder → Folder × ℕ
below depth f = (f, depth)

-- The depth is checked, and the folder is marked.
unfoldable pub enter : ℕ → Folder → ℕ → VisitedSet → Result VisitedSet
enter ceiling f depth seen = elim (check_depth depth ceiling) [
  | ok u ↦ add seen f.node.raw
  | err e ↦ err e
  | stuck ↦ stuck
]

module _ (s : Store) (ceiling : ℕ) where
  unfoldable pub walk_from : ℕ → List (Folder × ℕ) → VisitedSet → Trace Folder
  unfolding enter subfolders
  walk_from zero stack seen = exhausted
  walk_from (suc fuel) [] seen = done
  walk_from (suc fuel) ((f, depth) ∷ stack) seen = elim (enter ceiling f depth seen) [
    | ok seen' ↦ yield_ f (elim (subfolders s f).0 [
      | ok children ↦ walk_from fuel (map (below (depth + 1)) children ++ stack) seen'
      | err e ↦ raised e
      | stuck ↦ exhausted
    ])
    | err e ↦ raised e
    | stuck ↦ exhausted
  ]

-- `max_depth`, or the limit of the store.
abbrev pub depth_ceiling : Option ℕ → ℕ → ℕ
depth_ceiling none default = default
depth_ceiling (some given) default = given

unfoldable pub walk : Store → Option ℕ → Folder → Trace Folder
unfolding walk_from
walk s max_depth f =
    walk_from s (depth_ceiling max_depth s.limits.max_folder_depth) (2 + s.limits.max_folders)
      ((f, 0) ∷ []) (visited_set s.limits.max_folders)
