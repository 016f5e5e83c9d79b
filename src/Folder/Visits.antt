-- ===== src/Folder/Visits.antt =====
-- The folders that `Folder.walk` of src/pypstreader/messaging/folder.py yields.
use mathlib.Core.Path.{subst}
use pypst_reader.Prelude.{
  ℕ, zero, suc, ◌+◌, ◌≤◌, ◌≡◌, refl, ap, arith, false, List, [], ◌∷◌, ◌++◌, map, length, length-map,
  All, Option,
}
use pypst_reader.Error.{Result, ok, err, stuck}
use pypst_reader.Limits.{VisitedSet, visited_set, contains, add, check_depth}
use pypst_reader.Limits.Visited.{Distinct, Added, add-Added}
use pypst_reader.Trace.{Trace, raised, exhausted, yield_, yielded}
use pypst_reader.Store.Open.{Store}
use pypst_reader.Folder.{Folder, subfolders}
use pypst_reader.Folder.Walk.{enter, walk_from, below, walk, depth_ceiling}

abbrev node_id_of : Folder → ℕ
node_id_of f = f.node.raw

-- The node ids of the folders that a walk has yielded, in order.
abbrev pub visited_ids : Trace Folder → List ℕ
visited_ids t = map node_id_of (yielded t)

abbrev Fresh : List ℕ → ℕ → Type 0
Fresh ks k = contains ks k ≡ false

-- The ids are distinct, none is among the ones seen, and there is room for them.
abbrev FromSeen : VisitedSet → List ℕ → Type 0
FromSeen seen ids =
    All (Fresh seen.seen) ids × Distinct ids × (length ids + length seen.seen ≤ seen.ceiling)

contains-Fresh : (k : ℕ) (ks ids : List ℕ) → All (Fresh (k ∷ ks)) ids → contains ids k ≡ false
unfolding contains
contains-Fresh k ks [] a = refl
contains-Fresh k ks (i ∷ ids) (f, a) = ground (arith, f, contains-Fresh k ks ids a)

Fresh-tail : (k : ℕ) (ks ids : List ℕ) → All (Fresh (k ∷ ks)) ids → All (Fresh ks) ids
unfolding contains
Fresh-tail k ks [] a = tt
Fresh-tail k ks (i ∷ ids) (f, a) = (ground (arith, f), Fresh-tail k ks ids a)

pub enter-Added :
    (ceiling : ℕ) (f : Folder) (depth : ℕ) (seen seen' : VisitedSet)
    → enter ceiling f depth seen ≡ ok seen'
    → Added seen f.node.raw seen'
unfolding enter check_depth
enter-Added ceiling f depth seen seen' h = go (check_depth depth ceiling) h
  where
    go :
        (r : Result (Unit {0}))
        → (elim r [ ok u ↦ add seen f.node.raw | err e ↦ err e | stuck ↦ stuck ]) ≡ ok seen'
        → Added seen f.node.raw seen'
    go (ok u) h = add-Added seen f.node.raw h
    go (err e) h = cc
    go stuck h = cc

cons-FromSeen :
    (seen seen' : VisitedSet) (k : ℕ) (ids : List ℕ)
    → Added seen k seen'
    → FromSeen seen' ids
    → FromSeen seen (k ∷ ids)
cons-FromSeen seen seen' k ids added (fresh, distinct, room) =
    let fresh' = subst (λ ks. All (Fresh ks) ids) added.seen fresh in
    (
      (added.fresh, Fresh-tail k seen.seen ids fresh'),
      (contains-Fresh k seen.seen ids fresh', distinct),
      omega (arith, room, ap length added.seen, added.ceiling),
    )

nil-FromSeen : (seen : VisitedSet) → length seen.seen ≤ seen.ceiling → FromSeen seen []
nil-FromSeen seen room = (tt, tt, omega arith)

module _ (s : Store) (ceiling : ℕ) where
  walk_from-FromSeen :
      (fuel : ℕ) (stack : List (Folder × ℕ)) (seen : VisitedSet)
      → length seen.seen ≤ seen.ceiling
      → FromSeen seen (visited_ids (walk_from s ceiling fuel stack seen))
  unfolding walk_from yielded
  walk_from-FromSeen zero stack seen room = nil-FromSeen seen room
  walk_from-FromSeen (suc fuel) [] seen room = nil-FromSeen seen room
  walk_from-FromSeen (suc fuel) ((f, depth) ∷ stack) seen room =
      entered (enter ceiling f depth seen) refl
        (λ children. walk_from-FromSeen fuel (map (below (depth + 1)) children ++ stack))
    where
      after :
          (r : Result (List Folder)) (seen' : VisitedSet)
          → length seen'.seen ≤ seen'.ceiling
          → ((children : List Folder) (seen' : VisitedSet)
              → length seen'.seen ≤ seen'.ceiling
              → FromSeen seen' (
                  visited_ids
                    (walk_from s ceiling fuel (map (below (depth + 1)) children ++ stack) seen')))
          → FromSeen seen' (
              visited_ids (elim r [
                | ok children ↦
                    walk_from s ceiling fuel (map (below (depth + 1)) children ++ stack) seen'
                | err e ↦ raised e
                | stuck ↦ exhausted
              ]))
      after (ok children) seen' room ih = ih children seen' room
      after (err e) seen' room ih = nil-FromSeen seen' room
      after stuck seen' room ih = nil-FromSeen seen' room

      entered :
          (r : Result VisitedSet)
          → enter ceiling f depth seen ≡ r
          → ((children : List Folder) (seen' : VisitedSet)
              → length seen'.seen ≤ seen'.ceiling
              → FromSeen seen' (
                  visited_ids
                    (walk_from s ceiling fuel (map (below (depth + 1)) children ++ stack) seen')))
          → FromSeen seen (
              visited_ids (elim r [
                | ok seen' ↦ yield_ f (elim (subfolders s f).0 [
                  | ok children ↦
                      walk_from s ceiling fuel (map (below (depth + 1)) children ++ stack) seen'
                  | err e ↦ raised e
                  | stuck ↦ exhausted
                ])
                | err e ↦ raised e
                | stuck ↦ exhausted
              ]))
      entered (ok seen') e ih =
          let added = enter-Added ceiling f depth seen seen' e in
          let size = ap length added.seen in
          cons-FromSeen seen seen' f.node.raw _ added
            (after (subfolders s f).0 seen' (omega (arith, size, added.room, added.ceiling)) ih)
      entered (err x) e ih = nil-FromSeen seen room
      entered stuck e ih = nil-FromSeen seen room

-- A walk over folders, whatever the store holds and however it ends, yields no folder twice, and
-- `max_folders` at most.
pub walk-Distinct :
    (s : Store) (max_depth : Option ℕ) (f : Folder)
    → Distinct (visited_ids (walk s max_depth f))
      × (length (yielded (walk s max_depth f)) ≤ s.limits.max_folders)
unfolding walk visited_set
walk-Distinct s max_depth f =
    let ceiling = depth_ceiling max_depth s.limits.max_folder_depth in
    let (_, distinct, room) =
      walk_from-FromSeen s ceiling (2 + s.limits.max_folders) ((f, 0) ∷ [])
        (visited_set s.limits.max_folders) (omega arith) in
    (distinct, omega (arith, room, length-map (yielded (walk s max_depth f)) node_id_of))
