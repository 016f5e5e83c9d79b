-- ===== src/Folder/Fuel.antt =====
-- The fuel of `Folder.walk` in the model of src/pypstreader/messaging/folder.py.
use pypst_reader.Prelude.{
  ℕ, zero, suc, ◌+◌, ◌≤◌, ◌<◌, ◌≡◌, refl, ap, ◌∙◌, arith, List, [], ◌∷◌, ◌++◌, map, length, Option,
}
use pypst_reader.Error.{Result, ok, err, stuck}
use pypst_reader.Limits.{VisitedSet, visited_set}
use pypst_reader.Trace.{Trace, raised, exhausted, yield_}
use pypst_reader.Store.Open.{Store}
use pypst_reader.Folder.{Folder, subfolders}
use pypst_reader.Folder.Walk.{enter, walk_from, below, walk, depth_ceiling}
use pypst_reader.Folder.Visits.{enter-Added}

-- One more round than the room that is left is never used.
abbrev Enough : ℕ → VisitedSet → Type 0
Enough fuel seen = (length seen.seen ≤ seen.ceiling) × (seen.ceiling < fuel + length seen.seen)

-- What a round goes on with, for the results of the two calls that it makes.
abbrev after_children : Result (List Folder) → (List Folder → Trace Folder) → Trace Folder
after_children r next = elim r [
  | ok children ↦ next children
  | err e ↦ raised e
  | stuck ↦ exhausted
]

abbrev after_entry : Result VisitedSet → (VisitedSet → Trace Folder) → Trace Folder
after_entry r next = elim r [ ok seen ↦ next seen | err e ↦ raised e | stuck ↦ exhausted ]

same_children :
    (r : Result (List Folder)) (n m : List Folder → Trace Folder)
    → ((children : List Folder) → n children ≡ m children)
    → after_children r n ≡ after_children r m
same_children (ok children) n m h = h children
same_children (err e) n m h = refl
same_children stuck n m h = refl

same_entry :
    (r r' : Result VisitedSet) (n m : VisitedSet → Trace Folder)
    → r' ≡ r
    → ((seen : VisitedSet) → r' ≡ ok seen → n seen ≡ m seen)
    → after_entry r n ≡ after_entry r m
same_entry (ok seen) r' n m e h = h seen e
same_entry (err x) r' n m e h = refl
same_entry stuck r' n m e h = refl

module _ (s : Store) (ceiling : ℕ) where
  walk_from_more :
      (fuel : ℕ) (stack : List (Folder × ℕ)) (seen : VisitedSet)
      → Enough fuel seen
      → walk_from s ceiling (suc fuel) stack seen ≡ walk_from s ceiling fuel stack seen
  unfolding walk_from
  walk_from_more zero stack seen (room, short) = absurd (omega arith)
  walk_from_more (suc fuel) [] seen enough = refl
  walk_from_more (suc fuel) ((f, depth) ∷ stack) seen (room, short) =
      same_entry (enter ceiling f depth seen) (enter ceiling f depth seen) _ _ refl (λ seen' e.
        let added = enter-Added ceiling f depth seen seen' e in
        let size = ap length added.seen in
        ap (yield_ f) (
          same_children (subfolders s f).0 _ _ (λ children.
            walk_from_more fuel (map (below (depth + 1)) children ++ stack) seen' (
              omega (arith, size, added.room, added.ceiling),
              omega (arith, size, added.ceiling),
            ))))

  walk_from_fuel :
      (more fuel : ℕ) (stack : List (Folder × ℕ)) (seen : VisitedSet)
      → Enough fuel seen
      → walk_from s ceiling (more + fuel) stack seen ≡ walk_from s ceiling fuel stack seen
  walk_from_fuel zero fuel stack seen enough =
      let e : 0 + fuel ≡ fuel = omega arith in ap (λ (n : ℕ). walk_from s ceiling n stack seen) e
  walk_from_fuel (suc more) fuel stack seen (room, short) =
      let e : suc more + fuel ≡ suc (more + fuel) = omega arith in
      ap (λ (n : ℕ). walk_from s ceiling n stack seen) e
      ∙ walk_from_more (more + fuel) stack seen (room, omega arith)
      ∙ walk_from_fuel more fuel stack seen (room, short)

-- A walk over folders takes at most two rounds more than `max_folders`: with any more fuel it yields
-- the same folders and ends in the same way.
pub walk_fuel :
    (s : Store) (max_depth : Option ℕ) (f : Folder) (more : ℕ)
    → walk_from s
        (depth_ceiling max_depth s.limits.max_folder_depth)
        (more + (2 + s.limits.max_folders))
        ((f, 0) ∷ [])
        (visited_set s.limits.max_folders)
      ≡ walk s max_depth f
unfolding walk visited_set
walk_fuel s max_depth f more =
    walk_from_fuel s (depth_ceiling max_depth s.limits.max_folder_depth) more
      (2 + s.limits.max_folders) ((f, 0) ∷ []) (visited_set s.limits.max_folders)
      (omega arith, omega arith)
