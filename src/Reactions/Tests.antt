-- ===== src/Reactions/Tests.antt =====
-- Concrete runs of the theorems on reactions and readers.
use omarchy_chatd.Base.{◌≡◌, not, none, some, List, [], ◌∷◌, any, keep, All, Text, codes, text_eq}
use omarchy_chatd.Reactions.Tally.{Entry, aggregate_reactions}
use omarchy_chatd.Reactions.ByKey.{tally_of, keys_of, filter_map, aggregate_reactions-eq-tally_of}
use omarchy_chatd.Reactions.Tallied.{IsTally, aggregate_reactions-All}

abbrev by : Text → Text → Text → Entry
by key sender id = record { key = key; sender = sender; id = id }

-- Two keys, a second reaction of ann with the same key, and one that was taken back.
abbrev reacted : List Entry
reacted =
    by (codes "+") (codes "ann") (codes "1")
    ∷ by (codes "x") (codes "bob") (codes "2")
    ∷ by (codes "+") (codes "ann") (codes "3")
    ∷ by (codes "+") (codes "bob") (codes "4")
    ∷ by (codes "y") (codes "bob") (codes "5")
    ∷ []

aggregate_reactions-eq-tally_of_example :
    let live = keep (λ e. not (any (text_eq e.id) (codes "5" ∷ []))) reacted in
    aggregate_reactions (λ u. u) (some (codes "bob")) (codes "5" ∷ []) reacted
    ≡ filter_map (λ k. tally_of (λ u. u) (some (codes "bob")) k live none) (keys_of live [])
aggregate_reactions-eq-tally_of_example =
    aggregate_reactions-eq-tally_of (λ u. u) (some (codes "bob")) (codes "5" ∷ []) reacted

aggregate_reactions-All_example :
    All
      (IsTally (some (codes "bob")))
      (aggregate_reactions (λ u. u) (some (codes "bob")) (codes "5" ∷ []) reacted)
aggregate_reactions-All_example =
    aggregate_reactions-All (λ u. u) (some (codes "bob")) (codes "5" ∷ []) reacted
