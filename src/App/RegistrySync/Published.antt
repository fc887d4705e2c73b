-- ===== src/App/RegistrySync/Published.antt =====
-- What a refresh that registers this node leaves in the records.
use algod_loadb_mesh.Base.{
  ◌≡◌, Bool, true, false, some, List, [], ◌∷◌, ◌++◌, if◌then◌else◌, eqb, All, put,
}
use algod_loadb_mesh.App.RegistrySync.{find_record, Registration, upsert, Refreshed}
use algod_loadb_mesh.Domain.NodeRecord.{Node, static_equal}

-- Where the record of this node stands among the new ones: in place of the first one of its id, or at
-- the end when there was none.
pub data IsReplaced (r : Node) (recs new : List Node) : Type 0 where
  in_place :
      (front back : List Node) (old : Node)
      → recs ≡ front ++ (old ∷ back)
      → new ≡ front ++ (r ∷ back)
      → old.id ≡ r.id
      → All (λ x. eqb x.id r.id ≡ false) front
      → IsReplaced r recs new
  at_end : new ≡ recs ++ (r ∷ []) → All (λ x. eqb x.id r.id ≡ false) recs → IsReplaced r recs new

-- What a refresh that is to register a node gives.
pub data IsPublished (put : Node → Bool) (recs : List Node) (want : Node) (out : Refreshed)
    : Type 0 where
  up_to_date :
      (r : Node)
      → out ≡ record { given = some recs; is_registered = true }
      → find_record want.id recs ≡ some r
      → static_equal r want ≡ true
      → IsPublished put recs want out
  published :
      (new : List Node) (r : Node)
      → out ≡ record { given = some new; is_registered = true }
      → put r ≡ true
      → static_equal r want ≡ true
      → r.id ≡ want.id
      → IsReplaced r recs new
      → IsPublished put recs want out
  not_taken :
      (w : Node)
      → static_equal w want ≡ true
      → put w ≡ false
      → out ≡ record { given = some recs; is_registered = false }
      → IsPublished put recs want out

abbrev outcome_of : List Node → Registration → Refreshed
outcome_of recs g = record {
  given = some (if g.is_written then upsert recs g.own else recs);
  is_registered = g.is_kept;
}
