-- ===== src/State/Server/Examples.antt =====
-- src/state.rs: a user who arrives, registers, changes the nickname and leaves.
use chonkline.Base.{◌≡◌, ◌≢◌, none, some, Text, text_eq, codes, lookup}
use chonkline.State.Client.{Cx}
use chonkline.State.Server as Server
use chonkline.State.Server.{ServerState, park_new, register, apply_rename, evict, find_by_id}
use chonkline.State.Server.Tables.{IsTabled}
use chonkline.State.Server.Reach.{
  Reached, start, parks, registers, renames, reached-IsTabled, find_by_id-evict,
}

abbrev parked : ServerState
parked = park_new 1 (codes "cloak") (codes "host") none (Server.new (codes "srv") (codes "1AA"))

abbrev renamed : ServerState
renamed =
    apply_rename 1 (codes "Alice2") 9
      (register 1 (codes "Alice") (codes "al") (codes "cloak") (codes "A") parked).0

nobody :
    (k : Text) (v : Cx)
    → lookup k (Server.new (codes "srv") (codes "1AA")).users ≡ some v
    → v.id ≢ 1
unfolding lookup
nobody k v h = cc

renamed_Reached : Reached renamed
renamed_Reached = renames 1 (codes "Alice2") 9 (
    registers 1 (codes "Alice") (codes "al") (codes "cloak") (codes "A")
      (parks 1 (codes "cloak") (codes "host") none nobody (start (codes "srv") (codes "1AA"))))

reached-IsTabled_example : IsTabled renamed
reached-IsTabled_example = reached-IsTabled renamed_Reached

find_by_id-evict_example : find_by_id 1 (evict 1 renamed).0 ≡ none
find_by_id-evict_example = find_by_id-evict 1 renamed (reached-IsTabled renamed_Reached)
