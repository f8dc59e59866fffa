-- ===== src/Tests/Db.antt =====
-- The theorems on the database, on the rooms of `Rooms`.
use nu_moo.Base.{◌≡◌, refl, true, some, List, []}
use nu_moo.Base.Int.{pos}
use nu_moo.Db.Links.{children, contents}
use nu_moo.Db.Links.Chain.{field}
use nu_moo.Db.Links.Detach.{nobody}
use nu_moo.Db.Links.Lists.{Lists}
use nu_moo.Db.Object.{Objid, nothing, Objects}
use nu_moo.Db.Objects.{db_change_location}
use nu_moo.Db.Objects.Creation.{db_create_object_lem}
use nu_moo.Db.Objects.Location.{unmoved, db_change_location_lem}
use nu_moo.Db.Objects.Taking.{InOrder, with_objects, moved}
use nu_moo.Db.State.{Db, valid, db_create_object}
use nu_moo.Tests.Rooms.{
  thing, table, inside, rooms, rooms-InOrder, empty, table-parent, table-kin, table-located,
}

db_change_location_lem_example :
    (h : Objects) × (db_change_location (pos 1) (pos 2) rooms ≡ some (with_objects rooms h))
    × InOrder (with_objects rooms h) (moved rooms inside (pos 1) (pos 2))
    × (field (λ x. x.location) h (pos 1) ≡ some (pos 2))
    × ((a : Objid) → field unmoved h a ≡ field unmoved table a)
db_change_location_lem_example =
    db_change_location_lem rooms (pos 1) (pos 2) (thing (pos 1) (pos 0) nothing) rooms-InOrder refl

db_create_object_lem_example :
    (d : Db) × (db_create_object (thing (pos 9) (pos 0) (pos 2)) rooms ≡ (pos 3, d))
    × (valid d (pos 3) ≡ true)
    × Lists contents d.objects d.num_objects inside nobody
    × Lists children d.objects d.num_objects empty nobody
    × ((◌≡◌ {A = List Objid} [] []) × (◌≡◌ {A = List Objid} [] []))
    × (d.objects (pos 1) ≡ table (pos 1))
db_create_object_lem_example =
    db_create_object_lem (thing (pos 9) (pos 0) (pos 2)) rooms (pos 1) rooms-InOrder table-kin
      table-located (λ b f. cc (table-parent b (pos 3) f)) (λ e. cc e)
