-- ===== src/Tests/Service.antt =====
-- The theorems on the file service at concrete inputs.
use nexuscloud.Base.{◌≡◌, ◌⊎◌, refl, false, [], ◌∷◌, str, str_eq, select}
use nexuscloud.Storage.Errors.{ok, err, forbidden}
use nexuscloud.Storage.Action.{pure, reject_if, ◌>>=◌, ◌>>◌}
use nexuscloud.Storage.World.{World, query, fault_of, rest_of}
use nexuscloud.Storage.Files.{has_id, get_file_by_id}
use nexuscloud.Storage.Service.History.{owned_file}
use nexuscloud.Storage.Service.Trash.{delete, restore_file}
use nexuscloud.Storage.Service.Trash.Undo.{delete-restore_file}
use nexuscloud.Storage.Service.Isolation.Rows.{not_of, dir_not_of}
use nexuscloud.Storage.Service.Isolation.Owned.{Refuses, OwnsFile, OwnsFolder}
use nexuscloud.Storage.Service.Requests.{
  Request, upload_file, delete_file, purge_folder, serve, serve-others,
}
use nexuscloud.Storage.Service.Requests.Refused.{
  named_file, named_folder, serve-OwnsFile, serve-OwnsFolder,
}
use nexuscloud.Tests.{file, folder, memory, settings, world, two_bytes}

-- Ana writes over her file of the same name as Bob's.
abbrev overwrite_notes : Request
overwrite_notes = upload_file (str "/") (str "notes") two_bytes [] false

serve-others_example :
    let w' = (serve memory settings 9 (str "ana") overwrite_notes world).1 in
    (select (not_of (str "ana")) w'.db.files ≡ file "2" "bob" "notes" ∷ [])
    × (select (dir_not_of (str "ana")) w'.db.directories ≡ folder "4" "bob" "docs" ∷ [])
unfolding str_eq
serve-others_example = serve-others memory settings 9 (str "ana") overwrite_notes world

-- Ana asks for Bob's file to be deleted, and for his folder to be purged.
serve-OwnsFile_example :
    OwnsFile (str "ana") (str "2") world
    ⊎ Refuses world (serve memory settings 9 (str "ana") (delete_file (str "2")) world)
unfolding named_file
serve-OwnsFile_example =
    serve-OwnsFile memory settings 9 (str "ana") (str "2") (delete_file (str "2")) world refl

serve-OwnsFolder_example :
    OwnsFolder (str "ana") (str "4") world
    ⊎ Refuses world (serve memory settings 9 (str "ana") (purge_folder (str "4")) world)
unfolding named_folder
serve-OwnsFolder_example =
    serve-OwnsFolder memory settings 9 (str "ana") (str "4") (purge_folder (str "4")) world refl

serve_test :
    serve memory settings 9 (str "ana") (delete_file (str "2")) world ≡ (err forbidden, world)
unfolding serve delete owned_file get_file_by_id query has_id str_eq ◌>>=◌ pure reject_if fault_of
    rest_of
serve_test = refl

delete-restore_file_example :
    (delete memory settings 9 (str "ana") (str "1")
        >> restore_file memory settings (str "ana") (str "1"))
      world
    ≡ (ok tt, world)
unfolding has_id str_eq
delete-restore_file_example =
    delete-restore_file memory settings 9 (str "ana") (file "1" "ana" "notes") world refl refl refl
      refl refl

abbrev with_docs : World memory.Disk
with_docs = record world { disk = (str "main", str "/ana/docs", []) ∷ [] }
