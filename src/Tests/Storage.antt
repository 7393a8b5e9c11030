-- ===== src/Tests/Storage.antt =====
-- Examples of the stored file and of a workspace's listing.
use tik_tok_jam.Base.{◌≡◌, ◌⊎◌, refl, true, false, some, [], length, Eq-String}
use tik_tok_jam.Types.Enums.{SecurityLevel, Trust}
use tik_tok_jam.Types.Equality.{Eq-Scope}
use tik_tok_jam.Types.Records.{Label}
use tik_tok_jam.Action.{World, ok}
use tik_tok_jam.Store.Migration.{migrate_database}
use tik_tok_jam.Store.Stored.{
  stored, restart, migrate_database-stored, load_fingerprints-fingerprint,
}
use tik_tok_jam.Ifc.{fingerprint}
use tik_tok_jam.Ifc.Screen.{clear_fingerprints}
use tik_tok_jam.Workspace.Files.{
  Folder, file, directory, no_more, entry, list_workspace_files, max_entries,
}
use tik_tok_jam.Workspace.Listing.{files_in, take, list_workspace_files-take}
use tik_tok_jam.Tests.Scene.{database, world}

migrate_database-stored_example : migrate_database (stored database) "user-alex" ≡ ok database
migrate_database-stored_example = migrate_database-stored database "user-alex"

abbrev label : Label
label = record {
  grant_id = "g1";
  origin = "writer";
  egress = [];
  level = SecurityLevel.confidential;
  trust = Trust.untrusted;
}

abbrev printed : World
printed =
    (clear_fingerprints "r9"
      (fingerprint (λ codes. "hash") "r1" label "the plan of the day" world).1).1

load_fingerprints-fingerprint_example :
    (printed.index ≡ printed.db.fingerprints) × ((restart printed.db world).index ≡ printed.index)
load_fingerprints-fingerprint_example =
    load_fingerprints-fingerprint (λ codes. "hash") "r1" "r9" label "the plan of the day" world
      world refl

abbrev tree : Folder
tree =
    entry (directory ".git" (entry (file "HEAD" 20 1) no_more)) (
      entry (file "plan.md" 8 3)
        (entry (directory "src" (entry (file "a.ts" 5 2) no_more)) no_more))

list_workspace_files-take_example :
    ((list_workspace_files (some tree)).files ≡ take max_entries (files_in "" tree))
    × ((((list_workspace_files (some tree)).truncated ≡ false)
          × ((list_workspace_files (some tree)).files ≡ files_in "" tree))
        ⊎ (((list_workspace_files (some tree)).truncated ≡ true)
            × (length (list_workspace_files (some tree)).files ≡ max_entries)))
list_workspace_files-take_example = list_workspace_files-take tree
