-- ===== src/Storage/Sound.antt =====
-- The invariant of the registry under the moves of src/nightfall_photo_ingress/domain/storage.py.
use nightfall_photo_ingress.Base.{ℕ, String, Bool, true, false, Option, none, some}
use nightfall_photo_ingress.Base.Exec.{Error}
use nightfall_photo_ingress.Base.Exec.Keeps.{Keeps}
use nightfall_photo_ingress.World.{Os}
use nightfall_photo_ingress.World.Keeps.{IsSound, sound_rules}
use nightfall_photo_ingress.Storage.Commit.{
  sha256_file, commit_staging_to_accepted, commit_rename, commit_copy, install_copy, place_copy,
  discard_if, check_root, file_size,
}

pub sha256_file-IsSound : (os : Os) (p : String) → Keeps IsSound (sha256_file os p)
unfolding sha256_file
sha256_file-IsSound os p = search sound_rules

pub file_size-IsSound : (p : String) → Keeps IsSound (file_size p)
file_size-IsSound p = search sound_rules

discard_if-IsSound : (b : Bool) (tmp : String) (e : Error) → Keeps IsSound (discard_if b tmp e)
discard_if-IsSound true tmp e = search sound_rules
discard_if-IsSound false tmp e = search sound_rules

check_root-IsSound :
    (os : Os) (p : String) (root : Option String) → Keeps IsSound (check_root os p root)
check_root-IsSound os p none = search sound_rules
check_root-IsSound os p (some root) = search sound_rules

place_copy-IsSound :
    (os : Os) (source tmp destination : String) (n : ℕ)
    → Keeps IsSound (place_copy os source tmp destination n)
unfolding place_copy
place_copy-IsSound os source tmp destination n = search sound_rules depth 20

install_copy-IsSound :
    (os : Os) (source tmp destination : String)
    → Keeps IsSound (install_copy os source tmp destination)
unfolding install_copy
install_copy-IsSound os source tmp destination =
    search
      (sound_rules, place_copy-IsSound, discard_if-IsSound, sha256_file-IsSound, file_size-IsSound)
      depth 20

commit_copy-IsSound :
    (os : Os) (source destination : String) → Keeps IsSound (commit_copy os source destination)
unfolding commit_copy
commit_copy-IsSound os source destination = search (sound_rules, install_copy-IsSound) depth 12

commit_rename-IsSound :
    (os : Os) (source destination : String) → Keeps IsSound (commit_rename os source destination)
unfolding commit_rename
commit_rename-IsSound os source destination = search (sound_rules, file_size-IsSound) depth 12

pub commit-IsSound :
    (os : Os) (source destination : String) (same_pool : Bool) (root : Option String)
    → Keeps IsSound (commit_staging_to_accepted os source destination same_pool root)
unfolding commit_staging_to_accepted
commit-IsSound os source destination same_pool root =
    search (sound_rules, check_root-IsSound, commit_rename-IsSound, commit_copy-IsSound) depth 12
