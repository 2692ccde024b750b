-- ===== src/Scripts/Bundle/Serving/Served.antt =====
-- What `main` of scripts/bundle.py leaves on the disk and serves.
use recserve.Prelude.{ℕ, ◌≡◌, String, Option, none, some, List, ◌⊎◌}
use recserve.Exec.{Result, ok, err}
use recserve.Scripts.Bundle.{Bundle, Directory, verify}
use recserve.Scripts.Bundle.Serving.{serve, Arguments, Disk, Names, Stop, command_of}

module _ (d : Directory) where
  abbrev pub IsAccepted : Bundle → Type 0
  IsAccepted b = (counts : ℕ × ℕ) × (verify d b ≡ ok counts)

  -- the manifest is the one that was there, or one that is verified
  abbrev pub IsReplaced : Disk → Disk → Type 0
  IsReplaced disk disk' =
      (disk'.manifest ≡ disk.manifest) ⊎ ((b : Bundle) × (disk'.manifest ≡ some b) × IsAccepted b)

  -- a process is replaced by the server of the files beside the manifest that is on the disk, which is verified
  abbrev pub IsServed : Names → Arguments → Result Stop (Option (List String)) → Disk → Type 0
  IsServed n a (ok (some command)) disk =
      (a.action ≡ serve)
      × ((b : Bundle) × (disk.manifest ≡ some b)
          × IsAccepted b
          × (command ≡ command_of n n.parent a b))
  IsServed n a (ok none) disk = Unit
  IsServed n a (err x) disk = Unit
