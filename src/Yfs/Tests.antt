-- ===== src/Yfs/Tests.antt =====
-- Runs of yfs_client on a new file system: a directory and a file are made, written and read.
pub mod Dirs
pub mod Files
pub mod Locks
use mathlib.Core.Option
use cse_yet_another_file_sys.Base.{
  ℕ, ◌+◌, ◌^◌, ◌≡◌, ◌≢◌, ◌∙◌, ap, refl, inl, inr, ◌⊎◌, Bool, true, false, some, none, List, [], ◌∷◌,
  ◌++◌, Bytes, length, take, replicate, All, arith,
}
use cse_yet_another_file_sys.Base.StdMap
use cse_yet_another_file_sys.Extent.Server
use cse_yet_another_file_sys.Extent.Server.{Attr}
use cse_yet_another_file_sys.Extent.Server.Invariant.{init-IsConsistent}
use cse_yet_another_file_sys.Extent.Client
use cse_yet_another_file_sys.Extent.Client.Invariant.{IsCoherent}
use cse_yet_another_file_sys.Yfs.Numbers.{filename, n2i, isdir, n2i-filename}
use cse_yet_another_file_sys.Yfs.Split.{split, sep, join, IsWord, split-join}
use cse_yet_another_file_sys.Yfs.Services.{Services, Status, ok, err, ioerr, noent, exist}
use cse_yet_another_file_sys.Yfs.Laws.{Store, with_content, Laws, Ends}
use cse_yet_another_file_sys.Yfs.Entries.Listing.{Listing, fields, encode, IsEntry, inum_of}
use cse_yet_another_file_sys.Yfs.Files.{write, read, updatesize, fit, c_string, portion}
use cse_yet_another_file_sys.Yfs.Files.Content.{splice}
use cse_yet_another_file_sys.Yfs.Files.Effect.{read_lem, write_lem, read-write}
use cse_yet_another_file_sys.Yfs.Dirs.{create, mymkdir, lookup, readdir, unlink, missing}
use cse_yet_another_file_sys.Yfs.Dirs.Effect.{create_exist, created, create_lem, mymkdir_lem}
use cse_yet_another_file_sys.Yfs.Dirs.Lookup.{
  Finds, lookup-missing, lookup_lem, readdir_lem, lookup-create,
}
use cse_yet_another_file_sys.Yfs.Dirs.Unlink.{unlink_noent, unlink_dir, unlink_lem}
use cse_yet_another_file_sys.Yfs.Cached.{Machine, cached, view, Sound, cached-Laws}

-- The second of a call, and the locks that go back at once.
abbrev pub clock : ℕ → ℕ
clock n = 100 + n

abbrev pub revoked : ℕ → Bool
revoked n = true

-- give_back finds the root's lock before each call.
abbrev pub idle : ℕ → List ℕ
idle n = 1 ∷ []

abbrev pub yfs : Services Machine
yfs = cached clock revoked idle

abbrev pub seen : Machine → Store
seen = view clock revoked idle

abbrev pub Fine : Machine → Type 0
Fine = Sound clock revoked idle

abbrev pub fresh : Machine
fresh = record { world = record { client = Client.empty; server = Server.init 3 }; calls = 0 }

pub fresh-Fine : Fine fresh
fresh-Fine = record {
  server = init-IsConsistent 3;
  sizes = λ id. unfold Server.init StdMap.lookup in ground arith;
  cached = λ id. unfold StdMap.lookup in tt;
}

cached-Laws_example : Laws yfs seen Fine
cached-Laws_example = cached-Laws clock revoked idle

abbrev pub laws : Laws yfs seen Fine
laws = cached-Laws clock revoked idle

-- "a"
abbrev pub a_name : Bytes
a_name = 97 ∷ []

abbrev pub file : ℕ
file = 2147483653

abbrev pub dir : ℕ
dir = 12

pub a-IsEntry : IsEntry (file, a_name)
a-IsEntry = (omega arith, ((λ e. cc), ((λ e. omega arith), tt)))

pub dir-IsEntry : IsEntry (dir, a_name)
dir-IsEntry = (omega arith, ((λ e. cc), ((λ e. omega arith), tt)))

pub root_there : seen fresh 1 ≡ some (encode [])
unfolding Server.init StdMap.lookup encode
root_there = refl

lookup-create_example :
    Finds seen Fine (lookup yfs 1 a_name) (create yfs 1 a_name file fresh).1 file 0
lookup-create_example =
    lookup-create laws 1 a_name file [] fresh fresh-Fine root_there tt a-IsEntry
      (unfold inum_of in refl) (λ e. omega arith)

-- The file system with the file, and with the directory.
abbrev pub one_file : Machine
one_file = (create yfs 1 a_name file fresh).1

abbrev pub file_list : Listing
file_list = (file, a_name) ∷ []

abbrev pub one_dir : Machine
one_dir = (mymkdir yfs 1 a_name dir fresh).1

abbrev pub dir_list : Listing
dir_list = (dir, a_name) ∷ []

create_lem_example :
    (a : Attr) × (a.size ≡ 0)
    × Ends seen Fine (create yfs 1 a_name file) fresh (ok a) (created (seen fresh) 1 a_name file [])
create_lem_example =
    create_lem laws 1 a_name file [] fresh-Fine root_there tt (unfold inum_of in refl)
      (λ e. omega arith)

file_made :
    (a : Attr) × (a.size ≡ 0)
    × Ends seen Fine (create yfs 1 a_name file) fresh (ok a) (created (seen fresh) 1 a_name file [])
file_made =
    create_lem laws 1 a_name file [] fresh-Fine root_there tt (unfold inum_of in refl)
      (λ e. omega arith)

dir_made :
    Ends seen Fine (mymkdir yfs 1 a_name dir) fresh (ok tt) (created (seen fresh) 1 a_name dir [])
dir_made =
    mymkdir_lem laws 1 a_name dir [] fresh-Fine root_there tt (unfold inum_of in refl)
      (λ e. omega arith)

pub one_file-Fine : Fine one_file
one_file-Fine = file_made.2.sound

pub file_listed : seen one_file 1 ≡ some (encode file_list)
file_listed = ap (λ (t : Store). t 1) file_made.2.view_after ∙ refl

pub file_there : seen one_file file ≡ some []
file_there = ap (λ (t : Store). t file) file_made.2.view_after ∙ refl

pub one_dir-Fine : Fine one_dir
one_dir-Fine = dir_made.sound

pub dir_listed : seen one_dir 1 ≡ some (encode dir_list)
dir_listed = ap (λ (t : Store). t 1) dir_made.view_after ∙ refl
