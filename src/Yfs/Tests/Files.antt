-- ===== src/Yfs/Tests/Files.antt =====
-- A file that is written, cut and read.
use cse_yet_another_file_sys.Base.{◌≡◌, ◌∙◌, ap, refl, inl, inr, some, [], ◌∷◌, Bytes, take, arith}
use cse_yet_another_file_sys.Yfs.Services.{ok}
use cse_yet_another_file_sys.Yfs.Laws.{Store, with_content, Ends}
use cse_yet_another_file_sys.Yfs.Files.{write, read, fit, c_string}
use cse_yet_another_file_sys.Yfs.Files.Content.{splice}
use cse_yet_another_file_sys.Yfs.Files.Effect.{write-splice, write_lem, read-write}
use cse_yet_another_file_sys.Yfs.Cached.{Machine}
use cse_yet_another_file_sys.Yfs.Tests.{
  yfs, seen, Fine, laws, file, one_file, one_file-Fine, file_there,
}

-- "hi"
abbrev hi : Bytes
hi = 104 ∷ 105 ∷ []

abbrev written : Machine
written = (write yfs file hi 2 0 one_file).1

first_write :
    Ends seen Fine
      (write yfs file hi 2 0)
      one_file
      (ok tt)
      (with_content (seen one_file) file (splice 0 (fit 2 (c_string hi)) []))
first_write =
    write-splice laws file one_file [] one_file-Fine file_there (omega arith) hi 2 0 (omega arith)
      (inr refl)

hi_there : seen written file ≡ some hi
hi_there = ap (λ (t : Store). t file) first_write.view_after ∙ unfold fit c_string in refl

write_lem_example :
    Ends seen Fine
      (write yfs file (104 ∷ 0 ∷ 105 ∷ []) 3 5)
      written
      (ok tt)
      (with_content (seen written) file (splice 5 (104 ∷ 0 ∷ 0 ∷ []) hi))
write_lem_example =
    write_lem laws file written hi (104 ∷ []) (0 ∷ 105 ∷ []) 3 5 first_write.sound hi_there
      (omega arith) (omega arith, tt) refl (omega arith) (inl (λ e. cc))

read-write_example :
    Ends seen Fine
      (read yfs file 2 5)
      (write yfs file hi 2 5 written).1
      (ok (take 2 hi))
      (seen (write yfs file hi 2 5 written).1)
read-write_example =
    read-write laws file written hi hi 2 5 first_write.sound hi_there (omega arith) (omega arith)
      (inl (λ e. cc)) (omega arith) (ground arith)
