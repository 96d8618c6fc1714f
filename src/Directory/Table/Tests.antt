-- ===== src/Directory/Table/Tests.antt =====
-- Two directories, the first with a listing of two blocks.
use external_squashfs_tools.Common.{false, List, [], ◌∷◌, arith}
use external_squashfs_tools.Directory.Write.Sample.{files, length-files, length_two}
use external_squashfs_tools.Metadata.Tests.{
  run_length, expand, run_length_works, run_length_inverse,
}
use external_squashfs_tools.Directory.Table.Listed.{Source, AreSources}
use external_squashfs_tools.Directory.Table.Index.{AreShort}
use external_squashfs_tools.Directory.Table.Saved.{
  DirectoriesSaved, IndexesSaved, write_directories-open_listing, write_directories-mark_index,
}

abbrev sources : List Source
sources =
    record { entries = files 50; start_block = 0; inode_number = 0 }
    ∷ (record { entries = files 2; start_block = 3; inode_number = 9 } ∷ [])

sources-AreSources : AreSources sources
sources-AreSources = ground arith

sources-AreShort : AreShort sources
sources-AreShort = (omega (arith, length-files), (omega (arith, length_two), tt))

write_directories-open_listing_example :
    DirectoriesSaved run_length 0 false expand sources (104 ∷ [])
write_directories-open_listing_example =
    write_directories-open_listing run_length 0 false expand run_length_works run_length_inverse
      sources (104 ∷ []) sources-AreSources

write_directories-mark_index_example : IndexesSaved run_length 0 false expand sources (104 ∷ [])
write_directories-mark_index_example =
    write_directories-mark_index run_length 0 false expand run_length_works run_length_inverse
      sources (104 ∷ []) sources-AreShort
