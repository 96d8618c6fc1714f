-- ===== src/Ids/Tests.antt =====
-- Runs on small tables.
use external_squashfs_tools.Common.{true, List, [], ◌∷◌, arith}
use external_squashfs_tools.Ids.{UgidMapEntry, Ids, create_id, resolved, get_uid}
use external_squashfs_tools.Ids.Table.{IsTable, create_id-IsTable}
use external_squashfs_tools.Ids.Answer.{Answer, get_uid-Answer}

abbrev empty : Ids
empty = record { id_table = []; id_hash_table = λ h. []; uid_count = 0; guid_count = 0 }

empty-IsTable : IsTable empty
empty-IsTable = record {
  hashed = λ i h. absurd (omega arith);
  chained = λ h p i. absurd i;
  distinct = λ i j h k e. absurd (omega arith);
  bounded = omega arith;
}

abbrev one : Ids
one = create_id 1000 empty

one-IsTable : IsTable one
one-IsTable = create_id-IsTable empty 1000 empty-IsTable (λ i h. absurd (omega arith)) (omega arith)

-- Ten ids from 0 are mapped to those from 1000.
abbrev mapping : List UgidMapEntry
mapping = record { child_id = 1000; parent_id = 0; length_of = 10 } ∷ []

get_uid-Answer_example : Answer one (resolved true mapping 3) (get_uid true mapping 3 one)
get_uid-Answer_example = get_uid-Answer one true mapping 3 one-IsTable
