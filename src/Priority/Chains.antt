-- ===== src/Priority/Chains.antt =====
-- The chains that `generate_file_priorities` makes.
use external_squashfs_tools.Common.{
  ℕ, ◌%◌, ◌^◌, ◌≡◌, refl, sym, ap, ◌∙◌, inl, inr, true, false, ◌&&◌, Option, none, some, List, [],
  ◌∷◌, ◌++◌, ◌==◌, if◌then◌else◌, Bool-cases,
}
use external_squashfs_tools.Priority.{
  SortStat, SortInfo, SortFile, SortEntry, regular, directory, other_entry, SortEntries, no_entries,
  entries, find_info, get_priority, place_entry, place_entries,
}

-- The files below a directory in the order of the entries, each with the stat buffers from its own
-- up to the directory's.
mutual
  pub files_on : SortEntry → List SortStat → List (List SortStat × SortFile)
  files_on (regular true buf f) path = []
  files_on (regular false buf f) path = (buf ∷ path, f) ∷ []
  files_on (directory true buf es) path = []
  files_on (directory false buf es) path = files_below es (buf ∷ path)
  files_on other_entry path = []

  pub files_below : SortEntries → List SortStat → List (List SortStat × SortFile)
  files_below no_entries path = []
  files_below (entries e es) path = files_on e path ++ files_below es path

-- The priority that the sort files give the device and inode, if any.
abbrev pub own_priority : SortStat → List SortInfo → Option ℕ
own_priority buf [] = none
own_priority buf (s ∷ infos) =
    if (s.st_dev == buf.st_dev) && (s.st_ino == buf.st_ino)
    then some s.priority
    else own_priority buf infos

module _ (sort_info_list : ℕ → List SortInfo) (given : ℕ) where
  abbrev or_else : Option ℕ → ℕ → ℕ
  or_else none n = n
  or_else (some m) n = m

  -- The first own priority on the way up, or else the one given.
  abbrev pub nearest : List SortStat → ℕ
  nearest [] = given
  nearest (buf ∷ path) =
      or_else (own_priority buf (sort_info_list (buf.st_ino % 2 ^ 16))) (nearest path)

  -- The files of one priority, put before a chain one after the other.
  abbrev pub chained : (i : ℕ) → List (List SortStat × SortFile) → List SortFile → List SortFile
  chained i [] chain = chain
  chained i (p ∷ ps) chain = chained i ps (if i == nearest p.0 then p.1 ∷ chain else chain)

  chained-append :
      (i : ℕ) (ps qs : List (List SortStat × SortFile)) (chain : List SortFile)
      → chained i (ps ++ qs) chain ≡ chained i qs (chained i ps chain)
  chained-append i [] qs chain = refl
  chained-append i (p ∷ ps) qs chain =
      chained-append i ps qs (if i == nearest p.0 then p.1 ∷ chain else chain)

  find_info-own_priority :
      (buf : SortStat) (n : ℕ) (infos : List SortInfo)
      → find_info buf n infos ≡ or_else (own_priority buf infos) n
  find_info-own_priority buf n [] = refl
  find_info-own_priority buf n (s ∷ infos) =
      elim (Bool-cases ((s.st_dev == buf.st_dev) && (s.st_ino == buf.st_ino))) [
        | inl e ↦ rw e refl
        | inr e ↦ rw e (find_info-own_priority buf n infos)
      ]

  get_priority-nearest :
      (buf : SortStat) (path : List SortStat)
      → get_priority sort_info_list buf (nearest path) ≡ nearest (buf ∷ path)
  unfolding get_priority
  get_priority-nearest buf path =
      find_info-own_priority buf (nearest path) (sort_info_list (buf.st_ino % 2 ^ 16))

  mutual
    unfolding place_entry place_entries files_on files_below

    place_entry-chained :
        (e : SortEntry) (path : List SortStat) (l : ℕ → List SortFile) (i : ℕ)
        → place_entry sort_info_list e (nearest path) l i ≡ chained i (files_on e path) (l i)
    place_entry-chained (regular true buf f) path l i = refl
    place_entry-chained (regular false buf f) path l i =
        ap (λ n. if i == n then f ∷ l i else l i) (get_priority-nearest buf path)
    place_entry-chained (directory true buf es) path l i = refl
    place_entry-chained (directory false buf es) path l i =
        ap (λ n. place_entries sort_info_list es n l i) (get_priority-nearest buf path)
        ∙ place_entries-chained es (buf ∷ path) l i
    place_entry-chained other_entry path l i = refl

    place_entries-chained :
        (es : SortEntries) (path : List SortStat) (l : ℕ → List SortFile) (i : ℕ)
        → place_entries sort_info_list es (nearest path) l i ≡ chained i (files_below es path) (l i)
    place_entries-chained no_entries path l i = refl
    place_entries-chained (entries e es) path l i =
        place_entries-chained es path (place_entry sort_info_list e (nearest path) l) i
        ∙ ap (chained i (files_below es path)) (place_entry-chained e path l i)
        ∙ sym (chained-append i (files_on e path) (files_below es path) (l i))
