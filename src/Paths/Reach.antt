-- ===== src/Paths/Reach.antt =====
-- What a tree of names says about a file, and what one target says.
use external_squashfs_tools.Common.{
  ℕ, ◌≡◌, refl, Bool, true, false, ◌&&◌, ◌||◌, Option, some, List, [], ◌∷◌, arith,
}
use external_squashfs_tools.Paths.{Pathname, no_names, leaf_name, branch_name, strcmp_eq}

pub strcmp_eq_same : (a b : List ℕ) → strcmp_eq a b ≡ true → a ≡ b
strcmp_eq_same [] [] h = refl
strcmp_eq_same [] (c ∷ cs) h = ground arith
strcmp_eq_same (b ∷ bs) [] h = ground arith
strcmp_eq_same (b ∷ bs) (c ∷ cs) h =
    let same : b ≡ c = ground arith in rw (same, strcmp_eq_same bs cs (ground arith)) refl

module _ (is_match : (pattern name : List ℕ) → Bool) where
  -- A way through the tree to a leaf, or one as long as the names, which then counts as `short`.
  abbrev pub reach : (short : Bool) → Pathname → List (List ℕ) → Bool
  reach short paths [] = short
  reach short no_names (c ∷ cs) = false
  reach short (leaf_name pattern rest) (c ∷ cs) = is_match pattern c || reach short rest (c ∷ cs)
  reach short (branch_name pattern paths rest) (c ∷ cs) =
      (is_match pattern c && reach short paths cs) || reach short rest (c ∷ cs)

  -- The patterns match the names in order, as far as both go; `short` when the names end first.
  abbrev pub meets : (short : Bool) → List (List ℕ) → List (List ℕ) → Bool
  meets short [] cs = true
  meets short (p ∷ ps) [] = short
  meets short (p ∷ ps) (c ∷ cs) = is_match p c && meets short ps cs

  -- One tree says what the other one and a target say.
  abbrev pub Reaches : (paths' paths : Pathname) → List (List ℕ) → Type 0
  Reaches paths' paths ps =
      (short : Bool) (cs : List (List ℕ))
      → reach short paths' cs ≡ (reach short paths cs || meets short ps cs)

  pub record Added (ps : List (List ℕ)) (paths : Pathname) (result : Option Pathname) : Type 0 where
    pub paths' : Pathname
    pub ran : result ≡ some paths'
    pub reaches : Reaches paths' paths ps

  pub Reaches-leaf :
      (name : List ℕ) (rest' rest : Pathname) (ps : List (List ℕ))
      → Reaches rest' rest ps
      → Reaches (leaf_name name rest') (leaf_name name rest) ps
  Reaches-leaf name rest' rest ps h short [] = h short []
  Reaches-leaf name rest' rest ps h short (c ∷ cs) = let e = h short (c ∷ cs) in rw e (ground arith)

  pub Reaches-branch :
      (name : List ℕ) (paths rest' rest : Pathname) (ps : List (List ℕ))
      → Reaches rest' rest ps
      → Reaches (branch_name name paths rest') (branch_name name paths rest) ps
  Reaches-branch name paths rest' rest ps h short [] = h short []
  Reaches-branch name paths rest' rest ps h short (c ∷ cs) =
      let e = h short (c ∷ cs) in rw e (ground arith)

  -- A leaf has all targets below it.
  pub Reaches-absorbed :
      (name : List ℕ) (rest : Pathname) (ps : List (List ℕ))
      → Reaches (leaf_name name rest) (leaf_name name rest) (name ∷ ps)
  Reaches-absorbed name rest ps short [] = ground arith
  Reaches-absorbed name rest ps short (c ∷ cs) = ground arith

  -- A new leaf takes the place of what is below it.
  pub Reaches-cut :
      (name : List ℕ) (paths rest : Pathname)
      → Reaches (leaf_name name rest) (branch_name name paths rest) (name ∷ [])
  Reaches-cut name paths rest short [] = ground arith
  Reaches-cut name paths rest short (c ∷ cs) = ground arith

  pub Reaches-deeper :
      (name : List ℕ) (paths' paths rest : Pathname) (ps : List (List ℕ))
      → Reaches paths' paths ps
      → Reaches (branch_name name paths' rest) (branch_name name paths rest) (name ∷ ps)
  Reaches-deeper name paths' paths rest ps h short [] = ground arith
  Reaches-deeper name paths' paths rest ps h short (c ∷ cs) =
      let e = h short cs in rw e (ground arith)

  pub Reaches-new_leaf : (name : List ℕ) → Reaches (leaf_name name no_names) no_names (name ∷ [])
  Reaches-new_leaf name short [] = ground arith
  Reaches-new_leaf name short (c ∷ cs) = ground arith

  pub Reaches-new_branch :
      (name : List ℕ) (paths' : Pathname) (p : List ℕ) (ps : List (List ℕ))
      → Reaches paths' no_names (p ∷ ps)
      → Reaches (branch_name name paths' no_names) no_names (name ∷ (p ∷ ps))
  Reaches-new_branch name paths' p ps h short [] = ground arith
  Reaches-new_branch name paths' p ps h short (c ∷ []) = let e = h short [] in rw e (ground arith)
  Reaches-new_branch name paths' p ps h short (c ∷ d ∷ cs) =
      let e = h short (d ∷ cs) in rw e (ground arith)
