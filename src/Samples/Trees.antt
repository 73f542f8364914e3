-- ===== src/Samples/Trees.antt =====
-- Lists in place of the trees of ldns, on which the theorems about indices and tables are tried.
use volans.Prelude.{
  ℕ, ◌≡◌, refl, sym, ap, true, Option, none, some, List, [], ◌∷◌, if◌then◌else◌, arith, ◌≢◌,
}
use volans.Text.{Sign, equal, is_equal, strcmp}
use volans.Text.Decimal.{strcmp_eq}
use volans.Index.{Rbtree}
use volans.Index.Searches.{is_equal_lem}
use volans.Table.{Nodes}
use volans.Table.Laws.{Maps}
use volans.Views.Usable.{Walks}

module _ (cmp : ℕ → ℕ → Sign) where
  abbrev pub search : List ℕ → ℕ → Option ℕ
  search [] d = none
  search (n ∷ ns) d = if is_equal (cmp d n) then some n else search ns d

  abbrev pub insert : List ℕ → ℕ → Option (List ℕ)
  insert ns d = elim (search ns d) [ none ↦ some (d ∷ ns) | some _ ↦ none ]

  abbrev pub delete : List ℕ → ℕ → List ℕ
  delete [] d = []
  delete (n ∷ ns) d = let rest = delete ns d in if is_equal (cmp d n) then rest else n ∷ rest

  abbrev pub assign : List ℕ → ℕ → List ℕ
  assign [] d = []
  assign (n ∷ ns) d = let rest = assign ns d in if is_equal (cmp d n) then d ∷ ns else n ∷ rest

abbrev pub list_tree : Rbtree (List ℕ)
list_tree = record {
  create = [];
  search = search;
  insert = insert;
  delete = delete;
  assign = assign;
}

search_equal :
    (cmp : ℕ → ℕ → Sign) (t : List ℕ) (x n : ℕ) → search cmp t x ≡ some n → cmp x n ≡ equal
search_equal cmp [] x n h = cc
search_equal cmp (m ∷ ms) x n h = ground (arith, search_equal cmp ms x n, is_equal_lem (cmp x m))

insert_found :
    (cmp : ℕ → ℕ → Sign) (t : List ℕ) (d : ℕ) → insert cmp t d ≡ none → search cmp t d ≢ none
insert_found cmp t d h e = ground (arith, h, e)

pub list_tree-Walks : Walks list_tree
list_tree-Walks = record { search_equal = search_equal; insert_found = insert_found }

module _ {Data : Type 0} where
  abbrev find_node : List (List ℕ × Option Data) → List ℕ → Option (Option Data)
  find_node [] j = none
  find_node ((k, item) ∷ ns) j = if is_equal (strcmp j k) then some item else find_node ns j

  abbrev assign_node :
      List (List ℕ × Option Data) → List ℕ → Option Data → List (List ℕ × Option Data)
  assign_node [] j d = []
  assign_node ((k, item) ∷ ns) j d =
      if is_equal (strcmp j k) then (k, d) ∷ ns else (k, item) ∷ assign_node ns j d

  abbrev delete_node : List (List ℕ × Option Data) → List ℕ → List (List ℕ × Option Data)
  delete_node [] j = []
  delete_node ((k, item) ∷ ns) j =
      let rest = delete_node ns j in if is_equal (strcmp j k) then rest else (k, item) ∷ rest

abbrev pub list_nodes : {Data : Type 0} → Nodes Data (List (List ℕ × Option Data))
list_nodes = record {
  create = [];
  search = find_node;
  insert = λ ns k. (k, none) ∷ ns;
  assign = assign_node;
  delete = delete_node;
  nodes = λ ns. ns;
}

-- Keys that strcmp does not tell apart are one text.
same_key : (j k : List ℕ) → is_equal (strcmp j k) ≡ true → j ≡ k
same_key j k h = strcmp_eq j k (is_equal_lem (strcmp j k) h)

compare_same :
    (j k l : List ℕ) → is_equal (strcmp j k) ≡ true → is_equal (strcmp j l) ≡ is_equal (strcmp k l)
compare_same j k l h = ap (λ t. is_equal (strcmp t l)) (same_key j k h)

compare_same_right :
    (j k l : List ℕ) → is_equal (strcmp k l) ≡ true → is_equal (strcmp j l) ≡ is_equal (strcmp j k)
compare_same_right j k l h = ap (λ t. is_equal (strcmp j t)) (sym (same_key k l h))

module _ {Data : Type 0} where
  find-assign :
      (t : List (List ℕ × Option Data)) (k j : List ℕ) (o item : Option Data)
      → find_node t k ≡ some o
      → find_node (assign_node t k item) j
        ≡ (if is_equal (strcmp j k) then some item else find_node t j)
  find-assign [] k j o item h = cc
  find-assign ((l, d) ∷ t) k j o item h =
      ground (arith, find-assign t k j o item, compare_same j k l, compare_same_right j k l)

  find-delete :
      (t : List (List ℕ × Option Data)) (k j : List ℕ)
      → find_node (delete_node t k) j ≡ (if is_equal (strcmp j k) then none else find_node t j)
  find-delete [] k j = ground arith
  find-delete ((l, d) ∷ t) k j =
      ground (arith, find-delete t k j, compare_same j k l, compare_same_right j k l)

pub list_nodes-Maps : {Data : Type 0} → Maps (list_nodes {Data = Data})
list_nodes-Maps = record {
  search-create = λ j. refl;
  search-insert = λ t k j h. refl;
  search-assign = find-assign;
  search-delete = λ t k j o h. find-delete t k j;
}
