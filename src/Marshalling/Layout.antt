-- ===== src/Marshalling/Layout.antt =====
-- `marshall` and `names_recordmarshall` of dictionary.c: the layout of a record in a file.
use volans.Prelude.{ℕ, zero, suc, Option, none, some, List, [], ◌∷◌, ◌++◌, length}
use volans.Prelude.Int.{ℤ, pos, negsuc}
use volans.Ldns.{Ldns}
use volans.Record.{Array, minus, null, at, Itemsig, Itemset, Dictionary}
use volans.Marshalling.{
  Reader, ◌>>=◌, pure, word, write_integer, read_integer, write_string, read_string, write_ldnsrr,
  read_ldnsrr, read_many, write_many, write_optional, read_optional,
}

-- An array: NULL is the count -1, and anything else the count and the elements. Every negative
-- count that is read leaves NULL; -1 is the only one that is written.
unfoldable pub write_array : {A : Type 0} → (A → List ℕ) → Array A → List ℕ
write_array f minus = write_integer (negsuc 0)
write_array f null = write_integer (negsuc 0)
write_array f (at xs) = write_integer (pos (length xs)) ++ write_many f xs

abbrev pub read_elements : {A : Type 0} → Reader A → ℤ → Reader (Array A)
read_elements m (pos n) = do xs ← read_many m n; pure (at xs)
read_elements m (negsuc _) = pure minus

unfoldable pub read_array : {A : Type 0} → Reader A → Reader (Array A)
read_array m = do count ← read_integer; read_elements m count

module _ {Rr : Type 0} ⦃l : Ldns Rr⦄ where
  unfoldable pub write_itemsig : Itemsig Rr → List ℕ
  write_itemsig s =
      write_ldnsrr s.rr ++ (write_string (some s.keylocator) ++ write_integer s.keyflags)

  -- `none` is a key locator that was NULL.
  abbrev pub located : Rr → Option (List ℕ) → ℤ → Reader (Itemsig Rr)
  located rr none flags bytes = none
  located rr (some locator) flags bytes =
      some (record { rr = rr; keylocator = locator; keyflags = flags }, bytes)

  unfoldable pub read_itemsig : Reader (Itemsig Rr)
  read_itemsig = do
    rr ← read_ldnsrr
    locator ← read_string
    flags ← read_integer
    located rr locator flags

  -- The signatures of an itemset are not written.
  unfoldable pub write_itemset : Itemset Rr → List ℕ
  write_itemset s = write_integer (pos s.rrtype) ++ write_array write_ldnsrr s.items

  -- They are not read either: `junk` is what the new memory happens to hold.
  unfoldable pub read_itemset : Array (Itemsig Rr) → Reader (Itemset Rr)
  read_itemset junk = do
    rrtype ← read_integer
    items ← read_array read_ldnsrr
    pure (record { rrtype = word rrtype; items = items; signatures = junk })

  -- `marshall` in mode WRITE.
  unfoldable pub write_dictionary : Dictionary Rr → List ℕ
  write_dictionary d =
      write_string d.name
      ++ (write_integer d.revision
          ++ (write_integer d.marker
              ++ (write_string d.spanhash
                  ++ (write_array write_itemsig d.spansignatures
                      ++ (write_optional write_integer d.validupto
                          ++ (write_optional write_integer d.validfrom
                              ++ (write_optional write_integer d.expiry
                                  ++ write_array write_itemset d.itemsets)))))))

  -- `marshall` in mode READ.
  unfoldable pub read_dictionary : Array (Itemsig Rr) → Reader (Dictionary Rr)
  read_dictionary junk = do
    name ← read_string
    revision ← read_integer
    marker ← read_integer
    spanhash ← read_string
    spansignatures ← read_array read_itemsig
    validupto ← read_optional read_integer
    validfrom ← read_optional read_integer
    expiry ← read_optional read_integer
    itemsets ← read_array (read_itemset junk)
    pure (record {
      name = name;
      revision = revision;
      marker = marker;
      spanhash = spanhash;
      spansignatures = spansignatures;
      validupto = validupto;
      validfrom = validfrom;
      expiry = expiry;
      itemsets = itemsets;
    })

  -- `names_recordmarshall`: a record, or NULL for the end.
  unfoldable pub write_record : Option (Dictionary Rr) → List ℕ
  write_record = write_optional write_dictionary

  unfoldable pub read_record : Array (Itemsig Rr) → Reader (Option (Dictionary Rr))
  read_record junk = read_optional (read_dictionary junk)

  -- The dump of the records by `names_viewpersist`: the end marker is written only if there is a
  -- record.
  unfoldable pub write_records : List (Dictionary Rr) → List ℕ
  write_records [] = []
  write_records (d ∷ ds) = write_many (λ r. write_record (some r)) (d ∷ ds) ++ write_record none

  -- The loop of `names_viewrestore`, for `fuel` records at most.
  abbrev pub next_record :
      Reader (List (Dictionary Rr)) → Option (Dictionary Rr) → Reader (List (Dictionary Rr))
  next_record more none = pure []
  next_record more (some d) = do ds ← more; pure (d ∷ ds)

  unfoldable pub read_records : ℕ → Array (Itemsig Rr) → Reader (List (Dictionary Rr))
  read_records zero junk bytes = none
  read_records (suc fuel) junk bytes =
      (read_record junk >>= next_record (read_records fuel junk)) bytes
