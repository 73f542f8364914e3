-- ===== src/Marshalling/Dump.antt =====
-- The dump of the records in a file by `names_viewpersist`, and its reading by `names_viewrestore`.
use volans.Prelude.{
  ℕ, zero, suc, ◌<◌, ◌≡◌, refl, ◌∙◌, none, some, List, [], ◌∷◌, ◌++◌, append_assoc, map, arith,
  length, All,
}
use volans.Ldns.{Ldns, Prints}
use volans.Record.{Array, Itemsig, Dictionary, recordcreate}
use volans.Record.Data.{add_rr}
use volans.Marshalling.{read_integer, write_many, read_optional}
use volans.Marshalling.Integer.{IsText, bind_lem}
use volans.Marshalling.Layout.{
  write_dictionary, read_dictionary, write_record, read_record, write_records, read_records,
}
use volans.Marshalling.Storable.{IsStorable, restored}
use volans.Marshalling.RoundTrip.{Reads-none, Reads-some, Reads-dictionary}

regroup : (a b c e : List ℕ) → ((a ++ b) ++ c) ++ e ≡ a ++ ((b ++ c) ++ e)
regroup a b c e = simp append_assoc

module _ {Rr : Type 0} ⦃l : Ldns Rr⦄ (p : Prints l) (junk : Array (Itemsig Rr)) where
  -- A storable record that was written is read back, whatever follows it, but for the arrays that
  -- were NULL, which have the count -1, and the signatures of item sets, which are undefined.
  pub read_record-write :
      (d : Dictionary Rr) (rest : List ℕ)
      → IsStorable d
      → read_record junk (write_record (some d) ++ rest) ≡ some (some (restored junk d), rest)
  unfolding read_record write_record
  read_record-write d rest h =
      Reads-some (read_dictionary junk) write_dictionary d (restored junk d)
        (Reads-dictionary p junk d h) rest

  read_record-end :
      (rest : List ℕ) → read_record junk (write_record {Rr = Rr} none ++ rest) ≡ some (none, rest)
  unfolding read_record write_record
  read_record-end rest = Reads-none (read_dictionary junk) write_dictionary rest

  read_records-write :
      (ds : List (Dictionary Rr)) (fuel : ℕ) (rest : List ℕ)
      → All IsStorable ds
      → length ds < fuel
      → read_records fuel junk
          ((write_many (λ r. write_record (some r)) ds ++ write_record {Rr = Rr} none) ++ rest)
        ≡ some (map (restored junk) ds, rest)
  unfolding read_records write_many
  read_records-write ds zero rest h f = absurd (omega arith)
  read_records-write [] (suc fuel) rest h f = bind_lem (read_record junk) _ _ (read_record-end rest)
  read_records-write (d ∷ ds) (suc fuel) rest h f = rw (regroup (write_record (some d))) (
      bind_lem (read_record junk) _ _ (read_record-write d _ h.0)
      ∙ bind_lem (read_records fuel junk) _ _ (read_records-write ds fuel rest h.1 (omega arith)))

  -- Restoring a dump of one or more storable records gives all of them, in their order, and leaves
  -- what follows unread; of each record the arrays that were NULL have the count -1 and the
  -- signatures of item sets are undefined. One round for each record and one for the end marker
  -- are enough.
  pub read_records-write_records :
      (d : Dictionary Rr) (ds : List (Dictionary Rr)) (fuel : ℕ) (rest : List ℕ)
      → All IsStorable (d ∷ ds)
      → length (d ∷ ds) < fuel
      → read_records fuel junk (write_records (d ∷ ds) ++ rest)
        ≡ some (map (restored junk) (d ∷ ds), rest)
  unfolding write_records
  read_records-write_records d ds fuel rest h f = read_records-write (d ∷ ds) fuel rest h f

  -- The dump of no records cannot be restored with any number of rounds, since it has no end
  -- marker.
  pub read_records_empty : (fuel : ℕ) → read_records fuel junk (write_records {Rr = Rr} []) ≡ none
  unfolding read_records write_records read_record read_optional read_integer
  read_records_empty zero = refl
  read_records_empty (suc fuel) = refl

  -- A record that was just created with a text for its name, then written and read back, cannot
  -- take a resource record: the addition goes through NULL.
  pub add_rr_after_restore :
      (name : List ℕ) (rest : List ℕ) (rr : Rr)
      → IsText name
      → (d : Dictionary Rr) × (read_record junk
            (write_record {Rr = Rr} (some (recordcreate (some name))) ++ rest)
          ≡ some (some d, rest))
        × (add_rr d rr ≡ none)
  unfolding recordcreate add_rr
  add_rr_after_restore name rest rr h = (
    restored junk (recordcreate (some name)),
    read_record-write (recordcreate (some name)) rest storable,
    refl,
  )
    where
      storable : IsStorable (recordcreate {Rr = Rr} (some name))
      storable = record {
        name = h;
        revision = omega arith;
        marker = omega arith;
        spanhash = tt;
        spansignatures = (tt, omega arith);
        validupto = tt;
        validfrom = tt;
        expiry = tt;
        itemsets = (tt, omega arith);
      }
