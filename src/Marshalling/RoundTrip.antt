-- ===== src/Marshalling/RoundTrip.antt =====
-- Reading the parts of a record, and a whole one, that `marshall` of dictionary.c wrote.
use volans.Prelude.{
  ℕ, ◌≡◌, refl, ◌∙◌, Option, none, some, List, [], ◌∷◌, ◌++◌, append_assoc, map, arith, length, All,
  All-map, subst,
}
use volans.Prelude.Int.{ℤ, pos, negsuc}
use volans.Ldns.{Ldns, Prints}
use volans.Record.{Array, minus, null, at, elements, Itemsig, Itemset, Dictionary}
use volans.Marshalling.{
  Reader, ◌>>=◌, pure, word, write_integer, read_integer, write_string, read_string, write_ldnsrr,
  read_ldnsrr, read_many, write_many, write_optional, read_optional, take_bytes,
}
use volans.Marshalling.Integer.{
  IsInt, bind_lem, read_integer-write, read_string-write, take_bytes-append, text_of_text,
}
use volans.Marshalling.Storable.{
  Fits, restored_array, IsIntOrNull, IsStorableSig, IsStorableSet, IsStorable, restored_itemset,
  restored,
}
use volans.Marshalling.Layout.{
  write_array, read_array, write_itemsig, read_itemsig, write_itemset, read_itemset,
  write_dictionary, read_dictionary,
}

-- `m` reads `a` from `bytes`, whatever follows them.
abbrev pub Reads : {A : Type 0} → Reader A → List ℕ → A → Type 0
Reads m bytes a = (rest : List ℕ) → m (bytes ++ rest) ≡ some (a, rest)

All-of : {A : Type 0} (P : A → Type 0) (xs : List A) → ((x : A) → P x) → All P xs
All-of P [] h = tt
All-of P (x ∷ xs) h = (h x, All-of P xs h)

Reads-bind :
    {A B : Type 0} (m : Reader A) (k : A → Reader B) (bs bs' : List ℕ) (a : A) (b : B)
    → Reads m bs a
    → Reads (k a) bs' b
    → Reads (m >>= k) (bs ++ bs') b
Reads-bind m k bs bs' a b h h' rest = rw append_assoc (bind_lem m k _ (h (bs' ++ rest)) ∙ h' rest)

Reads-map :
    {A B : Type 0} (m : Reader A) (g : A → B) (bs : List ℕ) (a : A)
    → Reads m bs a
    → Reads (m >>= λ x. pure (g x)) bs (g a)
Reads-map m g bs a h rest = bind_lem m _ _ (h rest)

Reads-many :
    {A B : Type 0} (m : Reader B) (f : A → List ℕ) (g : A → B) (xs : List A)
    → All (λ x. Reads m (f x) (g x)) xs
    → Reads (read_many m (length xs)) (write_many f xs) (map g xs)
unfolding read_many write_many
Reads-many m f g [] h = λ rest. refl
Reads-many m f g (x ∷ xs) h = Reads-bind m _ (f x) (write_many f xs) (g x) (g x ∷ map g xs) h.0 (
    Reads-map (read_many m (length xs)) (λ more. g x ∷ more) (write_many f xs) (map g xs)
      (Reads-many m f g xs h.1))

Reads-array :
    {A B : Type 0} (m : Reader B) (f : A → List ℕ) (g : A → B) (xs : Array A)
    → Fits (λ x. Reads m (f x) (g x)) xs
    → Reads (read_array m) (write_array f xs) (restored_array g xs)
unfolding read_array write_array
Reads-array m f g minus h =
    λ rest. bind_lem read_integer _ _ (read_integer-write (negsuc 0) rest (omega arith))
Reads-array m f g null h =
    λ rest. bind_lem read_integer _ _ (read_integer-write (negsuc 0) rest (omega arith))
Reads-array m f g (at xs) h =
    Reads-bind read_integer _ (write_integer (pos (length xs))) (write_many f xs) (pos (length xs))
      (at (map g xs)) (λ rest. read_integer-write (pos (length xs)) rest h.1)
      (Reads-map (read_many m (length xs)) at (write_many f xs) (map g xs)
        (Reads-many m f g xs h.0))

pub Reads-none :
    {A B : Type 0} (m : Reader B) (f : A → List ℕ)
    → Reads (read_optional m) (write_optional f none) none
unfolding read_optional write_optional
Reads-none m f rest = bind_lem read_integer _ _ (read_integer-write (negsuc 0) rest (omega arith))

pub Reads-some :
    {A B : Type 0} (m : Reader B) (f : A → List ℕ) (a : A) (b : B)
    → Reads m (f a) b
    → Reads (read_optional m) (write_optional f (some a)) (some b)
unfolding read_optional write_optional read_many
Reads-some m f a b h =
    Reads-bind read_integer _ (write_integer (pos 1)) (f a) (pos 1) (some b)
      (λ rest. read_integer-write (pos 1) rest (omega arith)) (λ rest. rw (h rest))

optional_int :
    (o : Option ℤ)
    → IsIntOrNull o
    → Reads (read_optional read_integer) (write_optional write_integer o) o
optional_int none h = Reads-none read_integer write_integer
optional_int (some z) h =
    Reads-some read_integer write_integer z z (λ rest. read_integer-write z rest h)

module _ {Rr : Type 0} ⦃l : Ldns Rr⦄ where
  Reads-ldnsrr : (p : Prints l) (rr : Rr) → Reads read_ldnsrr (write_ldnsrr rr) rr
  unfolding read_ldnsrr write_ldnsrr
  Reads-ldnsrr p rr =
      Reads-bind read_integer _ (write_integer (pos (length (l.text rr)))) (l.text rr)
        (pos (length (l.text rr))) rr
        (λ rest. read_integer-write (pos (length (l.text rr))) rest (p.text_is_short rr))
        (λ rest.
          bind_lem (take_bytes (length (l.text rr))) _ _ (take_bytes-append (l.text rr) rest)
          ∙ rw (text_of_text (l.text rr) (p.text_has_no_nul rr), p.parse-text rr))

  Reads-itemsig :
      (p : Prints l) (s : Itemsig Rr) → IsStorableSig s → Reads read_itemsig (write_itemsig s) s
  unfolding read_itemsig write_itemsig
  Reads-itemsig p s h =
      Reads-bind read_ldnsrr _ (write_ldnsrr s.rr) _ s.rr s (Reads-ldnsrr p s.rr) (
        Reads-bind read_string _ (write_string (some s.keylocator)) (write_integer s.keyflags)
          (some s.keylocator) s (λ rest. read_string-write (some s.keylocator) rest h.0)
          (λ rest. bind_lem read_integer _ _ (read_integer-write s.keyflags rest h.1)))

  Reads-itemset :
      (p : Prints l) (junk : Array (Itemsig Rr)) (s : Itemset Rr)
      → IsStorableSet s
      → Reads (read_itemset junk) (write_itemset s) (restored_itemset junk s)
  unfolding read_itemset write_itemset
  Reads-itemset p junk s h =
      Reads-bind read_integer _ (write_integer (pos s.rrtype)) (write_array write_ldnsrr s.items)
        (pos s.rrtype) (restored_itemset junk s)
        (λ rest. read_integer-write (pos s.rrtype) rest (omega (arith, h.0)))
        (subst
          (λ t.
            Reads (read_array read_ldnsrr >>= λ items. pure (with_type t items))
              (write_array write_ldnsrr s.items) (restored_itemset junk s))
          type_kept
          (Reads-map (read_array read_ldnsrr) (with_type s.rrtype)
            (write_array write_ldnsrr s.items) (restored_array (λ rr. rr) s.items)
            (Reads-array read_ldnsrr write_ldnsrr (λ rr. rr) s.items
              (
                All-of (λ rr. Reads read_ldnsrr (write_ldnsrr rr) rr) (elements s.items)
                    (Reads-ldnsrr p),
                h.1,
              ))))
    where
      with_type : ℕ → Array Rr → Itemset Rr
      with_type t items = record { rrtype = t; items = items; signatures = junk }

      type_kept : s.rrtype ≡ word (pos s.rrtype)
      type_kept = omega (arith, h.0)

  -- `marshall` reads back what it wrote.
  pub Reads-dictionary :
      (p : Prints l) (junk : Array (Itemsig Rr)) (d : Dictionary Rr)
      → IsStorable d
      → Reads (read_dictionary junk) (write_dictionary d) (restored junk d)
  unfolding read_dictionary write_dictionary
  Reads-dictionary p junk d h =
      let b = restored junk d in
      let int = λ (z : ℤ) (i : IsInt z) (rest : List ℕ). read_integer-write z rest i in
      Reads-bind read_string _ (write_string d.name) _ d.name b
        (λ rest. read_string-write d.name rest h.name)
        (Reads-bind read_integer _ (write_integer d.revision) _ d.revision b
          (int d.revision h.revision)
          (Reads-bind read_integer _ (write_integer d.marker) _ d.marker b (int d.marker h.marker) (
            Reads-bind read_string _ (write_string d.spanhash) _ d.spanhash b
              (λ rest. read_string-write d.spanhash rest h.spanhash)
              (Reads-bind (read_array read_itemsig) _ (write_array write_itemsig d.spansignatures) _
                (restored_array (λ s. s) d.spansignatures) b
                (Reads-array read_itemsig write_itemsig (λ s. s) d.spansignatures
                  (
                    All-map IsStorableSig (λ s. Reads read_itemsig (write_itemsig s) s)
                        (elements d.spansignatures) (Reads-itemsig p) h.spansignatures.0,
                    h.spansignatures.1,
                  ))
                (Reads-bind (read_optional read_integer) _
                  (write_optional write_integer d.validupto) _ d.validupto b
                  (optional_int d.validupto h.validupto)
                  (Reads-bind (read_optional read_integer) _
                    (write_optional write_integer d.validfrom) _ d.validfrom b
                    (optional_int d.validfrom h.validfrom)
                    (Reads-bind (read_optional read_integer) _
                      (write_optional write_integer d.expiry) _ d.expiry b
                      (optional_int d.expiry h.expiry)
                      (Reads-map (read_array (read_itemset junk)) _
                        (write_array write_itemset d.itemsets)
                        (restored_array (restored_itemset junk) d.itemsets)
                        (Reads-array (read_itemset junk) write_itemset (restored_itemset junk)
                          d.itemsets
                          (
                            All-map IsStorableSet
                                (λ s.
                                  Reads (read_itemset junk) (write_itemset s)
                                    (restored_itemset junk s))
                                (elements d.itemsets) (Reads-itemset p junk) h.itemsets.0,
                            h.itemsets.1,
                          ))))))))))
