-- ===== src/Record/Ordering.antt =====
-- The acceptance functions of the indices: their order, their codes and the revisions.
use volans.Prelude.{
  ℕ, ◌≡◌, ◌^◌, ◌<◌, refl, Bool, true, false, Option, none, some, List, [], arith, if◌then◌else◌,
  length, ltb,
}
use volans.Prelude.Int.{pos}
use volans.Text.{Sign, equal, strcmp, decimal}
use volans.Text.Decimal.{strcmp_refl, strcmp-decimal_within}
use volans.Record.{Dictionary}
use volans.Record.Keys.{
  Keyname, name, namerevision, expiry, denialname, revision, nameupcoming, namenoserial,
  namenewserial, nameready, validnow, namehierarchy, validfrom, validupto, Verdict, verdict,
  recordindexfunction, getset, text_or_empty, compareupcomingset, comparenamerevision,
  comparenamehierarchy, compareexpiry, comparedenialname, compareincomingset, compareready,
  comparecurrentset, comparesignedset,
}

-- The field by which an index is ordered.
abbrev pub ordered_by : Keyname → Keyname
ordered_by namerevision = namerevision
ordered_by expiry = expiry
ordered_by denialname = denialname
ordered_by _ = name

-- Whether it is ordered from the last to the first text.
abbrev pub is_reversed : Keyname → Bool
is_reversed nameready = true
is_reversed namenewserial = true
is_reversed validnow = true
is_reversed namehierarchy = true
is_reversed _ = false

module _ {Rr : Type 0} where
  abbrev pub key_text : Keyname → Dictionary Rr → List ℕ
  key_text k d = elim (getset d (ordered_by k)) [ none ↦ [] | some t ↦ text_or_empty t ]

  -- The order of an index by its name.
  abbrev pub order : Keyname → Dictionary Rr → Dictionary Rr → Sign
  order k a b =
      if is_reversed k
      then strcmp (key_text k b) (key_text k a)
      else strcmp (key_text k a) (key_text k b)

  -- Where the acceptance function of an index compares two records, the comparison that it stores
  -- is that of the texts of one field, which the index name determines, in order or reversed.
  pub recordindexfunction-order :
      (k : Keyname) (accept : Dictionary Rr → Option (Dictionary Rr) → Option Verdict)
      (new cur : Dictionary Rr) (v : Verdict)
      → recordindexfunction k ≡ some accept
      → accept new (some cur) ≡ some v
      → v.cmp ≡ some (order k new cur)
  unfolding recordindexfunction getset comparenamerevision comparenamehierarchy compareexpiry
      comparedenialname compareupcomingset compareincomingset compareready comparecurrentset
      comparesignedset
  recordindexfunction-order name accept new cur v e f = cc
  recordindexfunction-order revision accept new cur v e f = cc
  recordindexfunction-order validfrom accept new cur v e f = cc
  recordindexfunction-order validupto accept new cur v e f = cc
  recordindexfunction-order namerevision accept new cur v e f = ground (arith, e, f)
  recordindexfunction-order expiry accept new cur v e f = ground (arith, e, f)
  recordindexfunction-order denialname accept new cur v e f = ground (arith, e, f)
  recordindexfunction-order nameupcoming accept new cur v e f = ground (arith, e, f)
  recordindexfunction-order namenoserial accept new cur v e f = ground (arith, e, f)
  recordindexfunction-order namenewserial accept new cur v e f = ground (arith, e, f)
  recordindexfunction-order nameready accept new cur v e f = ground (arith, e, f)
  recordindexfunction-order validnow accept new cur v e f = ground (arith, e, f)
  recordindexfunction-order namehierarchy accept new cur v e f = ground (arith, e, f)

  -- The codes of the acceptance functions are 0, 1 and 2.
  pub recordindexfunction_codes :
      (k : Keyname) (accept : Dictionary Rr → Option (Dictionary Rr) → Option Verdict)
      (new cur : Dictionary Rr) (v : Verdict)
      → recordindexfunction k ≡ some accept
      → accept new (some cur) ≡ some v
      → v.code < 3
  unfolding recordindexfunction getset comparenamerevision comparenamehierarchy compareexpiry
      comparedenialname compareupcomingset compareincomingset compareready comparecurrentset
      comparesignedset
  recordindexfunction_codes name accept new cur v e f = cc
  recordindexfunction_codes revision accept new cur v e f = cc
  recordindexfunction_codes validfrom accept new cur v e f = cc
  recordindexfunction_codes validupto accept new cur v e f = cc
  recordindexfunction_codes namerevision accept new cur v e f = ground (arith, e, f)
  recordindexfunction_codes expiry accept new cur v e f = ground (arith, e, f)
  recordindexfunction_codes denialname accept new cur v e f = ground (arith, e, f)
  recordindexfunction_codes nameupcoming accept new cur v e f = ground (arith, e, f)
  recordindexfunction_codes namenoserial accept new cur v e f = ground (arith, e, f)
  recordindexfunction_codes namenewserial accept new cur v e f = ground (arith, e, f)
  recordindexfunction_codes nameready accept new cur v e f = ground (arith, e, f)
  recordindexfunction_codes validnow accept new cur v e f = ground (arith, e, f)
  recordindexfunction_codes namehierarchy accept new cur v e f = ground (arith, e, f)

  -- Of two records with one name, whose revisions are numbers with the same number of digits, the
  -- index of upcoming records accepts the new one exactly if its revision is the greater.
  pub compareupcomingset_same_digits :
      (new cur : Dictionary Rr) (text : List ℕ) (a b : ℕ)
      → new.name ≡ some text
      → cur.name ≡ some text
      → new.revision ≡ pos a
      → cur.revision ≡ pos b
      → a < 10 ^ 20
      → b < 10 ^ 20
      → length (decimal a) ≡ length (decimal b)
      → compareupcomingset new (some cur) ≡ verdict (if ltb b a then 1 else 0) equal
  unfolding compareupcomingset getset decimal
  compareupcomingset_same_digits new cur text a b n m ra rb ha hb h =
      rw (n, m, ra, rb, strcmp_refl text, strcmp-decimal_within 19 a b ha hb h) (ground arith)

  -- Of two records with one name, the index of upcoming records refuses one of revision 10 where
  -- it has one of revision 9: it compares the texts of the revisions.
  pub compareupcomingset_ten :
      (new cur : Dictionary Rr) (text : List ℕ)
      → new.name ≡ some text
      → cur.name ≡ some text
      → new.revision ≡ pos 10
      → cur.revision ≡ pos 9
      → compareupcomingset new (some cur) ≡ verdict 0 equal
  unfolding compareupcomingset getset decimal
  compareupcomingset_ten new cur text n m ra rb = rw (n, m, ra, rb, strcmp_refl text) refl
