-- ===== src/Zonesign/Serials.antt =====
-- What the loops of `prepare` of zonesign.c keep of the records of a view, whose serials they set.
use volans.Prelude.{
  ℕ, ◌≡◌, refl, sym, ap, ◌∙◌, Bool, true, false, Option, none, some, List, arith, ◌==◌,
  if◌then◌else◌, ◌⊎◌, inl, inr,
}
use volans.Prelude.Int.{ℤ}
use volans.Record.{Dictionary, is_set}
use volans.Table.{Nodes}
use volans.Table.{tableget}
use volans.Views.Apply.{is_some}
use volans.Views.Changes.{Change}
use volans.Views.Store.{View, replaced_at, recordgetid}

module _ {Rr : Type 0} where
  -- A field that a record keeps is kept everywhere.
  pub replaced-field {ℓ} :
      {A : Type ℓ} (f : Dictionary Rr → A) (heap : ℕ → Dictionary Rr) (r : ℕ) (d : Dictionary Rr)
      (a : ℕ)
      → f d ≡ f (heap r)
      → f (replaced_at heap r d a) ≡ f (heap a)
  replaced-field f heap r d a h = by_test (a == r) refl
    where
      by_test : (b : Bool) → (a == r) ≡ b → f (if b then d else heap a) ≡ f (heap a)
      by_test true e = let same : a ≡ r = ground (arith, e) in h ∙ ap (λ x. f (heap x)) (sym same)
      by_test false e = refl

  pub replaced_self :
      (heap : ℕ → Dictionary Rr) (r : ℕ) (d : Dictionary Rr) → replaced_at heap r d r ≡ d
  replaced_self heap r d = ground arith

module _ {Rr Tree Log : Type 0} (ns : Nodes Change Log) where
  -- The change table has an entry for the id of a record.
  abbrev pub IsNoted : View Rr Tree Log → ℕ → Type 0
  IsNoted v a =
      (id : List ℕ) × (recordgetid (v.heap a) ≡ some id)
      × (is_some (tableget ns v.changelog id) ≡ true)

  -- A serial of a record is as it was, or there was none, it is `z`, and the change is noted.
  abbrev pub Dated :
      (Dictionary Rr → Option ℤ) → ℤ → View Rr Tree Log → View Rr Tree Log → ℕ → Type 0
  Dated f z v v' a =
      (f (v'.heap a) ≡ f (v.heap a))
      ⊎ ((f (v.heap a) ≡ none) × (f (v'.heap a) ≡ some z) × IsNoted v' a)

  -- The records keep their names, ids and data, what is noted stays so, and a serial only comes
  -- where there was none.
  pub record Later (z : ℤ) (v v' : View Rr Tree Log) : Type 0 where
    pub names : (a : ℕ) → (v'.heap a).name ≡ (v.heap a).name
    pub ids : (a : ℕ) → recordgetid (v'.heap a) ≡ recordgetid (v.heap a)
    pub sets : (a : ℕ) → (v'.heap a).itemsets ≡ (v.heap a).itemsets
    pub noted :
        (id : List ℕ)
        → is_some (tableget ns v.changelog id) ≡ true
        → is_some (tableget ns v'.changelog id) ≡ true
    pub starts : (a : ℕ) → Dated (λ d. d.validfrom) z v v' a
    pub ends : (a : ℕ) → Dated (λ d. d.validupto) z v v' a

  pub Later-refl : (z : ℤ) (v : View Rr Tree Log) → Later z v v
  Later-refl z v = record {
    names = λ a. refl;
    ids = λ a. refl;
    sets = λ a. refl;
    noted = λ id h. h;
    starts = λ a. inl refl;
    ends = λ a. inl refl;
  }

  Dated-trans :
      (f : Dictionary Rr → Option ℤ) (z : ℤ) (v v' w : View Rr Tree Log) (a : ℕ)
      → Later z v' w
      → Dated f z v v' a
      → Dated f z v' w a
      → Dated f z v w a
  Dated-trans f z v v' w a k (inl e) (inl e') = inl (e' ∙ e)
  Dated-trans f z v v' w a k (inl e) (inr (n, s, noted)) = inr (sym e ∙ n, s, noted)
  Dated-trans f z v v' w a k (inr (n, s, (id, i, has))) (inl e') =
      inr (n, e' ∙ s, (id, k.ids a ∙ i, k.noted id has))
  Dated-trans f z v v' w a k (inr (n, s, noted)) (inr (n', s', noted')) = inr (n, s', noted')

  pub Later-trans : (z : ℤ) (v v' w : View Rr Tree Log) → Later z v v' → Later z v' w → Later z v w
  Later-trans z v v' w h k = record {
    names = λ a. k.names a ∙ h.names a;
    ids = λ a. k.ids a ∙ h.ids a;
    sets = λ a. k.sets a ∙ h.sets a;
    noted = λ id e. k.noted id (h.noted id e);
    starts = λ a. Dated-trans (λ d. d.validfrom) z v v' w a k (h.starts a) (k.starts a);
    ends = λ a. Dated-trans (λ d. d.validupto) z v v' w a k (h.ends a) (k.ends a);
  }

  -- A serial that is set stays so.
  pub Dated-is_set :
      (f : Dictionary Rr → Option ℤ) (z : ℤ) (v v' : View Rr Tree Log) (a : ℕ)
      → Dated f z v v' a
      → is_set (f (v.heap a)) ≡ true
      → is_set (f (v'.heap a)) ≡ true
  Dated-is_set f z v v' a (inl e) h = ap is_set e ∙ h
  Dated-is_set f z v v' a (inr (n, s, noted)) h = ap is_set s

  -- One field of one record is set.
  pub Dated-replaced :
      (f : Dictionary Rr → Option ℤ) (z : ℤ) (v : View Rr Tree Log) (r : ℕ) (d : Dictionary Rr)
      (a : ℕ)
      → f (v.heap r) ≡ none
      → f d ≡ some z
      → recordgetid d ≡ recordgetid (v.heap r)
      → IsNoted v r
      → Dated f z v (record v { heap = replaced_at v.heap r d }) a
  Dated-replaced f z v r d a n s i (id, e, has) = by_test (a == r) refl
    where
      by_test :
          (b : Bool)
          → (a == r) ≡ b
          → (f (if b then d else v.heap a) ≡ f (v.heap a))
            ⊎ ((f (v.heap a) ≡ none)
                × (f (if b then d else v.heap a) ≡ some z)
                × ((id : List ℕ) × (recordgetid (if b then d else v.heap a) ≡ some id)
                    × (is_some (tableget ns v.changelog id) ≡ true)))
      by_test true t =
          let same : a ≡ r = ground (arith, t) in
          inr (ap (λ x. f (v.heap x)) same ∙ n, s, (id, i ∙ e, has))
      by_test false t = inl refl
