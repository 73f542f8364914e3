-- ===== src/Ldns.antt =====
-- What the program uses of the ldns library: resource records are known by these operations alone.
use volans.Prelude.{ℕ, ◌<◌, ◌^◌, ◌≡◌, Bool, true, Option, some, List, All, length}

-- `type_of` is ldns_rr_get_type, `same_data` that ldns_rr_compare returns 0 (it does not look at the
-- time to live), `ttl` is ldns_rr_ttl, `text` is ldns_rr2str as its bytes, and `parse` is
-- ldns_rr_new_frm_str, `none` if it fails. A clone is the record itself.
pub record Ldns (Rr : Type 0) : Type 0 where
  pub type_of : Rr → ℕ
  pub same_data : Rr → Rr → Bool
  pub ttl : Rr → ℕ
  pub text : Rr → List ℕ
  pub parse : List ℕ → Option Rr

-- ldns_rr_compare is 0 on an equivalence, and only on records of one type.
pub record Compares {Rr : Type 0} (l : Ldns Rr) : Type 0 where
  pub same_refl : (a : Rr) → l.same_data a a ≡ true
  pub same_symm : (a b : Rr) → l.same_data a b ≡ true → l.same_data b a ≡ true
  pub same_trans :
      (a b c : Rr) → l.same_data a b ≡ true → l.same_data b c ≡ true → l.same_data a c ≡ true
  pub same_type : (a b : Rr) → l.same_data a b ≡ true → l.type_of a ≡ l.type_of b

-- The presentation text of a resource record gives the record back, has no NUL and is short.
pub record Prints {Rr : Type 0} (l : Ldns Rr) : Type 0 where
  pub parse-text : (a : Rr) → l.parse (l.text a) ≡ some a
  pub text_has_no_nul : (a : Rr) → All (λ b. 0 < b) (l.text a)
  pub text_is_short : (a : Rr) → length (l.text a) < 2 ^ 31
