-- ===== src/Samples.antt =====
-- Sample resource records, on which the theorems about records and files are tried.
pub mod Trees
use volans.Prelude.{ℕ, suc, refl, ◌&&◌, Option, none, some, List, [], ◌∷◌, arith, ◌==◌}
use volans.Ldns.{Ldns, Compares, Prints}

-- A resource record with its type, its data and its time to live, all small numbers.
pub record Sample : Type 0 where
  pub kind : ℕ
  pub value : ℕ
  pub ttl : ℕ

-- A text is the three numbers, each one more than it is, so that no byte is NUL.
abbrev read_sample : List ℕ → Option Sample
read_sample (suc k ∷ suc v ∷ suc t ∷ []) = some (record { kind = k; value = v; ttl = t })
read_sample _ = none

instance abbrev pub sample_ldns : Ldns Sample
sample_ldns = record {
  type_of = λ r. r.kind;
  same_data = λ a b. a.kind == b.kind && a.value == b.value;
  ttl = λ r. r.ttl;
  text = λ r. suc r.kind ∷ suc r.value ∷ suc r.ttl ∷ [];
  parse = read_sample;
}

pub sample-Compares : Compares sample_ldns
sample-Compares = record {
  same_refl = λ a. ground arith;
  same_symm = λ a b h. ground arith;
  same_trans = λ a b c h k. ground arith;
  same_type = λ a b h. ground arith;
}

pub sample-Prints : Prints sample_ldns
sample-Prints = record {
  parse-text = λ a. refl;
  text_has_no_nul = λ a. (omega arith, (omega arith, (omega arith, tt)));
  text_is_short = λ a. omega arith;
}

abbrev pub a_record : ℕ → Sample
a_record v = record { kind = 1; value = v; ttl = 3600 }

abbrev pub mx_record : ℕ → Sample
mx_record v = record { kind = 15; value = v; ttl = 3600 }
